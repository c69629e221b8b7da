-- ===== src/Control/Journey/Service.antt =====
-- A Kafka cluster from the candidates' reports to the servers of its nodes: the controller's
-- deployment, and what `memberTask` makes of the deployed specification on any node.
use mathlib.Core.List.Perm
use mongoctl.Prelude.{
  List, [], ◌∷◌, ◌≡◌, ◌≢◌, ◌≤◌, ◌⊎◌, inl, inr, refl, ◌∙◌, arith, ok, some, Bytes, length, take, All,
  All-take,
}
use mongoctl.Prelude.Perms.{All-Perm, length-Perm}
use mongoctl.Sorting.{SortFunc, sort_candidates}
use mongoctl.Sorting.Candidates.{sort_candidates-Perm}
use mongoctl.Stateless.{Engine}
use mongoctl.Kafka.{KafkaCandidateReport, KafkaReplSetSpec, KafkaConfig, less, generate_repl_config}
use mongoctl.Kafka.Machine.{
  State as NodeState, Trigger as NodeTrigger, Arg as NodeArg, init, KafkaSm, create_props,
  new_kafka_sm,
}
use mongoctl.Kafka.Monitor.{member_start}
use mongoctl.Kafka.Monitor.Membership.{IsNamed, IsNameless, IsNamed-or_not, started_members}
use mongoctl.Kafka.Properties.{Files, normalize}
use mongoctl.Kafka.Properties.ReadBack.{IsOneLine}
use mongoctl.Kafka.Properties.File.{IsServable, IsServable-prop}
use mongoctl.Kafka.Node.{Shell, node_host}
use mongoctl.Kafka.Node.Launch.{Works, Serves, node_launches}
use mongoctl.Control.{Outside, Control, publish_repl_spec}
use mongoctl.Control.Machine.{State, monitoring, Trigger, Arg}
use mongoctl.Control.Loop.{running, Event, report, expire, deliver, controller_task}
use mongoctl.Control.Journey.{first_deployment}
use mongoctl.Control.Journey.Cluster.{kafka_kind}

chosen-ne :
    (sorted cs : List KafkaCandidateReport)
    → length sorted ≡ length cs
    → 3 ≤ length cs
    → take 3 sorted ≢ []
chosen-ne [] cs same enough = absurd (omega (arith, same, enough))
chosen-ne (c ∷ rest) cs same enough = cc

module _ {Job W H : Type 0} (slices : SortFunc KafkaCandidateReport) (own : KafkaConfig)
    (o : Outside KafkaReplSetSpec Job W)
    (e : Engine State Trigger
      (Arg KafkaCandidateReport H)
      (Control KafkaCandidateReport KafkaReplSetSpec W)) where
  module _ {N : Type 0} (fs : Files N) (sh : Shell N) (content : N → Bytes → Bytes)
      (cfg : KafkaConfig) (en : Engine NodeState NodeTrigger NodeArg (KafkaSm N))
      -- A file that was written without an error holds what was written.
      (stored : (file text : Bytes) (w w' : N)
        → fs.write file text w ≡ (ok tt, w')
        → content w' file ≡ text) where
    -- The controller of a Kafka cluster is started, is reported three candidates or more, whose
    -- controllers' addresses and ports hold no comma and no byte that HTML escapes, and gets its
    -- timer's callback, and the publication succeeds: it keeps the specification of the first three
    -- candidates of the sorted list. A node that reads this specification and bears the name of one
    -- of the three starts its server, from a file whose bootstrap servers are read back as the
    -- endpoints of the three, where its calls of files and commands succeed and its properties hold
    -- no line's end. A node with another name stays as it is.
    pub cluster_forms :
        (job_file : Bytes) (w w' : W) (cs : List KafkaCandidateReport)
        (events : List (Event KafkaCandidateReport H)) (v v' v'' : N)
        → let chosen = take 3 (sort_candidates slices less cs) in
          3 ≤ length cs
          → All IsServable cs
          → publish_repl_spec (kafka_kind slices own) o job_file (generate_repl_config own chosen) w
            ≡ (ok tt, w')
          → (IsNamed cfg.node_name chosen
              → IsOneLine (create_props (normalize fs.clean) cfg (generate_repl_config own chosen))
                × Works fs sh cfg (generate_repl_config own chosen) v v' v'')
          → (rs : Control KafkaCandidateReport KafkaReplSetSpec W) × (spec : KafkaReplSetSpec)
            × (controller_task
                  (kafka_kind slices own)
                  o
                  e
                  job_file
                  w
                  (report cs ∷ expire ∷ deliver 0 ∷ events)
                ≡ running monitoring rs)
            × (rs.last_spec ≡ some spec)
            × (rs.last_members ≡ chosen)
            × ((IsNamed cfg.node_name chosen
                  × Serves fs sh content chosen v' v''
                      (member_start (node_host fs sh) cfg en spec (new_kafka_sm v)))
                ⊎ (IsNameless cfg.node_name chosen
                    × (member_start (node_host fs sh) cfg en spec (new_kafka_sm v)
                        ≡ some (record {
                          outcome = ok tt;
                          state = init;
                          world = new_kafka_sm v;
                          queued = [];
                        }))))
    unfolding kafka_kind
    cluster_forms job_file w w' cs events v v' v'' enough servable published works =
        let sorted = sort_candidates slices less cs in
        let chosen = take 3 sorted in
        let p = sort_candidates-Perm less slices cs in
        let (rs, ran, _, kept, members) =
          first_deployment (kafka_kind slices own) o e job_file w w' cs
            (generate_repl_config own chosen) events enough refl published in
        let (starts, rests) =
          started_members (node_host fs sh) cfg en own chosen (new_kafka_sm v) in
        (
          rs,
          generate_repl_config own chosen,
          ran,
          kept,
          members,
          elim (IsNamed-or_not cfg.node_name chosen) [
            | inl named ↦
                let (one, calls) = works named in
                let (launched, bytes, read, parts) =
                  node_launches fs sh content cfg own en stored chosen v v' v''
                    (chosen-ne sorted cs (length-Perm p) enough)
                    (All-take IsServable 3 sorted
                      (All-Perm IsServable IsServable-prop (Perm.symm p) servable))
                    one calls in
                inl (named, (starts named ∙ launched, bytes, read, parts))
            | inr nameless ↦ inr (nameless, rests nameless)
          ],
        )
