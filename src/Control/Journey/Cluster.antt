-- ===== src/Control/Journey/Cluster.antt =====
-- The controller of a Kafka cluster from its start to its first deployment.
use mathlib.Core.List.{Mem}
use mathlib.Core.Path.{subst}
use mongoctl.Prelude.{
  List, ◌∷◌, map, ◌≡◌, ◌≤◌, refl, sym, ◌∙◌, ap, arith, ok, some, false, Bytes, length, take, drop,
  length-take, str_lt, str_lt_irrefl, str_lt_trans, str_lt_weak,
}
use mongoctl.Prelude.Perms.{length-Perm}
use mongoctl.Sorting.{SortFunc, IsStrictWeak, sort_candidates}
use mongoctl.Sorting.Candidates.{sort_candidates-Perm, taken_before_left}
use mongoctl.Stateless.{Engine}
use mongoctl.Kafka.{
  KafkaCandidateReport, KafkaReplSetSpec, KafkaConfig, less, generate_repl_config, get_members,
}
use mongoctl.Control.{Kind, Outside, Control, publish_repl_spec}
use mongoctl.Control.Machine.{State, monitoring, Trigger, Arg}
use mongoctl.Control.Loop.{running, Event, report, expire, deliver, controller_task}
use mongoctl.Control.Journey.{first_deployment}

-- `replicaSetControl[KafkaCandidateReport, KafkaReplSetSpec, KafkaHealthStatus]`.
unfoldable pub kafka_kind :
    SortFunc KafkaCandidateReport → KafkaConfig → Kind KafkaCandidateReport KafkaReplSetSpec
kafka_kind slices cfg = record {
  less = less;
  generate_repl_config = λ cs. ok (generate_repl_config cfg cs);
  get_members = get_members;
  slices = slices;
}

pub less-IsStrictWeak : IsStrictWeak less
unfolding less
less-IsStrictWeak = record {
  irrefl = λ a. str_lt_irrefl a.m_time;
  trans = λ a b c. str_lt_trans a.m_time b.m_time c.m_time;
  weak = λ a b c. str_lt_weak a.m_time b.m_time c.m_time;
}

members-generate_repl_config :
    (cfg : KafkaConfig) (cs : List KafkaCandidateReport)
    → ((generate_repl_config cfg cs).members ≡ map (λ c. c.node_name) cs)
      × ((generate_repl_config cfg cs).cluster_id ≡ cfg.cluster_id)
unfolding generate_repl_config
members-generate_repl_config cfg cs = (refl, refl)

module _ {Job W H : Type 0} (slices : SortFunc KafkaCandidateReport) (cfg : KafkaConfig)
    (o : Outside KafkaReplSetSpec Job W)
    (e : Engine State Trigger
      (Arg KafkaCandidateReport H)
      (Control KafkaCandidateReport KafkaReplSetSpec W)) where
  -- The controller of a Kafka cluster that is started, is reported three candidates or more, and
  -- gets its timer's callback, deploys and then keeps the specification of three candidates, under
  -- its own cluster's identifier and with their names, in order, where that publication succeeds.
  -- No candidate that the sort leaves out has a time of its data directory that comes, as a text,
  -- before that of one of the three.
  pub kafka_deployment :
      (job_file : Bytes) (w w' : W) (cs : List KafkaCandidateReport)
      (events : List (Event KafkaCandidateReport H))
      → let sorted = sort_candidates slices less cs in
        3 ≤ length cs
        → publish_repl_spec
            (kafka_kind slices cfg)
            o
            job_file
            (generate_repl_config cfg (take 3 sorted))
            w
          ≡ (ok tt, w')
        → (rs : Control KafkaCandidateReport KafkaReplSetSpec W) × (spec : KafkaReplSetSpec)
          × (controller_task
                (kafka_kind slices cfg)
                o
                e
                job_file
                w
                (report cs ∷ expire ∷ deliver 0 ∷ events)
              ≡ running monitoring rs)
          × (rs.world ≡ w')
          × (rs.last_spec ≡ some spec)
          × (length rs.last_members ≡ 3)
          × (spec ≡ generate_repl_config cfg rs.last_members)
          × (spec.members ≡ map (λ c. c.node_name) rs.last_members)
          × (spec.cluster_id ≡ cfg.cluster_id)
          × ((a b : KafkaCandidateReport)
              → Mem a rs.last_members
              → Mem b (drop 3 sorted)
              → str_lt b.m_time a.m_time ≡ false)
  unfolding kafka_kind less
  kafka_deployment job_file w w' cs events enough published =
      let sorted = sort_candidates slices less cs in
      let same : length sorted ≡ length cs = length-Perm (sort_candidates-Perm less slices cs) in
      let (rs, ran, world, kept, members) =
        first_deployment (kafka_kind slices cfg) o e job_file w w' cs
          (generate_repl_config cfg (take 3 sorted)) events enough refl published in
      let (names, id) = members-generate_repl_config cfg (take 3 sorted) in
      (
        rs,
        generate_repl_config cfg (take 3 sorted),
        ran,
        world,
        kept,
        ap length members ∙ length-take 3 sorted ∙ omega arith,
        ap (generate_repl_config cfg) (sym members),
        names ∙ ap (map (λ c. c.node_name)) (sym members),
        id,
        λ a b ma mb.
            taken_before_left less less-IsStrictWeak slices 3 cs a b (subst (Mem a) members ma) mb,
      )
