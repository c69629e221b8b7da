-- ===== src/Control/Journey/Election.antt =====
-- The controller of a MongoDB replica set from its start to its first deployment.
use mathlib.Core.List.{Mem}
use mongoctl.Prelude.{List, ◌∷◌, ◌≡◌, ◌≤◌, sym, ok, some, Bytes, length, All, ap, ◌∙◌, map}
use mongoctl.Sorting.{SortFunc}
use mongoctl.Stateless.{Engine}
use mongoctl.Mongo.Report.{MongoCandidateReport, IsNoLater, less-IsNoLater}
use mongoctl.Mongo.Spec.{MongoReplSetSpec, get_members}
use mongoctl.Mongo.Spec.Names.{IsPrintable}
use mongoctl.Control.{Outside, Control, publish_repl_spec}
use mongoctl.Control.Machine.{State, monitoring, Trigger, Arg}
use mongoctl.Control.Loop.{running, Event, report, expire, deliver, controller_task}
use mongoctl.Control.Elect.{mongo_kind, elected_primary}
use mongoctl.Control.Journey.{first_deployment}

module _ {Job W H : Type 0} (slices : SortFunc MongoCandidateReport)
    (o : Outside MongoReplSetSpec Job W)
    (e : Engine State Trigger
      (Arg MongoCandidateReport H)
      (Control MongoCandidateReport MongoReplSetSpec W)) where
  -- The controller of a MongoDB replica set that is started, is reported three candidates or more
  -- whose texts hold no colon and no comma, and gets its timer's callback, deploys and then keeps a
  -- specification of three members. Its primary is a reported node, and no report has a later last
  -- operation, nor an equal one with a greater name, and its members are read back as the names of the three that it keeps; all of
  -- this where every publication of a specification whose members can be read succeeds.
  pub mongo_election :
      (job_file : Bytes) (w : W) (published : MongoReplSetSpec → W) (cs : List MongoCandidateReport)
      (events : List (Event MongoCandidateReport H))
      → 3 ≤ length cs
      → All IsPrintable cs
      → ((spec : MongoReplSetSpec) (names : List Bytes)
          → get_members spec ≡ ok names
          → publish_repl_spec (mongo_kind slices) o job_file spec w ≡ (ok tt, published spec))
      → (rs : Control MongoCandidateReport MongoReplSetSpec W) × (spec : MongoReplSetSpec)
        × (p : MongoCandidateReport) × (controller_task
              (mongo_kind slices)
              o
              e
              job_file
              w
              (report cs ∷ expire ∷ deliver 0 ∷ events)
            ≡ running monitoring rs)
        × (rs.world ≡ published spec)
        × (rs.last_spec ≡ some spec)
        × (spec.count ≡ 3)
        × (spec.primary ≡ p.node_name)
        × Mem p cs
        × ((m : MongoCandidateReport) → Mem m cs → IsNoLater m p)
        × (get_members spec ≡ ok (map (λ c. c.node_name) rs.last_members))
  unfolding mongo_kind
  mongo_election job_file w published cs events enough printable succeeds =
      let (spec, p, made, named, same_set, mem, top, count, names) =
        elected_primary slices cs enough printable in
      let (rs, ran, world, kept, members) =
        first_deployment (mongo_kind slices) o e job_file w (published spec) cs spec events enough
          made (succeeds spec _ names) in
      (
        rs,
        spec,
        p,
        ran,
        world,
        kept,
        count,
        named,
        mem,
        λ m at. less-IsNoLater m p (top m at),
        names ∙ ap (λ (l : List MongoCandidateReport). ok (map (λ c. c.node_name) l)) (sym members),
      )
