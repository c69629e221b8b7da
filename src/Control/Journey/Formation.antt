-- ===== src/Control/Journey/Formation.antt =====
-- A MongoDB replica set from the reports of its members to its initiation.
use mathlib.Core.List.{Mem, Perm, mem-cons_self}
use mathlib.Core.List.Perm
use mathlib.Core.Path.{subst}
use mongoctl.Prelude.{
  ℕ, List, [], ◌∷◌, ◌≡◌, ◌≤◌, refl, sym, ◌∙◌, ap, arith, ok, some, false, Bytes, length, take, All,
}
use mongoctl.Prelude.Perms.{All-Perm, length-Perm}
use mongoctl.Sorting.{SortFunc, sort_candidates}
use mongoctl.Sorting.Candidates.{sort_candidates-Perm, first_is_best}
use mongoctl.Stateless.{Engine}
use mongoctl.Mongo.Report.{MongoCandidateReport, less, less-IsStrictWeak, IsNoLater, less-IsNoLater}
use mongoctl.Mongo.Spec.{MongoReplSetSpec, generate_repl_config, get_members}
use mongoctl.Mongo.Spec.Names.{IsPrintable, IsPrintable-prop}
use mongoctl.Mongo.Client.{Driver}
use mongoctl.Mongo.Status.{MongoConfig}
use mongoctl.Mongo.Primary.{RangeOrder}
use mongoctl.Mongo.Member.{Host}
use mongoctl.Mongo.Member.Bootstrap.{IsFresh, IsWilling, Bootstraps, bootstrap}
use mongoctl.Control.{Outside, Control, publish_repl_spec}
use mongoctl.Control.Machine.{State, monitoring, Trigger, Arg}
use mongoctl.Control.Loop.{running, Event, report, expire, deliver, controller_task}
use mongoctl.Control.Elect.{mongo_kind, elected_primary}
use mongoctl.Control.Journey.{first_deployment}

-- The three that a specification is generated from, the best first.
record Best (slices : SortFunc MongoCandidateReport) (cs : List MongoCandidateReport) : Type 0 where
  a : MongoCandidateReport
  b : MongoCandidateReport
  c : MongoCandidateReport
  taken : take 3 (sort_candidates slices less cs) ≡ a ∷ b ∷ c ∷ []
  printed : All IsPrintable (a ∷ b ∷ c ∷ [])
  a_mem : Mem a cs
  top : (x : MongoCandidateReport) → Mem x cs → less x a ≡ false

sorted-Best :
    (slices : SortFunc MongoCandidateReport) (cs sorted : List MongoCandidateReport)
    → sort_candidates slices less cs ≡ sorted
    → Perm sorted cs
    → 3 ≤ length sorted
    → All IsPrintable sorted
    → Best slices cs
sorted-Best slices cs [] e p h pr = absurd (omega arith)
sorted-Best slices cs (a ∷ []) e p h pr = absurd (omega arith)
sorted-Best slices cs (a ∷ b ∷ []) e p h pr = absurd (omega arith)
sorted-Best slices cs (a ∷ b ∷ c ∷ rest) e p h (pa, (pb, (pc, _))) =
    let here = λ (x : MongoCandidateReport) (m : Mem x (a ∷ b ∷ c ∷ rest)). (Perm.mem_iff p).0 m in
    record {
      a = a;
      b = b;
      c = c;
      taken = ap (take 3) e;
      printed = (pa, (pb, (pc, tt)));
      a_mem = here a mem-cons_self;
      top = first_is_best less less-IsStrictWeak slices cs e;
    }

candidates-Best :
    (slices : SortFunc MongoCandidateReport) (cs : List MongoCandidateReport)
    → 3 ≤ length cs
    → All IsPrintable cs
    → Best slices cs
candidates-Best slices cs enough printable =
    let p = sort_candidates-Perm less slices cs in
    sorted-Best slices cs (sort_candidates slices less cs) refl p
      (subst (λ (n : ℕ). 3 ≤ n) (sym (length-Perm p)) enough)
      (All-Perm IsPrintable IsPrintable-prop (Perm.symm p) printable)

module _ {Job W H V : Type 0} (slices : SortFunc MongoCandidateReport)
    (o : Outside MongoReplSetSpec Job W)
    (e : Engine State Trigger
      (Arg MongoCandidateReport H)
      (Control MongoCandidateReport MongoReplSetSpec W))
    (d : Driver V) (h : Host V) (cfg : MongoConfig) (r r' r'' : RangeOrder) where
  -- From three reports or more of nodes that are in no replica set, and whose texts hold no colon
  -- and no comma, the controller deploys and keeps the specification of three of them, where its
  -- publication succeeds; no report has a later operation than the first of the three, nor an
  -- equal one with a greater name. On that
  -- specification, the member that bears the first one's name initiates the set with itself and
  -- adds the other two, where its server was not initialized and is willing, and a member with
  -- another name leaves its server as it is.
  pub replica_set_forms :
      (job_file : Bytes) (w : W) (published : MongoReplSetSpec → W) (cs : List MongoCandidateReport)
      (events : List (Event MongoCandidateReport H)) (m m1 m2 : V)
      → 3 ≤ length cs
      → All IsPrintable cs
      → ((c : MongoCandidateReport) → Mem c cs → c.repl_set_id ≡ [])
      → ((spec : MongoReplSetSpec) (names : List Bytes)
          → get_members spec ≡ ok names
          → publish_repl_spec (mongo_kind slices) o job_file spec w ≡ (ok tt, published spec))
      → IsFresh d m m1
      → ((a b c : MongoCandidateReport)
          → take 3 (sort_candidates slices less cs) ≡ a ∷ b ∷ c ∷ []
          → IsWilling d cfg a b (c ∷ []) m1 m2)
      → (rs : Control MongoCandidateReport MongoReplSetSpec W) × (spec : MongoReplSetSpec)
        × (a : MongoCandidateReport) × (b : MongoCandidateReport) × (c : MongoCandidateReport)
        × (controller_task
              (mongo_kind slices)
              o
              e
              job_file
              w
              (report cs ∷ expire ∷ deliver 0 ∷ events)
            ≡ running monitoring rs)
        × (rs.last_spec ≡ some spec)
        × (rs.last_members ≡ a ∷ b ∷ c ∷ [])
        × ((x : MongoCandidateReport) → Mem x cs → IsNoLater x a)
        × Bootstraps d h cfg r r' r'' a b (c ∷ []) spec m m1 m2
  unfolding mongo_kind
  replica_set_forms job_file w published cs events m m1 m2 enough printable unset succeeds fresh
        willing =
      let (spec, _, made, _, _, _, _, _, names) = elected_primary slices cs enough printable in
      let (rs, ran, _, kept, members) =
        first_deployment (mongo_kind slices) o e job_file w (published spec) cs spec events enough
          made (succeeds spec _ names) in
      let t = candidates-Best slices cs enough printable in
      (
        rs,
        spec,
        t.a,
        t.b,
        t.c,
        ran,
        kept,
        members ∙ t.taken,
        λ x at. less-IsNoLater x t.a (t.top x at),
        bootstrap d h cfg r r' r'' t.a t.b (t.c ∷ []) spec m m1 m2 t.printed
            (ap generate_repl_config (sym t.taken) ∙ made) (unset t.a t.a_mem) fresh
            (willing t.a t.b t.c t.taken),
      )
