-- ===== src/Control/Elect.antt =====
-- The controller at work on a MongoDB replica set: which node becomes the primary.
use mathlib.Core.List.{Mem, mem-cons_self}
use mathlib.Core.List.Perm
use mongoctl.Prelude.{
  ℕ, ◌≤◌, List, [], ◌∷◌, map, suc, ◌≡◌, refl, ◌∙◌, arith, All-take, length-take, ok, length, take,
  All, false,
}
use mongoctl.Prelude.Perms.{length-Perm, All-Perm}
use mongoctl.Sorting.{SortFunc, sort_candidates}
use mongoctl.Sorting.Candidates.{sort_candidates-Perm, first_is_best}
use mongoctl.Mongo.Report.{MongoCandidateReport, less, less-IsStrictWeak}
use mongoctl.Mongo.Spec.{MongoReplSetSpec, generate_repl_config, get_members}
use mongoctl.Mongo.Spec.Names.{IsPrintable, IsPrintable-prop, get_members-generate_repl_config}
use mongoctl.Control.{Kind}

-- `replicaSetControl[MongoCandidateReport, MongoReplSetSpec, MongoHealthStatus]`.
unfoldable pub mongo_kind :
    SortFunc MongoCandidateReport → Kind MongoCandidateReport MongoReplSetSpec
mongo_kind slices = record {
  less = less;
  generate_repl_config = generate_repl_config;
  get_members = get_members;
  slices = slices;
}

-- The head of the list that a specification is generated from is its primary.
primary-generate :
    (p : MongoCandidateReport) (rest : List MongoCandidateReport) (n : ℕ)
    → (spec : MongoReplSetSpec) × (generate_repl_config (take (suc n) (p ∷ rest)) ≡ ok spec)
      × (spec.primary ≡ p.node_name)
      × (spec.repl_set_id ≡ p.repl_set_id)
unfolding generate_repl_config
primary-generate p rest n = (_, refl, refl, refl)

module _ (slices : SortFunc MongoCandidateReport) where
  elect :
      (cs sorted : List MongoCandidateReport)
      → sort_candidates slices less cs ≡ sorted
      → 3 ≤ length sorted
      → (spec : MongoReplSetSpec) × (p : MongoCandidateReport) × (generate_repl_config
            (take 3 sorted)
          ≡ ok spec)
        × (spec.primary ≡ p.node_name)
        × (spec.repl_set_id ≡ p.repl_set_id)
        × Mem p sorted
        × ((m : MongoCandidateReport) → Mem m cs → less m p ≡ false)
  elect cs [] e h = absurd (omega arith)
  elect cs (p ∷ rest) e h =
      let (spec, made, named, same) = primary-generate p rest 2 in
      (spec, p, made, named, same, mem-cons_self, first_is_best less less-IsStrictWeak slices cs e)

  -- From three reports or more a specification of three members is generated. Its primary and its
  -- replica-set identifier are those of a reported node whose last operation no other report
  -- exceeds; among equal operations, no other has a greater name. If the reports' texts hold no
  -- colon and no comma, the members read back are the names of the three best, in order.
  pub elected_primary :
      (cs : List MongoCandidateReport)
      → 3 ≤ length cs
      → All IsPrintable cs
      → (spec : MongoReplSetSpec) × (p : MongoCandidateReport) × (generate_repl_config
            (take 3 (sort_candidates slices less cs))
          ≡ ok spec)
        × (spec.primary ≡ p.node_name)
        × (spec.repl_set_id ≡ p.repl_set_id)
        × Mem p cs
        × ((m : MongoCandidateReport) → Mem m cs → less m p ≡ false)
        × (spec.count ≡ 3)
        × (get_members spec ≡ ok (map (λ c. c.node_name) (take 3 (sort_candidates slices less cs))))
  elected_primary cs h printable =
      let sorted = sort_candidates slices less cs in
      let p = sort_candidates-Perm less slices cs in
      let same : length sorted ≡ length cs = length-Perm p in
      let best =
        All-take IsPrintable 3 sorted
          (All-Perm IsPrintable IsPrintable-prop (Perm.symm p) printable) in
      let (spec, first, made, named, known, mem, top) = elect cs sorted refl (omega arith) in
      let (names, count) = get_members-generate_repl_config (take 3 sorted) best made in
      (
        spec,
        first,
        made,
        named,
        known,
        (Perm.mem_iff p).0 mem,
        top,
        count ∙ omega (arith, length-take 3 sorted),
        names,
      )
