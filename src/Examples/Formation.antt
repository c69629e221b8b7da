-- ===== src/Examples/Formation.antt =====
-- Three reports, and a server that keeps the members it is given.
use mathlib.Core.List.{Mem}
use mongoctl.Prelude.{
  Bool, true, false, not, List, [], ◌∷◌, ◌++◌, map, take, ◌≡◌, refl, sym, ap, arith, some, codes,
  ok, err, command_error, str_eq, str_eq→≡,
}
use mongoctl.Sorting.{sort_candidates}
use mongoctl.Sorting.Insertion.{insertion}
use mongoctl.Sorting.Candidates.{Mem-All}
use mongoctl.Control.Machine.{monitoring}
use mongoctl.Control.Loop.{running, report, expire, deliver, controller_task}
use mongoctl.Control.Journey.Formation.{replica_set_forms}
use mongoctl.Mongo.Types.{Member}
use mongoctl.Mongo.Report.{MongoCandidateReport, less, IsNoLater}
use mongoctl.Mongo.Spec.{MongoReplSetSpec}
use mongoctl.Mongo.Members.Printed.{member_of}
use mongoctl.Mongo.Client.{Driver}
use mongoctl.Mongo.Member.{Host}
use mongoctl.Mongo.Member.Bootstrap.{IsFresh, IsWilling, Bootstraps}
use mongoctl.Examples.Election.{three, MongoControl, kind, outside, machine, always_published}
use mongoctl.Examples.Data.{
  first-IsPrintable, second-IsPrintable, third-IsPrintable, in_order, config, stored, oplog_of,
}

abbrev set_driver : Driver (List Member)
set_driver = record {
  run_get_status = λ w. (err (command_error (codes "NotYetInitialized")), w);
  run_get_config = λ w. elim w [
    | [] ↦ (err (command_error (codes "NotYetInitialized")), [])
    | m ∷ ms ↦ (ok (record { config = record stored { members = m ∷ ms } }), m ∷ ms)
  ];
  find_replset = λ name w. (ok (record stored { members = w }), w);
  run_reconfig = λ cfg w. (ok tt, cfg.members);
  run_initiate = λ name ms w. (ok tt, ms);
  find_oplog = λ o w. (ok (oplog_of o), w);
  users_info = λ user w. (ok (some 1), w);
  create_user = λ user password w. (ok tt, w);
  hex = λ x. x;
}

abbrev set_host : Host (List Member)
set_host = record {
  stat = λ path w. (ok true, w);
  read_dir = λ path w. (ok [], w);
  remove_all = λ path w. (ok tt, w);
  join_path = λ a b. a ++ b'/' ∷ b;
  shutdown = λ n w. w;
  start = λ w. (ok tt, w);
  connect = λ w. (ok tt, w);
}

-- The members of the set, once it has formed.
abbrev formed : List Member
formed = map member_of (take 3 (sort_candidates insertion less three))

unborn : IsFresh set_driver [] []
unborn = record { between = []; no_status = refl; no_config = refl }

willing :
    (a b c : MongoCandidateReport)
    → take 3 (sort_candidates insertion less three) ≡ a ∷ b ∷ c ∷ []
    → IsWilling set_driver config a b (c ∷ []) [] formed
willing a b c e = record {
  initiated = member_of a ∷ [];
  read = member_of a ∷ [];
  active = record { config = record stored { members = member_of a ∷ [] } };
  initiates = refl;
  reads = refl;
  adds = ap (λ l. (ok tt, map member_of l)) (sym e);
}

unset : (c : MongoCandidateReport) → Mem c three → c.repl_set_id ≡ []
unfolding str_eq
unset c m = str_eq→≡ c.repl_set_id [] (
    negated (str_eq c.repl_set_id [])
      (Mem-All less (λ x. not (str_eq x.repl_set_id [])) three (refl, (refl, (refl, tt))) m))
  where
    negated : (b : Bool) → not b ≡ false → b ≡ true
    negated true e = refl
    negated false e = cc

replica_set_forms_example :
    (rs : MongoControl) × (s : MongoReplSetSpec) × (a : MongoCandidateReport)
    × (b : MongoCandidateReport) × (c : MongoCandidateReport) × (controller_task kind
          (outside (ok tt))
          machine
          (codes "job")
          0
          (report three ∷ expire ∷ deliver 0 ∷ [])
        ≡ running monitoring rs)
    × (rs.last_spec ≡ some s)
    × (rs.last_members ≡ a ∷ b ∷ c ∷ [])
    × ((x : MongoCandidateReport) → Mem x three → IsNoLater x a)
    × Bootstraps set_driver set_host config in_order in_order in_order a b (c ∷ []) s [] [] formed
replica_set_forms_example =
    replica_set_forms insertion (outside (ok tt)) machine set_driver set_host config in_order
      in_order in_order (codes "job") 0 (λ s. 11) three [] [] [] formed (omega arith)
      (first-IsPrintable, (second-IsPrintable, (third-IsPrintable, tt))) unset always_published
      unborn willing
