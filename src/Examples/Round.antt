-- ===== src/Examples/Round.antt =====
-- Rounds of a member, and what it collects before it starts.
use mongoctl.Prelude.{
  ℕ, ◌+◌, [], ◌∷◌, ◌≡◌, ◌≢◌, ◌⊎◌, inl, inr, refl, arith, codes, ok, err, panic, Error,
  command_error, failure, Outcome, pos, true, false, Bytes, List, some,
}
use mongoctl.Mongo.Types.{Member}
use mongoctl.Mongo.Report.{MongoCandidateReport}
use mongoctl.Mongo.Members.{parse_members}
use mongoctl.Mongo.Members.Laws.{entries}
use mongoctl.Mongo.Client.{repl_set_get_config, repl_set_reconfig, repl_set_get_status}
use mongoctl.Mongo.Status.{get_member_status}
use mongoctl.Mongo.Member.{member_round}
use mongoctl.Mongo.Member.Rounds.{recovery}
use mongoctl.Mongo.Offline.{Mongod, collect}
use mongoctl.Mongo.Offline.Collected.{collected_report}
use mongoctl.Examples.Data.{
  two_spec, in_order, driver, host, config, server_status, member_at, member_at-IsAddressed, stored,
}

abbrev refused : Error
refused = command_error (codes "InvalidReplicaSetConfig")

invalid_status : get_member_status (driver (err refused)) config 0 ≡ (err refused, 0)
unfolding get_member_status repl_set_get_status mongoctl.Mongo.Client.or_nil mongoctl.Prelude.str_eq
invalid_status = refl

held : repl_set_get_config (driver (err refused)) 0 ≡ (ok (some (record { config = stored })), 0)
unfolding repl_set_get_config mongoctl.Mongo.Client.or_nil
held = refl

forced :
    (m : List Member)
    → repl_set_reconfig (driver (err refused)) (record stored { members = m }) 0 ≡ (ok tt, 1)
unfolding repl_set_reconfig
forced m = refl

abbrev done : Outcome (Unit {0})
done = ok tt

recovery_example :
    ((done ≡ ok tt)
      × (member_round (driver (err refused)) host config in_order in_order in_order two_spec 0
          ≡ (panic, 1)))
    ⊎ ((e : Error) × (done ≡ err e)
        × (member_round (driver (err refused)) host config in_order in_order in_order two_spec 0
            ≡ (ok tt, 1)))
recovery_example =
    recovery (driver (err refused)) host config in_order in_order in_order two_spec 0 0
      (record { config = stored }) 0 1 (ok tt) invalid_status refl held (forced _) (cc)

-- A mongod that counts its starts; the client connects or does not.
abbrev mongod : Outcome (Unit {0}) → Mongod ℕ
mongod dialled = record {
  launch = λ args w. (ok tt, w + 10);
  dial = λ addr port w. (dialled, w);
  ping = λ w. (ok tt, w);
  stop = λ n w. w;
}

collected_report_example :
    (s : MongoCandidateReport) × (collect
        (driver (ok server_status))
        (mongod (ok tt))
        (codes "7")
        (codes "n7")
        host
        config
        0
      ≡ (ok s, 10))
    × (s.node_id ≡ codes "7")
    × (s.node_name ≡ codes "n7")
    × (s.mongo_addr ≡ codes "10.0.0.1")
    × (s.mongo_port ≡ codes "27017")
    × (s.repl_set_id ≡ stored.settings.replica_set_id)
    × (s.repl_set_name ≡ codes "rs0")
    × (s.term ≡ pos 4)
    × (s.op_log_first_sec ≡ 3)
    × (s.op_log_first_inc ≡ 1)
    × (s.op_log_last_sec ≡ 9)
    × (s.op_log_last_inc ≡ 2)
    × (parse_members s.members ≡ entries (member_at 1 ∷ member_at 2 ∷ []))
collected_report_example =
    collected_report (driver (ok server_status)) (mongod (ok tt)) (codes "7") (codes "n7") host
      config 0 10 10 10 10 10 10 10 stored (member_at 1) (member_at 2 ∷ [])
      (record { ts = record { t = 9; i = 2 } }) (record { ts = record { t = 3; i = 1 } }) refl refl
      refl refl refl (cc) refl refl refl
      (member_at-IsAddressed 1 (omega arith), (member_at-IsAddressed 2 (omega arith), tt))
      ((refl, tt), (tt, tt))
