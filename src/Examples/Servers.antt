-- ===== src/Examples/Servers.antt =====
-- The mongod of a member: its shutdown, its ticks, its first round and its wipe.
use mongoctl.Prelude.{
  ◌<◌, ℕ, zero, suc, Bool, not, str_eq, str_eq→≡, ◌+◌, List, [], ◌∷◌, ◌++◌, ◌≡◌, ◌≢◌, ◌⊎◌, ◌↔◌,
  refl, arith, none, some, true, false, Bytes, codes, pos, Outcome, ok, err, panic, Error, failure,
  command_error,
}
use mongoctl.Mongo.Types.{
  MongoStatus, ReplSetStatus, status_primary, status_secondary, status_arbiter,
}
use mongoctl.Mongo.Health.{MongoHealthStatus, is_healthy}
use mongoctl.Mongo.Spec.{MongoReplSetSpec}
use mongoctl.Mongo.Client.{Driver, repl_set_get_status, repl_set_get_config}
use mongoctl.Mongo.Status.{MongoConfig, get_member_status, check_wipe_requirment}
use mongoctl.Mongo.Member.{Host}
use mongoctl.Mongo.Member.Bootstrap.{IsFresh, IsWilling, Bootstraps, bootstrap}
use mongoctl.Mongo.Process.{Proc}
use mongoctl.Mongo.Run.{spec, tick, exit, Task, react, run}
use mongoctl.Mongo.Run.Reports.{tick_reports}
use mongoctl.Mongo.Run.Keeping.{HostKeeps}
use mongoctl.Mongo.Run.Secondary.{IsKept, run_secondary}
use mongoctl.Mongo.Run.Wiped.{wiped_member_ends}
use mongoctl.Examples.Data.{
  first, second, first-IsPrintable, second-IsPrintable, two_spec, made_two, in_order, driver, host,
  config, server_status, status_with, stored,
}

-- A process that exits when it is killed, and whose server refuses the command; its exit was read
-- by the other goroutine.
abbrev process : Proc ℕ Bytes
process = record {
  is_loopback = λ ip. false;
  connect = λ opts w. (none, w);
  run_shutdown = λ opts w. (some (failure (codes "Unauthorized")), w);
  interrupt = λ w. w;
  kill = λ w. 1;
  exit_within = λ d w. (none, w);
  exit_at_last = λ w. (some none, w);
  repair = λ args w. (ok 0, w);
}

abbrev member : Task ℕ
member = record { ended = false; sent = []; world = 0 }

tick_reports_example :
    ((e : Error) × (◌≡◌ {A = Outcome ReplSetStatus} (ok server_status) (err e))
      × (react
            (driver (ok server_status))
            host
            config
            in_order
            in_order
            in_order
            (λ w. w)
            tick
            member
          ≡ record member { world = 0 }))
    ⊎ ((status : ReplSetStatus) × (s : MongoHealthStatus) × (ok server_status ≡ ok status)
        × (react
              (driver (ok server_status))
              host
              config
              in_order
              in_order
              in_order
              (λ w. w)
              tick
              member
            ≡ record member { sent = [] ++ s ∷ []; world = 0 })
        × (s.node_name ≡ config.node_name)
        × ((is_healthy s ≡ true) ↔ (
            (status.my_state ≡ status_primary)
            ⊎ (status.my_state ≡ status_secondary)
            ⊎ (status.my_state ≡ status_arbiter))))
tick_reports_example =
    tick_reports (driver (ok server_status)) host config in_order in_order in_order (λ w. w) member
      refl (ok server_status) 0 refl (cc)

-- A server that was not initialized, until the first write.
abbrev fresh_driver : Driver ℕ
fresh_driver = record (driver (err (command_error (codes "NotYetInitialized")))) {
  run_get_config = λ w. elim w [
    | zero ↦ (err (command_error (codes "NotYetInitialized")), 0)
    | suc n ↦ (ok (record { config = stored }), suc n)
  ];
}

unborn : IsFresh fresh_driver 0 0
unborn = record { between = 0; no_status = refl; no_config = refl }

ready : IsWilling fresh_driver config first second [] 0 2
ready = record {
  initiated = 1;
  read = 1;
  active = record { config = stored };
  initiates = refl;
  reads = refl;
  adds = refl;
}

bootstrap_example :
    Bootstraps fresh_driver host config in_order in_order in_order first second [] two_spec 0 0 2
bootstrap_example =
    bootstrap fresh_driver host config in_order in_order in_order first second [] two_spec 0 0 2
      (first-IsPrintable, (second-IsPrintable, tt)) made_two refl unborn ready

-- The host's shutdown is seen as an exit.
abbrev seen_host : Host ℕ
seen_host = record host { shutdown = λ n w. w + 1 }

seen_host-HostKeeps : HostKeeps seen_host (λ w. 0 < w)
seen_host-HostKeeps = record {
  stat_keeps = λ path w p. p;
  read_keeps = λ path w p. p;
  remove_keeps = λ path w p. omega arith;
  start_keeps = λ w p. p;
  connect_keeps = λ w p. p;
}

abbrev other_spec : MongoReplSetSpec
other_spec = record two_spec { primary = codes "n9"; repl_set_name = codes "rs1" }

abbrev status : MongoStatus
status = status_with (codes "rs0") (codes "1::10.0.0.1:27017,2::10.0.0.1:27017")

status_read : get_member_status (driver (ok server_status)) config 0 ≡ (ok status, 0)
unfolding get_member_status repl_set_get_status repl_set_get_config mongoctl.Mongo.Client.or_nil
    mongoctl.Mongo.Status.with_config mongoctl.Mongo.Status.with_status
    mongoctl.Mongo.Members.host_str mongoctl.Mongo.Status.bare_status
    mongoctl.Text.Decimal.format_int mongoctl.Mongo.Members.host_port
status_read = refl

is_wiped : check_wipe_requirment other_spec status ≡ true
unfolding check_wipe_requirment mongoctl.Prelude.str_eq
is_wiped = refl

wiped_member_ends_example :
    (run
      (driver (ok server_status))
      seen_host
      config
      in_order
      in_order
      in_order
      (λ w. w)
      (spec other_spec ∷ exit ∷ [])
      member).ended
    ≡ true
wiped_member_ends_example =
    wiped_member_ends seen_host (λ w. w) seen_host-HostKeeps (driver (ok server_status)) config
      in_order in_order in_order other_spec member status 0 status_read (cc) is_wiped (omega arith)

-- A host that counts nothing, so that the world counts the writes to the server.
abbrev quiet_host : Host ℕ
quiet_host = record host { remove_all = λ path w. (ok tt, w) }

unwritten : IsKept (driver (ok server_status)) quiet_host (λ w. w ≡ 0)
unwritten = record {
  status_keeps = λ w p. p;
  config_keeps = λ w p. p;
  shutdown_keeps = λ n w p. p;
  host_keeps = record {
    stat_keeps = λ path w p. p;
    read_keeps = λ path w p. p;
    remove_keeps = λ path w p. p;
    start_keeps = λ w p. p;
    connect_keeps = λ w p. p;
  };
}

run_secondary_example :
    (run
      (driver (ok server_status))
      quiet_host
      config
      in_order
      in_order
      in_order
      (λ w. w)
      (spec other_spec ∷ tick ∷ [])
      member).world
    ≡ 0
run_secondary_example =
    run_secondary (driver (ok server_status)) quiet_host config in_order in_order in_order (λ w. w)
      (λ w. w ≡ 0) unwritten (spec other_spec ∷ tick ∷ []) member (cc, (tt, tt)) refl
