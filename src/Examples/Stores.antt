-- ===== src/Examples/Stores.antt =====
-- Stores on a Consul agent that counts its calls.
use mongoctl.Prelude.{
  ℕ, Bool, zero, suc, ◌+◌, [], ◌∷◌, ◌++◌, map, ◌≡◌, refl, sym, ap, Bytes, codes, Outcome, ok, err,
  failure, some, none, Option, false, true,
}
use mongoctl.Store.{KvPair, AgentCheck, Consul, ConsulStore}
use mongoctl.Store.Report.{report_key}
use mongoctl.Store.Tasks.{pre_start_task}
use mongoctl.Store.Reported.{now, first_report}
use mongoctl.Store.Health.{update_health_status}
use mongoctl.Store.Renewal.{update, tick, run, IsUnrenewed, run-IsUnrenewed, refused_renewal}
use mongoctl.Store.Config.{update_repl_set_config, poll_config, published_is_watched}
use mongoctl.Store.Watch.{
  items, round, watcher, next_idx, watch, listed, configured, Listing, watched_listing,
}

-- An agent with no check; it gives a first session or, with a failure, only a second one.
abbrev consul : (ℕ → Outcome Bytes) → Consul ℕ
consul session = record {
  kv_get = λ key w. (ok none, w);
  kv_put = λ p w. (ok tt, w + 1);
  kv_acquire = λ p w. (ok true, w + 1);
  agent_checks = λ w. (ok [], w);
  session_create = λ e w. (session w, w + 1);
  session_renew = λ sid w. (ok tt, w);
  join_path = λ a b. a ++ b'/' ∷ b;
}

abbrev store : ConsulStore ℕ
store = record {
  candidate_report_path = codes "reports";
  health_status_path = codes "health";
  repl_set_config_path = codes "config";
  session_id = [];
  renew_started = false;
  renewing = false;
  world = 0;
}

abbrev second_only : ℕ → Outcome Bytes
second_only zero = err (failure [])
second_only (suc n) = ok (codes "s")

run-IsUnrenewed_example : IsUnrenewed (
    run
      (consul second_only)
      (update (codes "n1") (ok (codes "h")) ∷ tick ∷ [])
      (record store { renew_started = true }))
run-IsUnrenewed_example =
    run-IsUnrenewed (consul second_only) (update (codes "n1") (ok (codes "h")) ∷ tick ∷ [])
      (record store { renew_started = true }) (record { begun = refl; ended = refl })

refused_renewal_example :
    (update_health_status (consul second_only) (codes "n1") (ok (codes "h")) store
      ≡ (ok tt, record store { world = 3; session_id = codes "s"; renew_started = true }))
    × IsUnrenewed (
        run
          (consul second_only)
          (tick ∷ [])
          (update_health_status (consul second_only) (codes "n1") (ok (codes "h")) store).1)
refused_renewal_example =
    refused_renewal (consul second_only) (codes "n1") (codes "h") (codes "s") store 1 2 3
      (failure []) (tick ∷ []) refl refl refl refl refl refl

-- A configuration is a byte, marshalled as a text of one.
abbrev marshal : ℕ → Bytes
marshal n = n ∷ []

abbrev unmarshal : Bytes → Option ℕ
unmarshal (n ∷ []) = some n
unmarshal _ = none

abbrev pair : Bytes → KvPair
pair value = record { key = codes "config"; value = value; session = [] }

watched_listing_example :
    let after =
      watch
        (listed unmarshal)
        (map err (failure [] ∷ [])
          ++ (ok (record { found = pair [] ∷ pair (marshal 7) ∷ []; last_index = some 4 }) ∷ []))
        watcher in
    (after.sent ≡ (7 ∷ []) ∷ []) × (after.last_idx ≡ next_idx (some 4) 0)
watched_listing_example =
    watched_listing unmarshal marshal (failure [] ∷ []) (some 4) (λ a. refl)
      (Listing.unreadable (pair []) refl (Listing.stored (pair (marshal 7)) 7 refl Listing.end))

-- An agent with one key, which gives back what was put.
abbrev one_key : Consul (Option KvPair)
one_key = record {
  kv_get = λ key v. (ok v, v);
  kv_put = λ p v. (ok tt, some (record p { session = [] }));
  kv_acquire = λ p v. (ok true, v);
  agent_checks = λ v. (ok [], v);
  session_create = λ e v. (ok (codes "s"), v);
  session_renew = λ sid v. (ok tt, v);
  join_path = λ a b. a ++ b;
}

abbrev empty_store : ConsulStore (Option KvPair)
empty_store = record {
  candidate_report_path = codes "reports";
  health_status_path = codes "health";
  repl_set_config_path = codes "config";
  session_id = [];
  renew_started = false;
  renewing = false;
  world = none;
}

published_is_watched_example :
    let (r, c) = update_repl_set_config one_key (ok (marshal 7)) empty_store in
    (r ≡ ok tt)
    × ((round (configured unmarshal) (poll_config one_key (some 4) c) watcher).sent ≡ 7 ∷ [])
published_is_watched_example =
    published_is_watched one_key marshal unmarshal 7 (some 4) empty_store (some (pair (marshal 7)))
      watcher (λ a. cc) (λ a. refl)
      (λ p v v' h. (
        record p { session = [] },
        ap (λ (y : Outcome (Unit {0}) × Option KvPair). ok y.1) (sym h),
        refl,
      ))
      refl

abbrev passing : AgentCheck
passing = record {
  name = codes "Nomad Client HTTP Check";
  status = codes "passing";
  check_id = codes "n";
}

-- An agent with a passing check and room for one key.
abbrev agent : Consul (Option KvPair)
agent = record {
  kv_get = λ key w. (ok w, w);
  kv_put = λ p w. (ok tt, some p);
  kv_acquire = λ p w. (ok true, some p);
  agent_checks = λ w. (ok (passing ∷ []), w);
  session_create = λ e w. (ok (codes "s"), w);
  session_renew = λ sid w. (ok tt, w);
  join_path = λ a b. a ++ b'/' ∷ b;
}

abbrev unreported : ConsulStore (Option KvPair)
unreported = record {
  candidate_report_path = codes "reports";
  health_status_path = codes "health";
  repl_set_config_path = codes "config";
  session_id = [];
  renew_started = false;
  renewing = false;
  world = none;
}

abbrev report : KvPair
report = record {
  key = report_key agent unreported (codes "n1");
  session = codes "s";
  value = 7 ∷ [];
}

first_report_example :
    (pre_start_task agent (λ w. (ok 7, w)) (λ n. ok (marshal n)) (codes "n1") unreported
      ≡ (ok tt, record unreported { world = some report }))
    × (p : KvPair) × (agent.kv_get (report_key agent unreported (codes "n1")) (some report)
        ≡ (ok (some p), some report))
    × (p.session ≡ codes "s")
    × (items unmarshal (p ∷ []) ≡ 7 ∷ [])
first_report_example =
    first_report agent (λ w. (ok 7, w)) (λ n. ok (marshal n)) unmarshal
      (λ p w w' e.
        ap (λ (x : Option KvPair). (ok x, w'))
          (sym (ap (λ (r : Outcome Bool × Option KvPair). r.1) e)))
      (codes "n1") unreported 7 (7 ∷ []) (codes "n") (codes "s") none none none none (some report)
      refl refl refl refl (now [] [] passing refl tt (refl, refl) refl (cc)) refl refl
