-- ===== src/Examples/Waits.antt =====
-- A process that does not exit at the request and is killed.
use mongoctl.Prelude.{ℕ, ◌≤◌, ◌⊎◌, [], refl, true, false}
use mongoctl.Mongo.Process.Waits.{
  Sys, waiting, fired, receiving, launched, Own, fires, dies, own, requests,
}
use mongoctl.Mongo.Process.Waits.Runs.{Run, start, later}
use mongoctl.Mongo.Process.Waits.Returns.{IsDone, shutdown_returns}

-- The request was made, nothing came of it in time, and the process was killed.
abbrev ended_by_timer : Sys ℕ
ended_by_timer = record {
  alive = false;
  on_exit = waiting;
  notices = [];
  exit_ch = waiting;
  timer = fired;
  killed = true;
  caller = receiving;
}

killed-Run : Run true 3 ended_by_timer
unfolding launched
killed-Run = later (later (later start (requests refl)) (own (fires refl))) (own (dies refl refl))

shutdown_returns_example :
    (3 ≤ 9) × (((t : Sys ℕ) × Own ended_by_timer t) ⊎ IsDone true ended_by_timer)
shutdown_returns_example = shutdown_returns true 3 ended_by_timer killed-Run tt
