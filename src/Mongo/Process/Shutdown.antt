-- ===== src/Mongo/Process/Shutdown.antt =====
-- What a shutdown with a timeout promises, and the repair of a database.
use mongoctl.Prelude.{ℕ, ◌≡◌, Option, none, some, Error}
use mongoctl.Mongo.Offline.{MongodMgm}
use mongoctl.Mongo.Process.{Proc, Ended, unwaited, exited, shutdown_opts}

-- What is known of a process: `Wait` comes back for a process that has exited, with a state or with
-- nil, and a process that was killed exits.
pub record IsMortal {W X : Type 0} (p : Proc W X) (HasExited : W → Type 0) : Type 0 where
  pub in_time :
      {d : ℕ} {w : W} {x : Option X} {w' : W} → p.exit_within d w ≡ (some x, w') → HasExited w'
  pub in_the_end :
      (w : W)
      → (x : Option X) × (w' : W) × (p.exit_at_last (p.kill w) ≡ (some x, w')) × HasExited w'

-- The call ended with what was read from `exitCh`, a state or nil, after the process has exited.
abbrev pub EndsExited : {W X : Type 0} → (W → Type 0) → Ended X × W → Type 0
EndsExited HasExited r = (x : _) × (r.0 ≡ exited x) × HasExited r.1

-- A connection was made, and its command gave an error, of whatever kind: the call ended there, with
-- nil.
abbrev pub IsUnwaited : {W X : Type 0} → Proc W X → MongodMgm → W → Ended X × W → Type 0
IsUnwaited {W} p m w r =
    (w1 : W) × (e : Error) × (p.connect (shutdown_opts m) w ≡ (none, w1))
    × (p.run_shutdown (shutdown_opts m) w1 ≡ (some e, r.1))
    × (r.0 ≡ unwaited)
