-- ===== src/Mongo/Process/Waits/Runs.antt =====
-- The runs of a process's goroutines: how long they are.
use mongoctl.Prelude.{ℕ, suc, ◌+◌, ◌≤◌, arith, Bool, if◌then◌else◌}
use mongoctl.Mongo.Process.Waits.{
  Waiter, waiting, holding, over, Timer, unset, armed, fired, stopped, Caller, before, receiving,
  received, returned, refused, Sys, launched, finish, Own, waits, on_exit_waits, on_exit_calls,
  exit_ch_waits, receives, finishes, fires, dies, Step, own, exits, requests, refuses,
}

-- The states after a number of steps from a start.
pub data Run {X : Type 0} (has_on_exit : Bool) : ℕ → Sys X → Type 0 where
  start : Run has_on_exit 0 (launched has_on_exit)
  later : {n : ℕ} {s t : Sys X} → Run has_on_exit n s → Step s t → Run has_on_exit (suc n) t

timer_left : Timer → ℕ
timer_left unset = 0
timer_left armed = 1
timer_left fired = 0
timer_left stopped = 0

module _ {X : Type 0} where
  -- The steps that are left, at most.
  waits_left : Waiter X → ℕ
  waits_left waiting = 2
  waits_left (holding x) = 1
  waits_left over = 0

  caller_left : Caller X → ℕ
  caller_left before = 4
  caller_left receiving = 2
  caller_left (received x) = 1
  caller_left (returned x) = 0
  caller_left refused = 0

  left : Sys X → ℕ
  left s =
      (if s.alive then 1 else 0)
      + waits_left s.on_exit
      + waits_left s.exit_ch
      + timer_left s.timer
      + caller_left s.caller

  Own-left : {s t : Sys X} → Own s t → suc (left t) ≤ left s
  unfolding left waits_left timer_left caller_left finish
  Own-left (waits (on_exit_waits x e a)) = ground arith
  Own-left (waits (on_exit_calls x e)) = ground arith
  Own-left (waits (exit_ch_waits x e a)) = ground arith
  Own-left (receives x e c) = ground arith
  Own-left (finishes x c) = ground arith
  Own-left (fires e) = ground arith
  Own-left (dies a k) = ground arith

  Step-left : {s t : Sys X} → Step s t → suc (left t) ≤ left s
  unfolding left waits_left timer_left caller_left
  Step-left (own st) = Own-left st
  Step-left (exits a) = ground arith
  Step-left (requests c) = ground arith
  Step-left (refuses c) = ground arith

  Run-left : {b : Bool} {n : ℕ} {s : Sys X} → Run b n s → n + left s ≤ 9
  unfolding left waits_left timer_left caller_left launched
  Run-left {b} start = grind arith
  Run-left (later r st) =
      let rest = Run-left r in let less_left = Step-left st in omega (arith, rest, less_left)

  pub Run-short : {b : Bool} {n : ℕ} {s : Sys X} → Run b n s → n ≤ 9
  Run-short r = let rest = Run-left r in omega (arith, rest)
