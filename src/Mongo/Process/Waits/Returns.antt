-- ===== src/Mongo/Process/Waits/Returns.antt =====
-- The runs of a process's goroutines: a shutdown returns.
use mongoctl.Prelude.{
  ℕ, ◌≤◌, ◌≡◌, ◌≢◌, refl, arith, Option, none, Bool, true, false, if◌then◌else◌, length, ◌⊎◌, inl,
  inr, Bool-cases,
}
use mongoctl.Mongo.Process.Waits.{
  Waiter, waiting, holding, over, Timer, unset, armed, fired, stopped, Caller, before, receiving,
  received, returned, refused, Sys, Own, waits, on_exit_waits, on_exit_calls, exit_ch_waits,
  receives, finishes, fires, dies,
}
use mongoctl.Mongo.Process.Waits.Runs.{Run, Run-short}
use mongoctl.Mongo.Process.Waits.Sound.{Noticed, Called, IsSound, Run-IsSound}

module _ {X : Type 0} where
  -- Within `Sys`: was a request made, with a wait after it?
  abbrev pub IsWaited : Caller X → Type 0
  IsWaited before = ⊥
  IsWaited receiving = Unit
  IsWaited (received x) = Unit
  IsWaited (returned x) = Unit
  IsWaited refused = ⊥

  -- The call has returned, after the exit, and `OnExit` was called once, where there is one.
  pub record IsDone (has_on_exit : Bool) (s : Sys X) : Type 0 where
    pub state : Option X
    pub done : s.caller ≡ returned state
    pub dead : s.alive ≡ false
    pub once : length s.notices ≡ (if has_on_exit then 1 else 0)

  -- A goroutine can go on.
  abbrev CanGo : Sys X → Type 0
  CanGo s = (t : Sys X) × Own s t

  -- The timer kills a process that is waited for.
  timer_go :
      (s : Sys X) (t : Timer)
      → s.timer ≡ t
      → s.alive ≡ true
      → Called s.alive s.killed s.exit_ch t receiving
      → CanGo s
  timer_go s unset e a (_, set, _, _) = absurd (set refl)
  timer_go s armed e a h = (_, fires e)
  timer_go s fired e a (_, _, _, kills) = (_, dies a (kills refl))
  timer_go s stopped e a (_, _, on, _) = absurd (on refl)

  alive_go :
      (s : Sys X) (c : Caller X)
      → IsWaited c
      → s.alive ≡ true
      → Called s.alive s.killed s.exit_ch s.timer c
      → CanGo s
  alive_go s before i a h = absurd i
  alive_go s receiving i a h = timer_go s s.timer refl a h
  alive_go s (received x) i a h = absurd (ground (arith, a, h))
  alive_go s (returned x) i a h = absurd (ground (arith, a, h))
  alive_go s refused i a h = absurd i

  channel_go :
      (s : Sys X) (w : Waiter X)
      → s.exit_ch ≡ w
      → s.alive ≡ false
      → s.caller ≡ receiving
      → w ≢ over
      → CanGo s
  channel_go s waiting e a c n = (_, waits (exit_ch_waits none e a))
  channel_go s (holding x) e a c n = (_, receives x e c)
  channel_go s over e a c n = absurd (n refl)

  caller_go :
      (b : Bool) (s : Sys X) (c : Caller X)
      → s.caller ≡ c
      → IsWaited c
      → s.alive ≡ false
      → Called s.alive s.killed s.exit_ch s.timer c
      → length s.notices ≡ (if b then 1 else 0)
      → CanGo s ⊎ IsDone b s
  caller_go b s before e i a h n = absurd i
  caller_go b s receiving e i a (open_still, _, _, _) n =
      inl (channel_go s s.exit_ch refl a e open_still)
  caller_go b s (received x) e i a h n = inl (_, finishes x e)
  caller_go b s (returned x) e i a h n = inr (record { state = x; done = e; dead = a; once = n })
  caller_go b s refused e i a h n = absurd i

  dead_go :
      (b : Bool) (s : Sys X) (w : Waiter X)
      → s.on_exit ≡ w
      → IsWaited s.caller
      → s.alive ≡ false
      → Called s.alive s.killed s.exit_ch s.timer s.caller
      → Noticed b s.alive s.notices w
      → CanGo s ⊎ IsDone b s
  dead_go b s waiting e i a h n = inl (_, waits (on_exit_waits none e a))
  dead_go b s (holding x) e i a h n = inl (_, waits (on_exit_calls x e))
  dead_go b s over e i a h n = caller_go b s s.caller refl i a h n

  go_on : {b : Bool} {s : Sys X} → IsSound b s → IsWaited s.caller → CanGo s ⊎ IsDone b s
  go_on {b} {s} h i = elim (Bool-cases s.alive) [
    | inl a ↦ inl (alive_go s s.caller i a h.called)
    | inr a ↦ dead_go b s s.on_exit refl i a h.called h.noticed
  ]

  -- A process is started, and `ShutdownWithTimeout` has made its request, whose command gave no error.
  -- Not more than nine steps have been made, in whatever order they fell, and a goroutine of the
  -- program can go on, or the process that was killed can end, until the call has returned: then
  -- the process has exited, and `OnExit`, where there is one, was called exactly once.
  pub shutdown_returns :
      (b : Bool) (n : ℕ) (s : Sys X)
      → Run b n s
      → IsWaited s.caller
      → (n ≤ 9) × (((t : Sys X) × Own s t) ⊎ IsDone b s)
  shutdown_returns b n s r i = (Run-short r, go_on (Run-IsSound r) i)
