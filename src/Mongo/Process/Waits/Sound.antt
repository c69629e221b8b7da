-- ===== src/Mongo/Process/Waits/Sound.antt =====
-- The runs of a process's goroutines: what holds in every state.
use mathlib.Core.Path.{subst}
use mongoctl.Prelude.{ℕ, List, [], ◌≡◌, ◌≢◌, refl, Option, Bool, true, false, if◌then◌else◌, length}
use mongoctl.Mongo.Process.Waits.{
  Waiter, waiting, holding, over, Timer, unset, fired, stopped, Caller, before, receiving, received,
  returned, refused, Sys, launched, finish, Own, waits, on_exit_waits, on_exit_calls, exit_ch_waits,
  receives, finishes, fires, dies, Step, own, exits, requests, refuses,
}
use mongoctl.Mongo.Process.Waits.Runs.{Run, start, later}

module _ {X : Type 0} where
  -- A result is held after the exit alone.
  abbrev pub Held : Bool → Waiter X → Type 0
  Held alive waiting = Unit
  Held alive (holding x) = alive ≡ false
  Held alive over = Unit

  abbrev pub Noticed : Bool → Bool → List (Option X) → Waiter X → Type 0
  Noticed has_on_exit alive ns waiting = (has_on_exit ≡ true) × (ns ≡ [])
  Noticed has_on_exit alive ns (holding x) = (has_on_exit ≡ true) × (ns ≡ []) × (alive ≡ false)
  Noticed has_on_exit alive ns over = length ns ≡ (if has_on_exit then 1 else 0)

  abbrev pub Called : Bool → Bool → Waiter X → Timer → Caller X → Type 0
  Called alive killed w t before = w ≢ over
  Called alive killed w t receiving =
      (w ≢ over) × (t ≢ unset) × (t ≢ stopped) × (t ≡ fired → killed ≡ true)
  Called alive killed w t (received x) = alive ≡ false
  Called alive killed w t (returned x) = alive ≡ false
  Called alive killed w t refused = Unit

  pub record IsSound (has_on_exit : Bool) (s : Sys X) : Type 0 where
    pub held : Held s.alive s.exit_ch
    pub noticed : Noticed has_on_exit s.alive s.notices s.on_exit
    pub called : Called s.alive s.killed s.exit_ch s.timer s.caller

  launched-IsSound : (b : Bool) → IsSound b (launched b)
  unfolding launched
  launched-IsSound true = record { held = tt; noticed = (refl, refl); called = cc }
  launched-IsSound false = record { held = tt; noticed = refl; called = cc }

  Called-holding :
      (alive killed : Bool) (x : Option X) (w : Waiter X) (t : Timer) (c : Caller X)
      → Called alive killed w t c
      → Called alive killed (holding x) t c
  Called-holding alive killed x w t before h = cc
  Called-holding alive killed x w t receiving (_, set, on, dead) = (cc, set, on, dead)
  Called-holding alive killed x w t (received y) h = h
  Called-holding alive killed x w t (returned y) h = h
  Called-holding alive killed x w t refused h = tt

  Called-fired :
      (alive killed : Bool) (w : Waiter X) (t : Timer) (c : Caller X)
      → Called alive killed w t c
      → Called alive true w fired c
  Called-fired alive killed w t before h = h
  Called-fired alive killed w t receiving (h, _, _, _) = (h, cc, cc, λ _. refl)
  Called-fired alive killed w t (received y) h = h
  Called-fired alive killed w t (returned y) h = h
  Called-fired alive killed w t refused h = tt

  Called-dead :
      (alive killed : Bool) (w : Waiter X) (t : Timer) (c : Caller X)
      → Called alive killed w t c
      → Called false killed w t c
  Called-dead alive killed w t before h = h
  Called-dead alive killed w t receiving h = h
  Called-dead alive killed w t (received y) h = refl
  Called-dead alive killed w t (returned y) h = refl
  Called-dead alive killed w t refused h = tt

  Held-dead : (w : Waiter X) → Held false w
  Held-dead waiting = tt
  Held-dead (holding x) = refl
  Held-dead over = tt

  Noticed-dead :
      (b alive : Bool) (ns : List (Option X)) (w : Waiter X)
      → Noticed b alive ns w
      → Noticed b false ns w
  Noticed-dead b alive ns waiting h = h
  Noticed-dead b alive ns (holding x) (on, none_yet, _) = (on, none_yet, refl)
  Noticed-dead b alive ns over h = h

  dead-IsSound : {b : Bool} {s : Sys X} → IsSound b s → IsSound b (record s { alive = false })
  dead-IsSound {b} {s} h = record {
    held = Held-dead s.exit_ch;
    noticed = Noticed-dead b s.alive s.notices s.on_exit h.noticed;
    called = Called-dead s.alive s.killed s.exit_ch s.timer s.caller h.called;
  }

  Own-IsSound : {b : Bool} {s t : Sys X} → Own s t → IsSound b s → IsSound b t
  unfolding finish
  Own-IsSound {b} {s} (waits (on_exit_waits x e a)) h =
      let (on, none_yet) = subst (Noticed b s.alive s.notices) e h.noticed in
      record { held = h.held; noticed = (on, none_yet, a); called = h.called }
  Own-IsSound {b} {s} (waits (on_exit_calls x e)) h =
      let (on, none_yet, _) = subst (Noticed b s.alive s.notices) e h.noticed in
      record { held = h.held; noticed = rw (on, none_yet) refl; called = h.called }
  Own-IsSound {b} {s} (waits (exit_ch_waits x e a)) h = record {
    held = a;
    noticed = h.noticed;
    called = Called-holding s.alive s.killed x s.exit_ch s.timer s.caller h.called;
  }
  Own-IsSound {b} {s} (receives x e c) h = record {
    held = tt;
    noticed = h.noticed;
    called = subst (Held s.alive) e h.held;
  }
  Own-IsSound {b} {s} (finishes x c) h =
      let exited = subst (Called s.alive s.killed s.exit_ch s.timer) c h.called in
      record { held = h.held; noticed = h.noticed; called = exited }
  Own-IsSound {b} {s} (fires e) h = record {
    held = h.held;
    noticed = h.noticed;
    called = Called-fired s.alive s.killed s.exit_ch s.timer s.caller h.called;
  }
  Own-IsSound (dies a k) h = dead-IsSound h

  Step-IsSound : {b : Bool} {s t : Sys X} → Step s t → IsSound b s → IsSound b t
  Step-IsSound (own st) h = Own-IsSound st h
  Step-IsSound (exits a) h = dead-IsSound h
  Step-IsSound {b} {s} (requests c) h =
      let ready = subst (Called s.alive s.killed s.exit_ch s.timer) c h.called in
      record { held = h.held; noticed = h.noticed; called = (ready, cc, cc, λ e. absurd (cc e)) }
  Step-IsSound (refuses c) h = record { held = h.held; noticed = h.noticed; called = tt }

  pub Run-IsSound : {b : Bool} {n : ℕ} {s : Sys X} → Run b n s → IsSound b s
  Run-IsSound {b} start = launched-IsSound b
  Run-IsSound (later r st) = Step-IsSound st (Run-IsSound r)
