-- ===== src/Mongo/Process/Waits.antt =====
-- internal/util/mongo.go: the goroutines beside a process that `Start` has started, and the timer
-- and the wait of `ShutdownWithTimeout`, as steps in any order. Here one `Start` is followed by at
-- most one call, as in `getOfflineStatus`.
pub mod Runs
pub mod Sound
pub mod Returns
use mongoctl.Prelude.{List, [], ◌∷◌, ◌++◌, ◌≡◌, Option, none, Bool, true, false, if◌then◌else◌}

-- A goroutine that waits for the process: in `Wait`, with what `Wait` returned (nothing where there
-- was an error, which is dropped), or ended.
pub data Waiter (X : Type 0) : Type 0 where
  waiting : Waiter X
  holding : Option X → Waiter X
  over : Waiter X

pub data Timer : Type 0 where
  unset armed fired stopped : Timer

-- The goroutine that calls `ShutdownWithTimeout`: before its request took effect; at the channel;
-- with a state from it; returned; or returned with nil, where the command gave an error.
pub data Caller (X : Type 0) : Type 0 where
  before : Caller X
  receiving : Caller X
  received : Option X → Caller X
  returned : Option X → Caller X
  refused : Caller X

pub record Sys (X : Type 0) : Type 0 where
  pub alive : Bool
  -- The goroutine of `OnExit`, what it has been called with, and the goroutine of `exitCh`.
  pub on_exit : Waiter X
  pub notices : List (Option X)
  pub exit_ch : Waiter X
  pub timer : Timer
  pub killed : Bool
  pub caller : Caller X

-- What a successful `Start` leaves. Is there an `OnExit`?
unfoldable pub launched : {X : Type 0} → Bool → Sys X
launched has_on_exit = record {
  alive = true;
  on_exit = if has_on_exit then waiting else over;
  notices = [];
  exit_ch = waiting;
  timer = unset;
  killed = false;
  caller = before;
}

module _ {X : Type 0} where
  -- `if !killed { timer.Stop() }`.
  unfoldable pub finish : Option X → Sys X → Sys X
  finish x s = record s { timer = if s.killed then s.timer else stopped; caller = returned x }

  -- The steps of the goroutines that `Start` leaves.
  pub data Wait (s : Sys X) : Sys X → Type 0 where
    on_exit_waits :
        (x : Option X)
        → s.on_exit ≡ waiting
        → s.alive ≡ false
        → Wait s (record s { on_exit = holding x })
    on_exit_calls :
        (x : Option X)
        → s.on_exit ≡ holding x
        → Wait s (record s { on_exit = over; notices = s.notices ++ x ∷ [] })
    exit_ch_waits :
        (x : Option X)
        → s.exit_ch ≡ waiting
        → s.alive ≡ false
        → Wait s (record s { exit_ch = holding x })

  -- The steps of all goroutines of the program, those of the call and of its timer among them, and
  -- the end of a process that was killed.
  pub data Own (s : Sys X) : Sys X → Type 0 where
    waits : {t : Sys X} → Wait s t → Own s t
    receives :
        (x : Option X)
        → s.exit_ch ≡ holding x
        → s.caller ≡ receiving
        → Own s (record s { exit_ch = over; caller = received x })
    finishes : (x : Option X) → s.caller ≡ received x → Own s (finish x s)
    -- The callback then sends on `ch`, where nobody receives.
    fires : s.timer ≡ armed → Own s (record s { timer = fired; killed = true })
    dies : s.alive ≡ true → s.killed ≡ true → Own s (record s { alive = false })

  pub data Step (s : Sys X) : Sys X → Type 0 where
    own : {t : Sys X} → Own s t → Step s t
    -- The process may exit at any time, after a request or by itself.
    exits : s.alive ≡ true → Step s (record s { alive = false })
    -- The caller's request was made, or it was not and that is only logged.
    requests : s.caller ≡ before → Step s (record s { timer = armed; caller = receiving })
    refuses : s.caller ≡ before → Step s (record s { caller = refused })
