-- ===== src/Control/Handlers.antt =====
-- internal/replset/replica.go: `handleCandidates` and `handleTimer`.
pub mod Agreement
use mongoctl.Prelude.{
  ℕ, List, [], ◌∷◌, Option, none, some, Bool, true, false, Bytes, Outcome, ok, err, panic, length,
  take, ltb, leb, ◌==◌, if◌then◌else◌, ◌≡◌, refl, arith, ◌≢◌,
}
use mongoctl.Sorting.{sort_candidates}
use mongoctl.Control.{
  ReplicaSetStatus, initiation, configuration, startup, monitor, error, Kind, Outside, Timer,
  Control, publish_repl_spec,
}

pub data Handled (C S W : Type 0) : Type 0 where
  next : Control C S W → Handled C S W
  panicked : Handled C S W

abbrev pub new_timer : {C : Type 0} → ℕ → Timer C
new_timer n = record { seconds = n; callback = none; expired = false }

unfoldable pub at_most_three : {C : Type 0} → List C → ℕ
at_most_three cs = if ltb (length cs) 3 then length cs else 3

module _ {C S W : Type 0} where
  abbrev arm : ℕ → Control C S W → Control C S W
  arm n rs = record rs { timer = some (new_timer n); state = configuration }

  by_state : ReplicaSetStatus → ℕ → Control C S W → Control C S W
  by_state initiation n rs =
      if n == 6 then arm 1 rs else if leb 3 n then arm 5 rs else if ltb 0 n then arm 15 rs else rs
  by_state configuration n rs =
      if n == 0 then record rs { timer = some (new_timer 300); state = initiation } else rs
  by_state _ n rs = rs

  unfoldable pub handle_candidates : List C → Control C S W → Control C S W
  unfolding by_state
  handle_candidates candidates rs =
      if length candidates == 0
      then rs
      else by_state rs.state (length candidates) (record rs { candidates = candidates })

  unfoldable pub handled_published :
      Outcome (Unit {0}) × W → List C → S → Control C S W → Handled C S W
  handled_published (ok _, w) members spec rs =
      next (record rs { world = w; last_members = members; last_spec = some spec; state = monitor })
  handled_published (err e, w) members spec rs = next (record rs { world = w })
  handled_published (panic, w) members spec rs = panicked

module _ {C S Job W : Type 0} (k : Kind C S) (o : Outside S Job W) where
  deploy : Outcome S → List C → Control C S W → Handled C S W
  unfolding handled_published
  deploy (ok spec) members rs =
      handled_published (publish_repl_spec k o rs.job_file spec rs.world) members spec rs
  deploy (err e) members rs = panicked
  deploy panic members rs = panicked

  -- `generateReplConfig` gives no error: it returns or panics.
  unfoldable pub timer_by_state : ReplicaSetStatus → Control C S W → Handled C S W
  unfolding deploy at_most_three
  timer_by_state initiation rs = panicked
  timer_by_state configuration rs =
      let sorted = sort_candidates k.slices k.less rs.candidates in
      let members = take (at_most_three sorted) sorted in
      deploy (k.generate_repl_config members) members (record rs { candidates = sorted })
  timer_by_state _ rs = next rs

  unfoldable pub handle_timer : Control C S W → Handled C S W
  unfolding timer_by_state
  handle_timer rs = timer_by_state rs.state rs
