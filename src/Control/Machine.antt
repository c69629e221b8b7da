-- ===== src/Control/Machine.antt =====
-- internal/replset/replica.go: the state machine of `ControllerTask`, its timer and its loop.
use mongoctl.Prelude.{
  ℕ, List, [], ◌∷◌, Option, none, some, Bool, true, false, Outcome, ok, err, panic, length, ltb,
  leb, ◌==◌, if◌then◌else◌,
}
use mongoctl.Sorting.{sort_candidates}
use mongoctl.Stateless.{
  Effect, Action, Directive, permit, permit_reentry, on_entry, on_entry_from, Setup,
}
use mongoctl.Control.{Kind, Outside, Control, publish_repl_spec, slice}

pub data State : Type 0 where
  init configuration monitoring shutting_down terminated : State

-- `context` is a `context.Context` in the trigger's place.
pub data Trigger : Type 0 where
  start candidate_report member_status timeout initial_configuration context : Trigger

-- The values that are passed along with a trigger.
pub data Arg (C H : Type 0) : Type 0 where
  reports : List C → Arg C H
  health : List H → Arg C H
  trigger : Trigger → Arg C H

abbrev same_state : State → State → Bool
same_state init init = true
same_state configuration configuration = true
same_state monitoring monitoring = true
same_state shutting_down shutting_down = true
same_state terminated terminated = true
same_state _ _ = false

abbrev same_trigger : Trigger → Trigger → Bool
same_trigger start start = true
same_trigger candidate_report candidate_report = true
same_trigger member_status member_status = true
same_trigger timeout timeout = true
same_trigger initial_configuration initial_configuration = true
same_trigger context context = true
same_trigger _ _ = false

module _ {C S W : Type 0} where
  abbrev after_func : ℕ → List C → Control C S W → Control C S W
  after_func n candidates rs = record rs {
    timer = some (record { seconds = n; callback = some candidates; expired = false });
  }

  unfoldable pub arm : List C → Control C S W → Control C S W
  arm candidates rs =
      let n = length candidates in
      if n == 0
      then rs
      else if n == 6
      then after_func 1 candidates rs
      else if leb 3 n
      then after_func 5 candidates rs
      else if ltb 0 n
      then after_func 15 candidates rs
      else rs

  -- Of fewer than three candidates, as many are taken as the field `candidates` holds.
  unfoldable pub deployed_length : List C → Control C S W → ℕ
  deployed_length candidates rs = if ltb (length candidates) 3 then length rs.candidates else 3

module _ {C S Job W H : Type 0} (k : Kind C S) (o : Outside S Job W) where
  abbrev done : Outcome (Unit {0}) → Control C S W → Effect Trigger (Arg C H) (Control C S W)
  done r rs = record { outcome = r; world = rs; queued = [] }

  -- `candidates, ok := args[0].([]C)`: the field is written where the assertion fails.
  unfoldable pub read_reports : Arg C H → Control C S W → Control C S W
  unfolding arm
  read_reports (reports candidates) rs = arm candidates rs
  read_reports _ rs = arm [] (record rs { candidates = [] })

  unfoldable pub enter_configuration : Action Trigger (Arg C H) (Control C S W)
  unfolding read_reports
  enter_configuration [] rs = done (ok tt) (record rs { timer = none })
  enter_configuration (a ∷ args) rs = done (ok tt) (read_reports a (record rs { timer = none }))

  unfoldable pub published :
      Outcome (Unit {0}) × W → List C → S → Control C S W → Effect Trigger (Arg C H) (Control C S W)
  published (ok _, w) members spec rs =
      done (ok tt) (record rs { world = w; last_members = members; last_spec = some spec })
  published (err e, w) members spec rs = done (err e) (record rs { world = w })
  published (panic, w) members spec rs = done panic (record rs { world = w })

  generated : Outcome S → List C → Control C S W → Effect Trigger (Arg C H) (Control C S W)
  unfolding published
  generated (ok spec) members rs =
      published (publish_repl_spec k o rs.job_file spec rs.world) members spec rs
  generated (err e) members rs = done (err e) rs
  generated panic members rs = done panic rs

  generate : Option (List C) → Control C S W → Effect Trigger (Arg C H) (Control C S W)
  unfolding generated
  generate none rs = done panic rs
  generate (some members) rs = generated (k.generate_repl_config members) members rs

  unfoldable pub deploy : List C → Control C S W → Effect Trigger (Arg C H) (Control C S W)
  unfolding generate
  deploy candidates rs =
      let sorted = sort_candidates k.slices k.less candidates in
      generate (slice (deployed_length sorted rs) sorted) rs

  unfoldable pub deploy_initial : Action Trigger (Arg C H) (Control C S W)
  deploy_initial (reports candidates ∷ args) rs = deploy candidates rs
  deploy_initial _ rs = done panic rs

  -- The entry actions that only log.
  unfoldable pub log_entry : Action Trigger (Arg C H) (Control C S W)
  log_entry args rs = done (ok tt) rs

  unfoldable pub configure : State → List (Directive State Trigger (Arg C H) (Control C S W))
  configure init = permit start configuration ∷ []
  configure configuration =
      on_entry enter_configuration
      ∷ permit initial_configuration monitoring
      ∷ permit_reentry candidate_report
      ∷ []
  configure monitoring =
      on_entry_from initial_configuration deploy_initial
      ∷ on_entry_from candidate_report log_entry
      ∷ on_entry_from member_status log_entry
      ∷ permit_reentry member_status
      ∷ permit_reentry candidate_report
      ∷ []
  configure _ = []

  unfoldable pub repl_ctrl : Setup State Trigger (Arg C H) (Control C S W)
  unfolding configure
  repl_ctrl = record { configure = configure; same_state = same_state; same_trigger = same_trigger }
