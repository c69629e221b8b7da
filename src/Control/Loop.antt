-- ===== src/Control/Loop.antt =====
-- internal/replset/replica.go: `ControllerTask` at work: its channels, its timer and its loop.
use mongoctl.Prelude.{
  ℕ, zero, suc, List, [], ◌∷◌, ◌++◌, Option, none, some, true, false, Bytes, ok, err, panic,
  if◌then◌else◌,
}
use mongoctl.Stateless.{Fired, Engine}
use mongoctl.Stateless.Queue.{drain}
use mongoctl.Control.{Kind, Outside, Timer, Control, initiation}
use mongoctl.Control.Machine.{
  State, init, Trigger, start, candidate_report, member_status, initial_configuration, context, Arg,
  reports, health, trigger, repl_ctrl,
}

pub data Sys (C S W : Type 0) : Type 0 where
  running : State → Control C S W → Sys C S W
  crashed : Sys C S W

-- What reaches the controller: the two channels of its loop, and its timer.
pub data Event (C H : Type 0) : Type 0 where
  report : List C → Event C H
  health_status : List H → Event C H
  expire : Event C H
  deliver : ℕ → Event C H

-- The callback at a position, and the others.
unfoldable pub pick : {C : Type 0} → ℕ → List (List C) → Option (List C × List (List C))
pick n [] = none
pick zero (c ∷ cs) = some (c, cs)
pick (suc n) (c ∷ cs) = elim (pick n cs) [ none ↦ none | some (d, rest) ↦ some (d, c ∷ rest) ]

module _ {C S W : Type 0} where
  unfoldable pub expire_timer : Option (Timer C) → Control C S W → Control C S W
  expire_timer none rs = rs
  expire_timer (some t) rs = elim t.callback [
    | none ↦ rs
    | some candidates ↦ if t.expired then rs else record rs {
      timer = some (record t { expired = true });
      inflight = rs.inflight ++ candidates ∷ [];
    }
  ]

  unfoldable pub settle : {T A : Type 0} → Option (Fired State T A (Control C S W)) → Sys C S W
  settle none = crashed
  settle (some f) = elim f.outcome [
    | ok _ ↦ running f.state f.world
    | err e ↦ running f.state f.world
    | panic ↦ crashed
  ]

module _ {C S Job W H : Type 0} (k : Kind C S) (o : Outside S Job W)
    (e : Engine State Trigger (Arg C H) (Control C S W)) where
  -- No action of this machine fires a trigger: a queue of one is done in one step.
  unfoldable pub fire : Trigger → List (Arg C H) → State → Control C S W → Sys C S W
  fire t args s rs = settle (drain (e.fire_one (repl_ctrl k o)) 1 ((t, args) ∷ []) s rs)

  unfoldable pub deliver_picked :
      Option (List C × List (List C)) → State → Control C S W → Sys C S W
  deliver_picked none s rs = running s rs
  deliver_picked (some (candidates, rest)) s rs =
      fire initial_configuration (reports candidates ∷ []) s (record rs { inflight = rest })

  -- Health statuses are fired with the context in the trigger's place.
  unfoldable pub react : Event C H → State → Control C S W → Sys C S W
  unfolding deliver_picked
  react (report candidates) s rs = fire candidate_report (reports candidates ∷ []) s rs
  react (health_status hs) s rs = fire context (trigger member_status ∷ health hs ∷ []) s rs
  react expire s rs = running s (expire_timer rs.timer rs)
  react (deliver n) s rs = deliver_picked (pick n rs.inflight) s rs

  unfoldable pub run : List (Event C H) → Sys C S W → Sys C S W
  run events crashed = crashed
  run [] (running s rs) = running s rs
  run (ev ∷ events) (running s rs) = run events (react ev s rs)

  abbrev pub fresh : Bytes → W → Control C S W
  fresh job_file w = record {
    state = initiation;
    timer = none;
    candidates = [];
    last_members = [];
    last_spec = none;
    job_file = job_file;
    inflight = [];
    world = w;
  }

  abbrev pub wait_five_minutes : Sys C S W → Sys C S W
  wait_five_minutes crashed = crashed
  wait_five_minutes (running s rs) =
      running s
        (record rs { timer = some (record { seconds = 300; callback = none; expired = false }) })

  -- `ControllerTask` up to its loop, and the loop over the events that reach it.
  unfoldable pub controller_task : Bytes → W → List (Event C H) → Sys C S W
  unfolding fire run
  controller_task job_file w events =
      run events (wait_five_minutes (fire start [] init (fresh job_file w)))
