-- ===== src/Control/Safety.antt =====
-- What holds of every run of `ControllerTask`, whatever the order of its events.
use mongoctl.Prelude.{
  List, [], ◌∷◌, ◌≡◌, refl, ◌∙◌, arith, Option, none, some, Bool, true, false, All,
}
use mongoctl.Stateless.{Engine}
use mongoctl.Control.{Kind, Outside, Timer, Control}
use mongoctl.Control.Machine.{State, configuration, monitoring, Trigger, Arg, arm}
use mongoctl.Control.Loop.{
  Sys, running, Event, report, health_status, expire, deliver, expire_timer, pick, deliver_picked,
  react, run,
}
use mongoctl.Control.Steps.{
  unarmed, fire_report_configuration, fire_report_monitoring, fire_context, fire_initial_monitoring,
}

-- The part of the controller that the outside and later decisions can tell.
pub record Same {C S W : Type 0} (rs rs' : Control C S W) : Type 0 where
  pub world : rs'.world ≡ rs.world
  pub candidates : rs'.candidates ≡ rs.candidates
  pub last_members : rs'.last_members ≡ rs.last_members
  pub last_spec : rs'.last_spec ≡ rs.last_spec
  pub job_file : rs'.job_file ≡ rs.job_file

module _ {C S W : Type 0} where
  pub Same-refl : (rs : Control C S W) → Same rs rs
  Same-refl rs = record {
    world = refl;
    candidates = refl;
    last_members = refl;
    last_spec = refl;
    job_file = refl;
  }

  pub Same-trans : {a b c : Control C S W} → Same a b → Same b c → Same a c
  Same-trans p q = record {
    world = q.world ∙ p.world;
    candidates = q.candidates ∙ p.candidates;
    last_members = q.last_members ∙ p.last_members;
    last_spec = q.last_spec ∙ p.last_spec;
    job_file = q.job_file ∙ p.job_file;
  }

  pub arm-Same : (cs : List C) (rs : Control C S W) → Same rs (arm cs rs)
  unfolding arm
  arm-Same cs rs = ground arith

  pub expire_timer-Same : (t : Option (Timer C)) (rs : Control C S W) → Same rs (expire_timer t rs)
  unfolding expire_timer
  expire_timer-Same t rs = ground arith

  -- A system that still runs in state `s`, with all but timers and callbacks as in `rs`.
  pub data Stays (s : State) (rs : Control C S W) (sys : Sys C S W) : Type 0 where
    stays : (rs' : Control C S W) → sys ≡ running s rs' → Same rs rs' → Stays s rs sys

  Stays-weaken :
      {s : State} {a b : Control C S W} {sys : Sys C S W} → Same a b → Stays s b sys → Stays s a sys
  Stays-weaken p (stays rs' eq q) = stays rs' eq (Same-trans p q)

  pub Stays-parts :
      {s : State} {rs : Control C S W} {sys : Sys C S W}
      → Stays s rs sys
      → (rs' : Control C S W) × (sys ≡ running s rs') × Same rs rs'
  Stays-parts (stays rs' eq same) = (rs', eq, same)

abbrev pub is_deliver : {C H : Type 0} → Event C H → Bool
is_deliver (deliver n) = true
is_deliver _ = false

module _ {C S Job W H : Type 0} (k : Kind C S) (o : Outside S Job W)
    (e : Engine State Trigger (Arg C H) (Control C S W)) where
  deliver_monitoring :
      (p : Option (List C × List (List C))) (rs : Control C S W)
      → Stays monitoring rs (deliver_picked k o e p monitoring rs)
  unfolding deliver_picked
  deliver_monitoring none rs = stays rs refl (Same-refl rs)
  deliver_monitoring (some (cs, rest)) rs =
      stays (record rs { inflight = rest })
        (fire_initial_monitoring k o e cs (record rs { inflight = rest })) (ground arith)

  pub react_monitoring :
      (ev : Event C H) (rs : Control C S W) → Stays monitoring rs (react k o e ev monitoring rs)
  unfolding react
  react_monitoring (report cs) rs = stays rs (fire_report_monitoring k o e cs rs) (Same-refl rs)
  react_monitoring (health_status hs) rs =
      stays rs (fire_context k o e _ monitoring rs) (Same-refl rs)
  react_monitoring expire rs = stays (expire_timer rs.timer rs) refl (expire_timer-Same rs.timer rs)
  react_monitoring (deliver n) rs = deliver_monitoring (pick n rs.inflight) rs

  pub react_configuration :
      (ev : Event C H) (rs : Control C S W)
      → is_deliver ev ≡ false
      → Stays configuration rs (react k o e ev configuration rs)
  unfolding react
  react_configuration (report cs) rs h =
      stays (arm cs (unarmed rs)) (fire_report_configuration k o e cs rs)
        (Same-trans (ground arith) (arm-Same cs (unarmed rs)))
  react_configuration (health_status hs) rs h =
      stays rs (fire_context k o e _ configuration rs) (Same-refl rs)
  react_configuration expire rs h =
      stays (expire_timer rs.timer rs) refl (expire_timer-Same rs.timer rs)
  react_configuration (deliver n) rs h = cc

  then_run :
      (events : List (Event C H)) (s : State) (rs : Control C S W) (sys : Sys C S W)
      → Stays s rs sys
      → ((rs' : Control C S W) → Stays s rs' (run k o e events (running s rs')))
      → Stays s rs (run k o e events sys)
  then_run events s rs sys (stays rs' eq same) rest = rw eq (Stays-weaken same (rest rs'))

  -- Once monitoring, always monitoring: whatever events follow, none publishes again, changes the
  -- last specification or its members, or ends the controller.
  pub run_monitoring :
      (events : List (Event C H)) (rs : Control C S W)
      → Stays monitoring rs (run k o e events (running monitoring rs))
  unfolding run
  run_monitoring [] rs = stays rs refl (Same-refl rs)
  run_monitoring (ev ∷ events) rs =
      then_run events monitoring rs _ (react_monitoring ev rs) (run_monitoring events)

  -- Before a timer's callback is delivered nothing is published and nothing fails, however many
  -- reports and health statuses arrive and timers expire.
  pub run_configuration :
      (events : List (Event C H)) (rs : Control C S W)
      → All (λ ev. is_deliver ev ≡ false) events
      → Stays configuration rs (run k o e events (running configuration rs))
  unfolding run
  run_configuration [] rs h = stays rs refl (Same-refl rs)
  run_configuration (ev ∷ events) rs (h, hs) =
      then_run events configuration rs _ (react_configuration ev rs h)
        (λ rs'. run_configuration events rs' hs)
