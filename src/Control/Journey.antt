-- ===== src/Control/Journey.antt =====
-- The controller from its start to the publication of the first specification.
pub mod Election
pub mod Cluster
pub mod Service
pub mod Formation
pub mod Callbacks
use mongoctl.Prelude.{
  ℕ, ◌≤◌, List, [], ◌∷◌, ◌≡◌, ap, ◌∙◌, arith, some, true, false, Bytes, ok, length, take, ◌==◌,
  if◌then◌else◌,
}
use mongoctl.Sorting.{sort_candidates}
use mongoctl.Stateless.{Engine}
use mongoctl.Control.{Kind, Outside, Control, publish_repl_spec}
use mongoctl.Control.Machine.{State, configuration, monitoring, Trigger, Arg, arm}
use mongoctl.Control.Loop.{
  running, Event, report, expire, deliver, run, react, deliver_picked, pick, expire_timer,
  controller_task,
}
use mongoctl.Control.Steps.{fire_report_configuration, unarmed}
use mongoctl.Control.Unsaved.{controller_task-run, started}
use mongoctl.Control.Deploy.{deploys_best_three}

abbrev wait_for : {C : Type 0} → List C → ℕ
wait_for cs = if length cs == 6 then 1 else 5

module _ {C S W : Type 0} where
  abbrev waiting : List C → Control C S W → Control C S W
  waiting cs rs = record rs {
    timer = some (record { seconds = wait_for cs; callback = some cs; expired = false });
  }

  arm-three : (cs : List C) (rs : Control C S W) → 3 ≤ length cs → arm cs rs ≡ waiting cs rs
  unfolding arm
  arm-three cs rs h = ground arith

  -- The timer has expired and its callback is on its way.
  abbrev expired_with : List C → Control C S W → Control C S W
  expired_with cs rs = record rs {
    timer = some (record { seconds = wait_for cs; callback = some cs; expired = true });
    inflight = cs ∷ [];
  }

module _ {C S Job W H : Type 0} (k : Kind C S) (o : Outside S Job W)
    (e : Engine State Trigger (Arg C H) (Control C S W)) where
  -- The controller's state when the first callback arrives.
  abbrev due : Bytes → W → List C → Control C S W
  due job_file w cs = expired_with cs (unarmed (started k o e job_file w))

  reported :
      (job_file : Bytes) (w : W) (cs : List C) (events : List (Event C H))
      → 3 ≤ length cs
      → run k o e (report cs ∷ expire ∷ events) (running configuration (started k o e job_file w))
        ≡ run k o e events (running configuration (due job_file w cs))
  unfolding run react expire_timer
  reported job_file w cs events h =
      let rs = started k o e job_file w in
      ap (run k o e (expire ∷ events)) (
        fire_report_configuration k o e cs rs
        ∙ ap (running configuration) (arm-three cs (unarmed rs) h))

  -- From its start, once it has been reported three candidates or more and the timer of that
  -- report has expired and called back, the controller has published the specification of the best
  -- three, under the job's file, where one is generated and its publication succeeds. It records
  -- it and the three, and whatever follows, these stay.
  pub first_deployment :
      (job_file : Bytes) (w w' : W) (cs : List C) (spec : S) (events : List (Event C H))
      → 3 ≤ length cs
      → k.generate_repl_config (take 3 (sort_candidates k.slices k.less cs)) ≡ ok spec
      → publish_repl_spec k o job_file spec w ≡ (ok tt, w')
      → (rs : Control C S W) × (controller_task k o e job_file w
            (report cs ∷ expire ∷ deliver 0 ∷ events)
          ≡ running monitoring rs)
        × (rs.world ≡ w')
        × (rs.last_spec ≡ some spec)
        × (rs.last_members ≡ take 3 (sort_candidates k.slices k.less cs))
  unfolding run react deliver_picked pick
  first_deployment job_file w w' cs spec events h made p =
      let rs = record (due job_file w cs) { inflight = [] } in
      let (rs', eq, published, kept, members) =
        deploys_best_three k o e cs rs spec h made w' events p in
      (
        rs',
        controller_task-run k o e job_file w _ ∙ reported job_file w cs (deliver 0 ∷ events) h ∙ eq,
        published,
        kept,
        members,
      )
