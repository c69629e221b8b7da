-- ===== src/Control/Unsaved.antt =====
-- The field `candidates` is never filled by `ControllerTask`, and what follows for small clusters.
use mongoctl.Prelude.{
  ℕ, ◌<◌, List, [], ◌∷◌, ◌++◌, ◌≡◌, refl, sym, ◌∙◌, ap, arith, Option, none, some, false, Bytes,
  Outcome, ok, err, panic, length, lt→ltb,
}
use mathlib.Core.Path.{subst}
use mongoctl.Prelude.Perms.{length-Perm}
use mongoctl.Sorting.{sort_candidates}
use mongoctl.Sorting.Candidates.{sort_candidates-Perm}
use mongoctl.Stateless.{Engine}
use mongoctl.Control.{Kind, Outside, Control, slice}
use mongoctl.Control.Machine.{
  State, init, configuration, monitoring, Trigger, Arg, deployed_length, deploy,
}
use mongoctl.Control.Loop.{
  Sys, running, crashed, Event, report, health_status, expire, deliver, pick, deliver_picked, fresh,
  react, run, controller_task,
}
use mongoctl.Control.Steps.{after_outcome, fire_start, fire_initial_configuration}
use mongoctl.Control.Safety.{Stays, stays, react_monitoring, react_configuration}

-- A controller past its start, with no saved candidates; or one that a panic ended.
abbrev pub IsUnsaved : {C S W : Type 0} → Sys C S W → Type 0
IsUnsaved crashed = Unit
IsUnsaved (running configuration rs) = rs.candidates ≡ []
IsUnsaved (running monitoring rs) = rs.candidates ≡ []
IsUnsaved (running _ rs) = ⊥

module _ {C S Job W H : Type 0} (k : Kind C S) (o : Outside S Job W)
    (e : Engine State Trigger (Arg C H) (Control C S W)) where
  of_monitoring :
      (rs : Control C S W) (sys : Sys C S W)
      → rs.candidates ≡ []
      → Stays monitoring rs sys
      → IsUnsaved sys
  of_monitoring rs sys h (stays rs' eq same) = rw eq (same.candidates ∙ h)

  of_configuration :
      (rs : Control C S W) (sys : Sys C S W)
      → rs.candidates ≡ []
      → Stays configuration rs sys
      → IsUnsaved sys
  of_configuration rs sys h (stays rs' eq same) = rw eq (same.candidates ∙ h)

  deploy-candidates :
      (cs : List C) (rs : Control C S W)
      → (deploy {H = H} k o cs rs).world.candidates ≡ rs.candidates
  unfolding deploy
  deploy-candidates cs rs = ground arith

  after_outcome-IsUnsaved :
      (r : Outcome (Unit {0})) (rs : Control C S W)
      → rs.candidates ≡ []
      → IsUnsaved (after_outcome r rs)
  after_outcome-IsUnsaved (ok x) rs h = h
  after_outcome-IsUnsaved (err x) rs h = h
  after_outcome-IsUnsaved panic rs h = tt

  deliver-IsUnsaved :
      (p : Option (List C × List (List C))) (rs : Control C S W)
      → rs.candidates ≡ []
      → IsUnsaved (deliver_picked k o e p configuration rs)
  unfolding deliver_picked
  deliver-IsUnsaved none rs h = h
  deliver-IsUnsaved (some (cs, rest)) rs h =
      rw (fire_initial_configuration k o e cs (record rs { inflight = rest })) (
        after_outcome-IsUnsaved (deploy {H = H} k o cs (record rs { inflight = rest })).outcome _
          (deploy-candidates cs (record rs { inflight = rest }) ∙ h))

  react_configuration-IsUnsaved :
      (ev : Event C H) (rs : Control C S W)
      → rs.candidates ≡ []
      → IsUnsaved (react k o e ev configuration rs)
  react_configuration-IsUnsaved (deliver n) rs h =
      unfold react in deliver-IsUnsaved (pick n rs.inflight) rs h
  react_configuration-IsUnsaved (report cs) rs h =
      of_configuration rs _ h (react_configuration k o e _ rs refl)
  react_configuration-IsUnsaved (health_status hs) rs h =
      of_configuration rs _ h (react_configuration k o e _ rs refl)
  react_configuration-IsUnsaved expire rs h =
      of_configuration rs _ h (react_configuration k o e _ rs refl)

  react-IsUnsaved :
      (ev : Event C H) (s : State) (rs : Control C S W)
      → IsUnsaved (running s rs)
      → IsUnsaved (react k o e ev s rs)
  react-IsUnsaved ev configuration rs h = react_configuration-IsUnsaved ev rs h
  react-IsUnsaved ev monitoring rs h = of_monitoring rs _ h (react_monitoring k o e ev rs)
  react-IsUnsaved ev init rs h = absurd h
  react-IsUnsaved ev State.shutting_down rs h = absurd h
  react-IsUnsaved ev State.terminated rs h = absurd h

  run_crashed : (events : List (Event C H)) → run k o e events crashed ≡ crashed
  unfolding run
  run_crashed [] = refl
  run_crashed (ev ∷ events) = refl

  run-IsUnsaved :
      (events : List (Event C H)) (sys : Sys C S W)
      → IsUnsaved sys
      → IsUnsaved (run k o e events sys)
  unfolding run
  run-IsUnsaved events crashed h = subst IsUnsaved (sym (run_crashed events)) tt
  run-IsUnsaved [] (running s rs) h = h
  run-IsUnsaved (ev ∷ events) (running s rs) h =
      run-IsUnsaved events (react k o e ev s rs) (react-IsUnsaved ev s rs h)

  pub run-append :
      (events more : List (Event C H)) (sys : Sys C S W)
      → run k o e (events ++ more) sys ≡ run k o e more (run k o e events sys)
  unfolding run
  run-append events more crashed =
      run_crashed (events ++ more) ∙ sym (rw (run_crashed events) (run_crashed more))
  run-append [] more (running s rs) = refl
  run-append (ev ∷ events) more (running s rs) = run-append events more (react k o e ev s rs)

  abbrev pub started : Bytes → W → Control C S W
  started job_file w = record (fresh k o e job_file w) {
    timer = some (record { seconds = 300; callback = none; expired = false });
  }

  -- After its start the controller configures, with a timer that nothing waits for.
  pub controller_task-run :
      (job_file : Bytes) (w : W) (events : List (Event C H))
      → controller_task k o e job_file w events
        ≡ run k o e events (running configuration (started job_file w))
  unfolding controller_task
  controller_task-run job_file w events = rw (fire_start k o e (fresh k o e job_file w))

  -- In every run of `ControllerTask`, whatever its reports, the saved list of candidates is empty
  -- and the machine is configuring or monitoring, unless a panic has ended it.
  pub controller_task-IsUnsaved :
      (job_file : Bytes) (w : W) (events : List (Event C H))
      → IsUnsaved (controller_task k o e job_file w events)
  controller_task-IsUnsaved job_file w events =
      rw (controller_task-run job_file w events)
        (run-IsUnsaved events (running configuration (started job_file w)) refl)

  slice-zero : (cs : List C) → slice 0 cs ≡ some []
  unfolding slice
  slice-zero cs = ground arith

  deployed_length-small :
      (cs : List C) (rs : Control C S W)
      → rs.candidates ≡ []
      → length cs < 3
      → deployed_length cs rs ≡ 0
  unfolding deployed_length
  deployed_length-small cs rs h few = rw (lt→ltb (length cs) 3 few, h)

  small_deploy :
      (cs : List C) (rs : Control C S W)
      → k.generate_repl_config [] ≡ panic
      → rs.candidates ≡ []
      → length cs < 3
      → (deploy {H = H} k o cs rs).outcome ≡ panic
  unfolding deploy
  small_deploy cs rs g h few =
      let sorted = sort_candidates k.slices k.less cs in
      let same : length sorted ≡ length cs =
        length-Perm (sort_candidates-Perm k.less k.slices cs) in
      rw (deployed_length-small sorted rs h (omega arith), slice-zero sorted, g)

  deliver_small :
      (p : Option (List C × List (List C))) (rs : Control C S W) (cs : List C)
      (rest : List (List C))
      → p ≡ some (cs, rest)
      → k.generate_repl_config [] ≡ panic
      → rs.candidates ≡ []
      → length cs < 3
      → deliver_picked k o e p configuration rs ≡ crashed
  unfolding deliver_picked
  deliver_small p rs cs rest e' g h few = rw (
    e',
    fire_initial_configuration k o e cs (record rs { inflight = rest }),
    small_deploy cs (record rs { inflight = rest }) g h few,
  )

  -- Where no specification can be generated from no candidate, the delivery of a timer's callback
  -- with fewer than three candidates ends a controller that is configuring, in every run.
  pub small_cluster_crashes :
      (job_file : Bytes) (w : W) (events : List (Event C H)) (rs : Control C S W) (n : ℕ)
      (cs : List C) (rest : List (List C))
      → k.generate_repl_config [] ≡ panic
      → controller_task k o e job_file w events ≡ running configuration rs
      → pick n rs.inflight ≡ some (cs, rest)
      → length cs < 3
      → controller_task k o e job_file w (events ++ deliver n ∷ []) ≡ crashed
  unfolding run react
  small_cluster_crashes job_file w events rs n cs rest g at p few =
      let from = started job_file w in
      let here = sym (controller_task-run job_file w events) ∙ at in
      let empty = subst IsUnsaved at (controller_task-IsUnsaved job_file w events) in
      controller_task-run job_file w (events ++ deliver n ∷ [])
      ∙ run-append events (deliver n ∷ []) (running configuration from)
      ∙ ap (run k o e (deliver n ∷ [])) here
      ∙ ap (run k o e []) (deliver_small (pick n rs.inflight) rs cs rest p g empty few)
      ∙ run_crashed []
