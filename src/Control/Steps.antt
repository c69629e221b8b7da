-- ===== src/Control/Steps.antt =====
-- One event of the controller in each of its states, with the machine at work.
use mongoctl.Prelude.{List, [], ◌∷◌, ◌≡◌, refl, ◌∙◌, arith, some, none, Outcome, ok, err, panic}
use mongoctl.Stateless.{Fired, Engine, documented, Effect}
use mongoctl.Stateless.Queue.{drain, drain_one, engine_step}
use mongoctl.Control.{Kind, Outside, Control}
use mongoctl.Control.Machine.{
  State, init, configuration, monitoring, Trigger, start, candidate_report, initial_configuration,
  context, Arg, reports, arm, enter_configuration, deploy, deploy_initial, log_entry, repl_ctrl,
}
use mongoctl.Control.Loop.{Sys, running, crashed, settle, fire}

abbrev pub unarmed : {C S W : Type 0} → Control C S W → Control C S W
unarmed rs = record rs { timer = none }

-- What the deployment leaves of the controller: a panic ends it, an error does not.
abbrev pub after_outcome : {C S W : Type 0} → Outcome (Unit {0}) → Control C S W → Sys C S W
after_outcome (ok _) rs = running monitoring rs
after_outcome (err x) rs = running monitoring rs
after_outcome panic rs = crashed

abbrev pub after_deploy : {T A C S W : Type 0} → Effect T A (Control C S W) → Sys C S W
after_deploy f = after_outcome f.outcome f.world

module _ {C S Job W H : Type 0} (k : Kind C S) (o : Outside S Job W)
    (e : Engine State Trigger (Arg C H) (Control C S W)) where
  -- The library in its documentation's words.
  fire_book :
      (t : Trigger) (args : List (Arg C H)) (s : State) (rs : Control C S W)
      → fire k o e t args s rs ≡ settle (drain (documented (repl_ctrl k o)) 1 ((t, args) ∷ []) s rs)
  unfolding fire
  fire_book t args s rs = rw (engine_step e (repl_ctrl k o))

  pub fire_start :
      (rs : Control C S W) → fire k o e start [] init rs ≡ running configuration (unarmed rs)
  unfolding settle drain repl_ctrl documented enter_configuration
  fire_start rs = fire_book _ _ _ rs

  pub fire_report_configuration :
      (cs : List C) (rs : Control C S W)
      → fire k o e candidate_report (reports cs ∷ []) configuration rs
        ≡ running configuration (arm cs (unarmed rs))
  unfolding settle drain repl_ctrl documented enter_configuration
  fire_report_configuration cs rs = fire_book _ _ _ rs

  pub fire_report_monitoring :
      (cs : List C) (rs : Control C S W)
      → fire k o e candidate_report (reports cs ∷ []) monitoring rs ≡ running monitoring rs
  unfolding settle drain repl_ctrl documented log_entry
  fire_report_monitoring cs rs = fire_book _ _ _ rs

  pub fire_context :
      (args : List (Arg C H)) (s : State) (rs : Control C S W)
      → fire k o e context args s rs ≡ running s rs
  unfolding settle drain repl_ctrl documented
  fire_context args init rs = fire_book _ _ _ rs
  fire_context args _ rs = fire_book _ _ _ rs

  deploy-queued : (cs : List C) (rs : Control C S W) → (deploy {H = H} k o cs rs).queued ≡ []
  unfolding deploy
  deploy-queued cs rs = ground arith

  pub fire_initial_configuration :
      (cs : List C) (rs : Control C S W)
      → fire k o e initial_configuration (reports cs ∷ []) configuration rs
        ≡ after_deploy (deploy {H = H} k o cs rs)
  unfolding settle drain repl_ctrl documented deploy_initial
  fire_initial_configuration cs rs = fire_book _ _ _ rs ∙ ground (arith, deploy-queued cs rs)

  pub fire_initial_monitoring :
      (cs : List C) (rs : Control C S W)
      → fire k o e initial_configuration (reports cs ∷ []) monitoring rs ≡ running monitoring rs
  unfolding settle drain repl_ctrl documented
  fire_initial_monitoring cs rs = fire_book _ _ _ rs

  deploy_initial-queued :
      (args : List (Arg C H)) (rs : Control C S W) → (deploy_initial k o args rs).queued ≡ []
  unfolding deploy_initial
  deploy_initial-queued [] rs = refl
  deploy_initial-queued (reports cs ∷ args) rs = deploy-queued cs rs
  deploy_initial-queued (_ ∷ args) rs = refl

  enter_configuration-queued :
      (args : List (Arg C H)) (rs : Control C S W) → (enter_configuration k o args rs).queued ≡ []
  unfolding enter_configuration
  enter_configuration-queued [] rs = refl
  enter_configuration-queued (a ∷ args) rs = refl

  -- No action of this machine fires a trigger.
  documented-queued :
      (t : Trigger) (args : List (Arg C H)) (s : State) (rs : Control C S W)
      → (documented (repl_ctrl k o) s t args rs).queued ≡ []
  unfolding repl_ctrl documented log_entry
  documented-queued start args init rs = ground (arith, enter_configuration-queued args rs)
  documented-queued _ args init rs = ground arith
  documented-queued candidate_report args configuration rs =
      ground (arith, enter_configuration-queued args rs)
  documented-queued initial_configuration args configuration rs =
      ground (arith, deploy_initial-queued args rs)
  documented-queued _ args configuration rs = ground arith
  documented-queued t args monitoring rs = ground arith
  documented-queued t args _ rs = ground arith

  -- The fuel of `fire` is enough: whatever the trigger and the state, the queue is done in one step.
  pub queue_is_done :
      (t : Trigger) (args : List (Arg C H)) (s : State) (rs : Control C S W)
      → (f : Fired State Trigger (Arg C H) (Control C S W)) × (drain
            (e.fire_one (repl_ctrl k o))
            1
            ((t, args) ∷ [])
            s
            rs
          ≡ some f)
  queue_is_done t args s rs =
      rw (engine_step e (repl_ctrl k o))
        (drain_one (documented (repl_ctrl k o)) t args s rs (documented-queued t args s rs))
