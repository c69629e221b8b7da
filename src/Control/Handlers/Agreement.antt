-- ===== src/Control/Handlers/Agreement.antt =====
-- The handlers against the entry actions of the state machine, which do the same work.
use mongoctl.Prelude.{
  ℕ, ◌≤◌, List, ◌≡◌, refl, ap, arith, Option, none, some, Outcome, ok, err, panic, length, take,
}
use mongoctl.Prelude.Perms.{length-Perm}
use mongoctl.Sorting.{sort_candidates}
use mongoctl.Sorting.Candidates.{sort_candidates-Perm}
use mongoctl.Control.{Kind, Outside, Timer, Control, initiation, configuration, publish_repl_spec}
use mongoctl.Control.Machine.{arm, deploy, published, Trigger, Arg}
use mongoctl.Control.Handlers.{
  Handled, timer_by_state, at_most_three, handled_published, next, panicked, handle_candidates,
  handle_timer,
}
use mongoctl.Control.Deploy.{slice-three, deployed_length-three}
use mongoctl.Stateless.{Effect}

abbrev timer_seconds : {C : Type 0} → Option (Timer C) → Option ℕ
timer_seconds none = none
timer_seconds (some t) = some t.seconds

module _ {C S W : Type 0} where
  -- In the initial state `handle_candidates` waits as long as the entry action of the state
  -- machine, for any candidates, and not at all for none.
  same_wait :
      (cs : List C) (rs : Control C S W)
      → rs.state ≡ initiation
      → timer_seconds (handle_candidates cs rs).timer ≡ timer_seconds (arm cs rs).timer
  unfolding handle_candidates arm
  same_wait cs rs e = rw e (ground arith)

first_three : {C : Type 0} (cs : List C) → 3 ≤ length cs → at_most_three cs ≡ 3
unfolding at_most_three
first_three cs h = ground arith

module _ {C S Job W : Type 0} (k : Kind C S) (o : Outside S Job W) where
  in_configuration :
      (rs : Control C S W)
      → rs.state ≡ configuration
      → handle_timer k o rs ≡ timer_by_state k o configuration rs
  unfolding handle_timer
  in_configuration rs state = ap (λ s. timer_by_state k o s rs) state

module _ {C S Job W H : Type 0} (k : Kind C S) (o : Outside S Job W) where
  -- What `handle_timer` comes to, against the effect of the entry action.
  pub data Agrees : Handled C S W → Effect Trigger (Arg C H) (Control C S W) → Type 0 where
    agree :
        (rs rs' : Control C S W) (r : Outcome (Unit {0})) (q : List (Trigger × List (Arg C H)))
        → rs.world ≡ rs'.world
        → rs.last_spec ≡ rs'.last_spec
        → rs.last_members ≡ rs'.last_members
        → Agrees (next rs) (record { outcome = r; world = rs'; queued = q })
    both_panic :
        (rs' : Control C S W) (q : List (Trigger × List (Arg C H)))
        → Agrees panicked (record { outcome = panic; world = rs'; queued = q })

  agreed :
      (r : Outcome (Unit {0}) × W) (cs : List C) (spec : S) (rs rs' : Control C S W)
      → rs.last_spec ≡ rs'.last_spec
      → rs.last_members ≡ rs'.last_members
      → Agrees (handled_published r cs spec rs) (published {H = H} k o r cs spec rs')
  unfolding handled_published published
  agreed (ok _, w) cs spec rs rs' s m = agree _ _ _ _ refl refl refl
  agreed (err x, w) cs spec rs rs' s m = agree _ _ _ _ refl s m
  agreed (panic, w) cs spec rs rs' s m = both_panic _ _

  -- With three candidates or more, of which a specification is generated, `handle_timer` does what
  -- the entry action of the state machine does with the same candidates: either both panic, or the
  -- world that they leave, the specification and the members that they keep are the same, whether
  -- or not the publication succeeds.
  pub same_deployment :
      (rs : Control C S W) (spec : S)
      → rs.state ≡ configuration
      → 3 ≤ length rs.candidates
      → k.generate_repl_config (take 3 (sort_candidates k.slices k.less rs.candidates)) ≡ ok spec
      → Agrees (handle_timer k o rs) (deploy k o rs.candidates rs)
  unfolding timer_by_state deploy
  same_deployment rs spec state enough made =
      let sorted = sort_candidates k.slices k.less rs.candidates in
      let same : length sorted ≡ length rs.candidates =
        length-Perm (sort_candidates-Perm k.less k.slices rs.candidates) in
      rw
        (
          in_configuration k o rs state,
          deployed_length-three sorted rs (omega arith),
          slice-three sorted (omega arith),
          first_three sorted (omega arith),
          made,
        )
        (agreed (publish_repl_spec k o rs.job_file spec rs.world) _ spec _ rs refl refl)
