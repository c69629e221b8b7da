-- ===== src/Control/Deploy.antt =====
-- The deployment of the initial configuration: what is published, and what follows a failure.
use mongoctl.Prelude.{◌≤◌, List, [], ◌∷◌, ◌≡◌, ap, ◌∙◌, arith, some, ok, err, Error, length, take}
use mongoctl.Prelude.Perms.{length-Perm}
use mongoctl.Sorting.{sort_candidates}
use mongoctl.Sorting.Candidates.{sort_candidates-Perm}
use mongoctl.Stateless.{Engine}
use mongoctl.Control.{Kind, Outside, Control, slice, publish_repl_spec}
use mongoctl.Control.Machine.{
  State, configuration, monitoring, Trigger, initial_configuration, Arg, reports, deployed_length,
  deploy,
}
use mongoctl.Control.Loop.{running, Event, fire, run}
use mongoctl.Control.Steps.{after_deploy, fire_initial_configuration}
use mongoctl.Control.Safety.{Stays-parts, run_monitoring}

pub slice-three : {A : Type 0} (xs : List A) → 3 ≤ length xs → slice 3 xs ≡ some (take 3 xs)
unfolding slice
slice-three xs h = ground arith

module _ {C S W : Type 0} where
  pub deployed_length-three :
      (cs : List C) (rs : Control C S W) → 3 ≤ length cs → deployed_length cs rs ≡ 3
  unfolding deployed_length
  deployed_length-three cs rs h = ground arith

module _ {C S Job W H : Type 0} (k : Kind C S) (o : Outside S Job W)
    (e : Engine State Trigger (Arg C H) (Control C S W)) where
  module _ (cs : List C) (rs : Control C S W) (spec : S) (enough : 3 ≤ length cs)
      (made : k.generate_repl_config (take 3 (sort_candidates k.slices k.less cs)) ≡ ok spec) where
    deploy_published :
        (w : W)
        → publish_repl_spec k o rs.job_file spec rs.world ≡ (ok tt, w)
        → after_deploy (deploy {H = H} k o cs rs)
          ≡ running monitoring (record rs {
            world = w;
            last_members = take 3 (sort_candidates k.slices k.less cs);
            last_spec = some spec;
          })
    unfolding deploy
    deploy_published w p =
        let sorted = sort_candidates k.slices k.less cs in
        let same : length sorted ≡ length cs =
          length-Perm (sort_candidates-Perm k.less k.slices cs) in
        rw
          (deployed_length-three sorted rs (omega arith), slice-three sorted (omega arith), made, p)

    deploy_failed :
        (w : W) (x : Error)
        → publish_repl_spec k o rs.job_file spec rs.world ≡ (err x, w)
        → after_deploy (deploy {H = H} k o cs rs) ≡ running monitoring (record rs { world = w })
    unfolding deploy
    deploy_failed w x p =
        let sorted = sort_candidates k.slices k.less cs in
        let same : length sorted ≡ length cs =
          length-Perm (sort_candidates-Perm k.less k.slices cs) in
        rw
          (deployed_length-three sorted rs (omega arith), slice-three sorted (omega arith), made, p)

    -- With three candidates or more, a delivered callback publishes the specification of the best
    -- three, and records it and them; whatever events follow, these stay.
    pub deploys_best_three :
        (w : W) (events : List (Event C H))
        → publish_repl_spec k o rs.job_file spec rs.world ≡ (ok tt, w)
        → (rs' : Control C S W) × (run k o e events
              (fire k o e initial_configuration (reports cs ∷ []) configuration rs)
            ≡ running monitoring rs')
          × (rs'.world ≡ w)
          × (rs'.last_spec ≡ some spec)
          × (rs'.last_members ≡ take 3 (sort_candidates k.slices k.less cs))
    deploys_best_three w events p =
        let fired = fire_initial_configuration k o e cs rs ∙ deploy_published w p in
        let (rs', eq, same) = Stays-parts (run_monitoring k o e events _) in
        (rs', ap (run k o e events) fired ∙ eq, same.world, same.last_spec, same.last_members)

    -- After a failed publication for three candidates or more the controller monitors all the
    -- same: whatever events follow, it publishes nothing more, and keeps the specification that it
    -- had before.
    pub failed_publication_stays :
        (w : W) (x : Error) (events : List (Event C H))
        → publish_repl_spec k o rs.job_file spec rs.world ≡ (err x, w)
        → (rs' : Control C S W) × (run k o e events
              (fire k o e initial_configuration (reports cs ∷ []) configuration rs)
            ≡ running monitoring rs')
          × (rs'.world ≡ w)
          × (rs'.last_spec ≡ rs.last_spec)
    failed_publication_stays w x events p =
        let fired = fire_initial_configuration k o e cs rs ∙ deploy_failed w x p in
        let (rs', eq, same) = Stays-parts (run_monitoring k o e events _) in
        (rs', ap (run k o e events) fired ∙ eq, same.world, same.last_spec)
