-- ===== src/Store/Tasks.antt =====
-- internal/replset/replica.go: `PreStartTask` and `MemberTask`, which pass a member's report and its
-- health to the store.
use mongoctl.Prelude.{List, [], ◌∷◌, map, ◌≡◌, refl, Bytes, Outcome, Io, ◌>>=◌, pure, abort, handle}
use mongoctl.Store.{Consul, ConsulStore, call}
use mongoctl.Store.Report.{put_candidate_report}
use mongoctl.Store.Health.{update_health_status}
use mongoctl.Store.Renewal.{update, run}

abbrev or_panic : {S A : Type 0} → Io S A → Io S A
or_panic m s = let (r, s') = m s in handle r (λ e. abort) pure s'

module _ {W C : Type 0} (con : Consul W) (collect : Io W C) (marshal : C → Outcome Bytes) where
  unfoldable pub pre_start_task : Bytes → Io (ConsulStore W) Unit
  pre_start_task id = do
    res ← or_panic (call collect)
    or_panic (put_candidate_report con id (marshal res))

module _ {W : Type 0} (con : Consul W) where
  -- The loop over the channel of the member's statuses; the error of an update is dropped.
  unfoldable pub member_task : Bytes → List (Outcome Bytes) → ConsulStore W → ConsulStore W
  member_task id [] c = c
  member_task id (health ∷ rest) c = member_task id rest (update_health_status con id health c).1

  -- The task does what its updates do in a run of the store.
  pub member_task-run :
      (id : Bytes) (statuses : List (Outcome Bytes)) (c : ConsulStore W)
      → member_task id statuses c ≡ run con (map (update id) statuses) c
  unfolding member_task run
  member_task-run id [] c = refl
  member_task-run id (health ∷ rest) c = member_task-run id rest _
