-- ===== src/Mongo/Run/Wiped.antt =====
-- What a wipe does to the member that makes it.
use mongoctl.Prelude.{
  ℕ, ◌<◌, [], ◌∷◌, ◌≡◌, ◌≢◌, refl, true, false, inl, inr, Outcome, ok, err, panic, str_eq-false,
  lt→ltb, Bool-cases,
}
use mongoctl.Mongo.Types.{MongoStatus}
use mongoctl.Mongo.Spec.{MongoReplSetSpec}
use mongoctl.Mongo.Client.{Driver}
use mongoctl.Mongo.Status.{MongoConfig, get_member_status, check_wipe_requirment}
use mongoctl.Mongo.Primary.{RangeOrder}
use mongoctl.Mongo.Member.{Host, rebuild, apply_spec, member_round}
use mongoctl.Mongo.Run.Keeping.{HostKeeps, rebuild-Keeps}
use mongoctl.Mongo.Run.{spec, exit, Task, panics, on_spec, on_exit, react, run}

module _ {W : Type 0} (h : Host W) (exits : W → ℕ)
    -- No call of a wipe takes back the exits that were seen.
    (lasting : HostKeeps h (λ w. 0 < exits w)) where
  module _ (d : Driver W) (cfg : MongoConfig) (r r' r'' : RangeOrder) where
    -- After the round the loop takes the notice, unless the round has ended the task.
    ended_by :
        (t : Task W) (x : Outcome Unit) (w2 : W)
        → t.ended ≡ false
        → 0 < exits w2
        → (react d h cfg r r' r'' exits exit (record t { ended = panics x; world = w2 })).ended
          ≡ true
    unfolding react on_exit
    ended_by t (ok u) w2 n seen = lt→ltb 0 (exits w2) seen
    ended_by t (err e) w2 n seen = lt→ltb 0 (exits w2) seen
    ended_by t panic w2 n seen = refl

    -- A member that is not the primary, and that a specification has wiped, does not outlive it:
    -- if `OnExit` sees the exit of the mongod that is shut down, the member has ended by a panic
    -- once it takes that notice, whether its wipe succeeded or not.
    pub wiped_member_ends :
        (s : MongoReplSetSpec) (t : Task W) (status : MongoStatus) (w1 : W)
        → get_member_status d cfg t.world ≡ (ok status, w1)
        → s.primary ≢ cfg.node_name
        → check_wipe_requirment s status ≡ true
        → 0 < exits (h.shutdown 10 w1)
        → (run d h cfg r r' r'' exits (spec s ∷ exit ∷ []) t).ended ≡ true
    unfolding run react on_spec on_exit member_round apply_spec
    wiped_member_ends s t status w1 read other wipe seen = elim (Bool-cases t.ended) [
      | inl y ↦ rw y
      | inr n ↦
          rw (n, read, str_eq-false other, wipe)
            (ended_by t (rebuild d h cfg r r' r'' w1).0 (rebuild d h cfg r r' r'' w1).1 n
              (rebuild-Keeps h (λ w. 0 < exits w) lasting d cfg r r' r'' w1 seen))
    ]
