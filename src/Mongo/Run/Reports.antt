-- ===== src/Mongo/Run/Reports.antt =====
-- What a member publishes of itself.
use mongoctl.Prelude.{
  ℕ, [], ◌∷◌, ◌++◌, ◌≡◌, ◌≢◌, ◌↔◌, ◌⊎◌, refl, true, false, Bool-cases, inl, inr, Outcome,
  append-nil, codes, str_eq, ok, err, panic, Error, failure, command_error,
}
use mongoctl.Mongo.Types.{ReplSetStatus, status_primary, status_secondary, status_arbiter}
use mongoctl.Mongo.Health.{MongoHealthStatus, health_of, is_healthy, is_healthy-health_of}
use mongoctl.Mongo.Client.{Driver, repl_set_get_status, or_nil}
use mongoctl.Mongo.Status.{MongoConfig}
use mongoctl.Mongo.Primary.{RangeOrder}
use mongoctl.Mongo.Member.{Host}
use mongoctl.Mongo.Run.{panics, tick, Task, reported, react}

quiet :
    (cfg : MongoConfig) (e : Error)
    → (reported cfg (or_nil (err e)) ≡ []) × (panics (or_nil {A = ReplSetStatus} (err e)) ≡ false)
unfolding or_nil
quiet cfg (command_error name) = elim (Bool-cases (str_eq name (codes "NoReplicationEnabled"))) [
  | inl y ↦ rw y (refl, refl)
  | inr n ↦ rw n (elim (Bool-cases (str_eq name (codes "NotYetInitialized"))) [
    | inl y ↦ rw y (refl, refl)
    | inr n' ↦ rw n' (refl, refl)
  ])
]
quiet cfg (failure m) = (refl, refl)

module _ {W : Type 0} (d : Driver W) (h : Host W) (cfg : MongoConfig) (r r' r'' : RangeOrder)
    (exits : W → ℕ) (t : Task W) (running : t.ended ≡ false) where
  told :
      (status : ReplSetStatus) (w' : W)
      → d.run_get_status t.world ≡ (ok status, w')
      → react d h cfg r r' r'' exits tick t ≡ record t {
        sent = t.sent ++ health_of cfg.node_id cfg.node_name status.my_state ∷ [];
        world = w';
      }
  unfolding react repl_set_get_status or_nil
  told status w' read = rw (running, read)

  quiet_tick :
      (e : Error) (w' : W)
      → d.run_get_status t.world ≡ (err e, w')
      → react d h cfg r r' r'' exits tick t ≡ record t { world = w' }
  unfolding react repl_set_get_status
  quiet_tick e w' read =
      let (none_sent, goes_on) = quiet cfg e in
      rw (running, read, none_sent, goes_on, append-nil t.sent)

  -- A tick of a running member, whose server answers or fails: on a failure it publishes nothing,
  -- and goes on. On an answer it publishes one status after those before, under the member's own
  -- name, which is healthy exactly where the state of the server is primary, secondary or arbiter.
  pub tick_reports :
      (x : Outcome ReplSetStatus) (w' : W)
      → d.run_get_status t.world ≡ (x, w')
      → x ≢ panic
      → ((e : Error) × (x ≡ err e)
          × (react d h cfg r r' r'' exits tick t ≡ record t { world = w' }))
        ⊎ ((status : ReplSetStatus) × (s : MongoHealthStatus) × (x ≡ ok status)
            × (react d h cfg r r' r'' exits tick t
                ≡ record t { sent = t.sent ++ s ∷ []; world = w' })
            × (s.node_name ≡ cfg.node_name)
            × ((is_healthy s ≡ true) ↔ (
                (status.my_state ≡ status_primary)
                ⊎ (status.my_state ≡ status_secondary)
                ⊎ (status.my_state ≡ status_arbiter))))
  tick_reports (err e) w' read n = inl (e, refl, quiet_tick e w' read)
  tick_reports (ok status) w' read n = inr (
    status,
    health_of cfg.node_id cfg.node_name status.my_state,
    refl,
    told status w' read,
    unfold health_of in refl,
    is_healthy-health_of cfg.node_id cfg.node_name status.my_state,
  )
  tick_reports panic w' read n = absurd (n refl)
