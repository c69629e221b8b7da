-- ===== src/Store/Renewal.antt =====
-- The session of the health status: made once, and renewed only while its first loop lives.
use mathlib.Core.Path.{subst}
use mongoctl.Prelude.{
  List, [], ◌∷◌, ◌≡◌, ◌≢◌, refl, sym, arith, none, some, true, false, Bytes, codes, str_eq,
  str_eq_self, str_eq-false, Outcome, ok, err, Error,
}
use mongoctl.Store.{Consul, ConsulStore}
use mongoctl.Store.Health.{
  ensure_session, seconds_str, start_renew_loop, renew_tick, health_name, begin_renewal,
  update_health_status,
}

-- What happens to the store of a member: an update, with its identifier and marshalled status, or a
-- tick of the renewal.
pub data Event : Type 0 where
  update : Bytes → Outcome Bytes → Event
  tick : Event

-- The renewal was started once, and does not run.
pub record IsUnrenewed {W : Type 0} (c : ConsulStore W) : Type 0 where
  pub begun : c.renew_started ≡ true
  pub ended : c.renewing ≡ false

module _ {W : Type 0} (con : Consul W) where
  react : Event → ConsulStore W → ConsulStore W
  react (update id status) c = (update_health_status con id status c).1
  react tick c = renew_tick con c

  unfoldable pub run : List Event → ConsulStore W → ConsulStore W
  unfolding react
  run [] c = c
  run (ev ∷ events) c = run events (react ev c)

  ensure_session-IsUnrenewed :
      (ttl name : Bytes) (c : ConsulStore W)
      → IsUnrenewed c
      → IsUnrenewed (ensure_session con ttl name c).1
  unfolding ensure_session
  ensure_session-IsUnrenewed ttl name c h = ground arith

  react-IsUnrenewed : (ev : Event) (c : ConsulStore W) → IsUnrenewed c → IsUnrenewed (react ev c)
  unfolding react update_health_status renew_tick
  react-IsUnrenewed (update id status) c h = ground arith
  react-IsUnrenewed tick c h = ground arith

  -- A renewal that has ended is never taken up again: no update starts another.
  pub run-IsUnrenewed :
      (events : List Event) (c : ConsulStore W) → IsUnrenewed c → IsUnrenewed (run events c)
  unfolding run
  run-IsUnrenewed [] c h = h
  run-IsUnrenewed (ev ∷ events) c h = run-IsUnrenewed events (react ev c) (react-IsUnrenewed ev c h)

  -- A session that is kept is used again: nothing is asked of Consul.
  pub ensure_session_again :
      (ttl name ttl' name' sid : Bytes) (c : ConsulStore W) (w : W)
      → c.session_id ≡ []
      → sid ≢ []
      → con.session_create (record { ttl = some ttl; service_check = none; name = name }) c.world
        ≡ (ok sid, w)
      → (c' : ConsulStore W) × (ensure_session con ttl name c ≡ (ok sid, c'))
        × (ensure_session con ttl' name' c' ≡ (ok sid, c'))
  unfolding ensure_session
  ensure_session_again ttl name ttl' name' sid c w none_yet ne made = (
    record c { world = w; session_id = sid },
    rw (none_yet, str_eq_self [], made),
    rw (str_eq-false ne),
  )

  refused_update :
      (id value sid : Bytes) (c : ConsulStore W) (w1 w2 w3 : W) (x : Error)
      → c.session_id ≡ []
      → c.renew_started ≡ false
      → c.renewing ≡ false
      → con.session_create
          (record {
            ttl = some (seconds_str 6);
            service_check = none;
            name = health_name (con.join_path c.health_status_path id);
          })
          c.world
        ≡ (err x, w1)
      → con.session_create
          (record {
            ttl = some (codes "10s");
            service_check = none;
            name = health_name (con.join_path c.health_status_path id);
          })
          w1
        ≡ (ok sid, w2)
      → con.kv_put
          (record { key = con.join_path c.health_status_path id; value = value; session = sid })
          w2
        ≡ (ok tt, w3)
      → update_health_status con id (ok value) c
        ≡ (ok tt, record c { world = w3; session_id = sid; renew_started = true })
  unfolding update_health_status begin_renewal start_renew_loop ensure_session str_eq
  refused_update id value sid c w1 w2 w3 x s b r first second put =
      rw (b, s, str_eq_self [], first, second, put)

  -- Where Consul refuses a session of the renewal's length and grants one of ten seconds, the first
  -- update succeeds: it ends in the world that the put of the status leaves, and keeps the session,
  -- which no update and no tick renews, whatever comes after.
  pub refused_renewal :
      (id value sid : Bytes) (c : ConsulStore W) (w1 w2 w3 : W) (x : Error) (events : List Event)
      → c.session_id ≡ []
      → c.renew_started ≡ false
      → c.renewing ≡ false
      → con.session_create
          (record {
            ttl = some (seconds_str 6);
            service_check = none;
            name = health_name (con.join_path c.health_status_path id);
          })
          c.world
        ≡ (err x, w1)
      → con.session_create
          (record {
            ttl = some (codes "10s");
            service_check = none;
            name = health_name (con.join_path c.health_status_path id);
          })
          w1
        ≡ (ok sid, w2)
      → con.kv_put
          (record { key = con.join_path c.health_status_path id; value = value; session = sid })
          w2
        ≡ (ok tt, w3)
      → (update_health_status con id (ok value) c
          ≡ (ok tt, record c { world = w3; session_id = sid; renew_started = true }))
        × IsUnrenewed (run events (update_health_status con id (ok value) c).1)
  refused_renewal id value sid c w1 w2 w3 x events s b r first second put =
      let done = refused_update id value sid c w1 w2 w3 x s b r first second put in
      (
        done,
        run-IsUnrenewed events _ (
            subst (λ (y : Outcome (Unit {0}) × ConsulStore W). IsUnrenewed y.1) (sym done)
              (record { begun = refl; ended = r })),
      )
