-- ===== src/Store/Health.antt =====
-- internal/store/store.go: `UpdateHealthStatus`, `ensureSession` and `StartRenewLoop`.
use mongoctl.Prelude.{
  ℕ, [], ◌∷◌, ◌++◌, none, some, true, false, Bytes, codes, str_eq, if◌then◌else◌, Outcome, ok, err,
  panic, Io, ◌>>=◌, ◌>>◌, pure, handle, pos,
}
use mongoctl.Text.Decimal.{format_int}
use mongoctl.Store.{Consul, ConsulStore, call}

-- `fmt.Sprintf("%ds", …)`, of the seconds between renewals twice.
abbrev pub seconds_str : ℕ → Bytes
seconds_str n = format_int (pos n) ++ b's' ∷ []

abbrev pub health_name : Bytes → Bytes
health_name key = codes "health-" ++ key

module _ {W : Type 0} (con : Consul W) where
  abbrev pub keep_session : Bytes → Io (ConsulStore W) Bytes
  keep_session sid c = (ok sid, record c { session_id = sid })

  unfoldable pub ensure_session : Bytes → Bytes → Io (ConsulStore W) Bytes
  ensure_session ttl name c =
      if str_eq c.session_id []
      then (do
        sid ←
            call (con.session_create (record { ttl = some ttl; service_check = none; name = name }))
        keep_session sid)
          c
      else (ok c.session_id, c)

  abbrev go_renew : Io (ConsulStore W) Unit
  go_renew c = (ok tt, record c { renewing = true })

  unfoldable pub start_renew_loop : ℕ → Bytes → Io (ConsulStore W) Unit
  unfolding ensure_session
  start_renew_loop ttl name = do ensure_session (seconds_str ttl) name; go_renew

  -- A tick of the goroutine: a session that cannot be renewed is forgotten, and the loop ends.
  unfoldable pub renew_tick : ConsulStore W → ConsulStore W
  renew_tick c =
      if c.renewing
      then (let (r, w) = con.session_renew c.session_id c.world in
          elim r [
            | ok _ ↦ record c { world = w }
            | err e ↦ record c { world = w; session_id = []; renewing = false }
            | panic ↦ record c { world = w }
          ])
      else c

  -- The first time; the error of `StartRenewLoop` is dropped.
  unfoldable pub begin_renewal : Bytes → Io (ConsulStore W) Unit
  unfolding start_renew_loop
  begin_renewal key c =
      if c.renew_started
      then (ok tt, c)
      else (let (r, c') = start_renew_loop 6 (health_name key) c in
          handle r (λ e. pure tt) pure (record c' { renew_started = true }))

  abbrev put_health : Bytes → Outcome Bytes → Io (ConsulStore W) Unit
  put_health key status = do
    value ← (λ s. (status, s))
    sid ← ensure_session (codes "10s") (health_name key)
    call (con.kv_put (record { key = key; value = value; session = sid }))

  -- The status comes marshalled, or with the error of that.
  unfoldable pub update_health_status : Bytes → Outcome Bytes → Io (ConsulStore W) Unit
  unfolding begin_renewal ensure_session
  update_health_status id status c =
      let key = con.join_path c.health_status_path id in
      (do begin_renewal key; put_health key status) c
