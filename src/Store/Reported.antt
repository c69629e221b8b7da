-- ===== src/Store/Reported.antt =====
-- internal/replset/replica.go and internal/store/store.go: the first report of a member, from its
-- collection by `PreStartTask` to the key in the store.
use mongoctl.Prelude.{
  ◌++◌, All, ℕ, suc, List, [], ◌∷◌, ◌≡◌, ◌≢◌, refl, Option, none, some, true, Bytes, str_eq_self,
  str_eq-false, Outcome, ok, Io,
}
use mongoctl.Store.{KvPair, AgentCheck, Consul, ConsulStore}
use mongoctl.Store.Report.{
  IsPassing, find_check-none, find_check-first, await_check, new_session, ensure_report_session,
  report_key, session_name, put_candidate_report,
}
use mongoctl.Store.Watch.{items}
use mongoctl.Store.Tasks.{pre_start_task}

module _ {W : Type 0} (con : Consul W) where
  -- Within so many readings of the agent's checks Nomad's check of its client is seen to pass, for
  -- the first time, under this identifier.
  pub data Appears : ℕ → W → Bytes → W → Type 0 where
    now :
        {n : ℕ} {w w' : W} {check : Bytes} (before after : List AgentCheck) (v : AgentCheck)
        → con.agent_checks w ≡ (ok (before ++ v ∷ after), w')
        → All (λ (u : AgentCheck). ¬ IsPassing u) before
        → IsPassing v
        → v.check_id ≡ check
        → check ≢ []
        → Appears (suc n) w check w'
    later :
        {n : ℕ} {w w1 w' : W} {check : Bytes} (vs : List AgentCheck)
        → con.agent_checks w ≡ (ok vs, w1)
        → All (λ (v : AgentCheck). ¬ IsPassing v) vs
        → Appears n w1 check w'
        → Appears (suc n) w check w'

  await_check-Appears :
      {n : ℕ} {check : Bytes} {w w' : W} (c : ConsulStore W)
      → Appears n w check w'
      → c.world ≡ w
      → await_check con n c ≡ (ok check, record c { world = w' })
  unfolding await_check
  await_check-Appears c (now before after v seen failing passing same full) e =
      let found = find_check-first before v after failing passing in
      rw (e, seen, found, same, str_eq-false full)
  await_check-Appears c (later {w1} vs seen failing rest) e =
      rw (e, seen, find_check-none vs failing)
        (await_check-Appears (record c { world = w1 }) rest refl)

module _ {W C : Type 0} (con : Consul W) (collect : Io W C) (marshal : C → Outcome Bytes)
    (unmarshal : Bytes → Option C)
    -- A key that a session was granted is read as it was put.
    (acquired : (p : KvPair) (w w' : W)
      → con.kv_acquire p w ≡ (ok true, w')
      → con.kv_get p.key w' ≡ (ok (some p), w')) where
  -- A member whose key is not in the store, whose report is collected, marshalled and unmarshals to
  -- itself, and whose agent shows a passing check of Nomad's within five readings: where a session
  -- on that check is made and granted the key, `PreStartTask` succeeds; the key is held by that
  -- session, and what a watcher lists of it is the report.
  pub first_report :
      (id : Bytes) (c : ConsulStore W) (res : C) (value check session : Bytes) (w1 w2 w3 w4 w5 : W)
      → collect c.world ≡ (ok res, w1)
      → marshal res ≡ ok value
      → unmarshal value ≡ some res
      → con.kv_get (report_key con c id) w1 ≡ (ok none, w2)
      → Appears con 5 w2 check w3
      → con.session_create
          (record { ttl = none; service_check = some check; name = session_name con c id })
          w3
        ≡ (ok session, w4)
      → con.kv_acquire (record { key = report_key con c id; session = session; value = value }) w4
        ≡ (ok true, w5)
      → (pre_start_task con collect marshal id c ≡ (ok tt, record c { world = w5 }))
        × (p : KvPair) × (con.kv_get (report_key con c id) w5 ≡ (ok (some p), w5))
        × (p.session ≡ session)
        × (items unmarshal (p ∷ []) ≡ res ∷ [])
  unfolding pre_start_task put_candidate_report ensure_report_session new_session report_key items
  first_report id c res value check session w1 w2 w3 w4 w5 read put back missing appears made
        granted =
      let p : KvPair = record { key = report_key con c id; session = session; value = value } in
      (
        rw (
          read,
          put,
          missing,
          str_eq_self [],
          await_check-Appears con (record c { world = w2 }) appears refl,
          made,
          granted,
        ),
        p,
        acquired p w4 w5 granted,
        refl,
        rw back,
      )
