-- ===== src/Store/Report.antt =====
-- internal/store/store.go: `PutCandidateReport`.
use mongoctl.Prelude.{
  true, false, Bool-cases, inl, inr, str_eq→≡, All, ℕ, zero, suc, List, [], ◌∷◌, ◌++◌, ◌≡◌, ◌≢◌,
  refl, Option, none, some, Bool, ◌&&◌, Bytes, codes, str_eq, str_eq_self, str_eq-false,
  if◌then◌else◌, Outcome, ok, err, Error, failure, Io, ◌>>=◌, ◌>>◌, pure, raise,
}
use mongoctl.Store.{KvPair, AgentCheck, Consul, ConsulStore, call}

unfoldable is_nomad_check : AgentCheck → Bool
is_nomad_check v =
    str_eq v.name (codes "Nomad Client HTTP Check") && str_eq v.status (codes "passing")

unfoldable pub find_check : List AgentCheck → Option Bytes
unfolding is_nomad_check
find_check [] = none
find_check (v ∷ vs) = let rest = find_check vs in if is_nomad_check v then some v.check_id else rest

-- Nomad's check of its client, passing.
abbrev pub IsPassing : AgentCheck → Type 0
IsPassing v = (v.name ≡ codes "Nomad Client HTTP Check") × (v.status ≡ codes "passing")

is_nomad_check-IsPassing : (v : AgentCheck) → IsPassing v → is_nomad_check v ≡ true
unfolding is_nomad_check str_eq
is_nomad_check-IsPassing v (named, passing) = rw (named, passing) refl

not_nomad_check : (v : AgentCheck) → ¬ IsPassing v → is_nomad_check v ≡ false
unfolding is_nomad_check
not_nomad_check v n = elim (Bool-cases (str_eq v.name (codes "Nomad Client HTTP Check"))) [
  | inl named ↦ elim (Bool-cases (str_eq v.status (codes "passing"))) [
    | inl passing ↦ absurd (n (str_eq→≡ _ _ named, str_eq→≡ _ _ passing))
    | inr other ↦ rw (named, other) refl
  ]
  | inr other ↦ rw other refl
]

pub find_check-none :
    (vs : List AgentCheck) → All (λ (v : AgentCheck). ¬ IsPassing v) vs → find_check vs ≡ none
unfolding find_check
find_check-none [] h = refl
find_check-none (v ∷ vs) (n, h) = rw (not_nomad_check v n) (find_check-none vs h)

pub find_check-first :
    (before : List AgentCheck) (v : AgentCheck) (after : List AgentCheck)
    → All (λ (u : AgentCheck). ¬ IsPassing u) before
    → IsPassing v
    → find_check (before ++ v ∷ after) ≡ some v.check_id
unfolding find_check
find_check-first [] v after h passing = rw (is_nomad_check-IsPassing v passing) refl
find_check-first (u ∷ before) v after (n, h) passing =
    rw (not_nomad_check u n) (find_check-first before v after h passing)

abbrev pub not_found : Error
not_found = failure (codes "Check not found")

abbrev or_again : {S : Type 0} → Option Bytes → Io S Bytes → Io S Bytes
or_again (some check) rest = if str_eq check [] then raise not_found else pure check
or_again none rest = rest

module _ {W : Type 0} (con : Consul W) where
  -- The loop over attempts; it sleeps between them. An empty identifier counts as none.
  unfoldable pub await_check : ℕ → Io (ConsulStore W) Bytes
  await_check zero = raise not_found
  await_check (suc n) = do
    checks ← call con.agent_checks
    or_again (find_check checks) (await_check n)

  unfoldable pub new_session : Bytes → Io (ConsulStore W) Bytes
  new_session session_name = do
    check ← await_check 5
    call (
        con.session_create (record { ttl = none; service_check = some check; name = session_name }))

  abbrev session_of : Option KvPair → Bytes
  session_of none = []
  session_of (some p) = p.session

  unfoldable pub report_key : ConsulStore W → Bytes → Bytes
  report_key c id = c.candidate_report_path ++ b'/' ∷ id

  abbrev pub session_name : ConsulStore W → Bytes → Bytes
  session_name c id = codes "repl-member-" ++ (c.candidate_report_path ++ b'-' ∷ id)

  unfoldable pub ensure_report_session : Bytes → Bytes → Io (ConsulStore W) Bytes
  unfolding new_session
  ensure_report_session name session = if str_eq session [] then new_session name else pure session

  -- The report comes marshalled, or with the error of that. Whether the key was taken is dropped.
  unfoldable pub put_candidate_report : Bytes → Outcome Bytes → Io (ConsulStore W) Unit
  put_candidate_report id report c =
      (do
        status_val ← call (con.kv_get (report_key c id))
        session ← ensure_report_session (session_name c id) (session_of status_val)
        status_str ← (λ s. (report, s))
        call (
            con.kv_acquire
              (record { key = report_key c id; session = session; value = status_str }))
        pure tt)
        c

  -- A report whose key is held by a session is written under that session, whether or not Consul
  -- grants the key: no check is read and no session is made.
  pub put_candidate_report_again :
      (id value : Bytes) (c : ConsulStore W) (w1 w2 : W) (p : KvPair) (granted : Bool)
      → con.kv_get (report_key c id) c.world ≡ (ok (some p), w1)
      → p.session ≢ []
      → con.kv_acquire (record { key = report_key c id; session = p.session; value = value }) w1
        ≡ (ok granted, w2)
      → put_candidate_report id (ok value) c ≡ (ok tt, record c { world = w2 })
  unfolding put_candidate_report ensure_report_session
  put_candidate_report_again id value c w1 w2 p granted g n a = rw (g, str_eq-false n, a)

  -- The agent never shows a passing check of Nomad's, and reading its checks changes nothing.
  abbrev pub NeverPasses : Type 0
  NeverPasses =
      (w : W) → (vs : List AgentCheck) × (con.agent_checks w ≡ (ok vs, w)) × (find_check vs ≡ none)

  await_check_exhausted :
      (n : ℕ) (c : ConsulStore W) → NeverPasses → await_check n c ≡ (err not_found, c)
  unfolding await_check
  await_check_exhausted zero c never = refl
  await_check_exhausted (suc n) c never =
      let (vs, seen, no_check) = never c.world in
      rw (seen, no_check) (await_check_exhausted n c never)

  -- While no agent check of Nomad's passes, a first report is refused, and neither a session nor a
  -- key is written.
  pub put_candidate_report_refused :
      (id value : Bytes) (c : ConsulStore W)
      → con.kv_get (report_key c id) c.world ≡ (ok none, c.world)
      → NeverPasses
      → put_candidate_report id (ok value) c ≡ (err not_found, c)
  unfolding put_candidate_report ensure_report_session new_session
  put_candidate_report_refused id value c g never =
      rw (g, str_eq_self [], await_check_exhausted 5 c never)
