-- ===== src/Store/Watch.antt =====
-- internal/store/store.go: the goroutines of `WatchCandidateReports`, `WatchHealthStatus` and
-- `WatchReplSetConfig`, as steps on the replies of Consul to their blocking queries.
use mongoctl.Prelude.{
  ℕ, List, [], ◌∷◌, ◌++◌, map, ◌≡◌, ◌≢◌, refl, sym, ◌∙◌, ap, Option, none, some, Bytes, str_eq,
  str_eq_self, str_eq-false, Outcome, ok, err, panic, Error, if◌then◌else◌, append_assoc,
  append-nil,
}
use mongoctl.Store.{KvPair}

-- What a query brings, with the index of its meta data, where there is any.
pub record Reply (X : Type 0) : Type 0 where
  pub found : X
  pub last_index : Option ℕ

-- A watcher: the index that it waits for, the indices it has asked with, and what it has sent.
pub record Watcher (A : Type 0) : Type 0 where
  pub last_idx : ℕ
  pub asked : List ℕ
  pub sent : List A

abbrev pub watcher : {A : Type 0} → Watcher A
watcher = record { last_idx = 0; asked = []; sent = [] }

abbrev pub next_idx : Option ℕ → ℕ → ℕ
next_idx none i = i
next_idx (some j) i = j

module _ {A : Type 0} where
  abbrev pub send : Option A → List A → List A
  send none out = out
  send (some a) out = out ++ (a ∷ [])

module _ {X A : Type 0} where
  -- A round of the loop: after an error it asks again with the same index.
  unfoldable pub round : (X → Option A) → Outcome (Reply X) → Watcher A → Watcher A
  round f (ok r) w = record {
    last_idx = next_idx r.last_index w.last_idx;
    asked = w.asked ++ (w.last_idx ∷ []);
    sent = send (f r.found) w.sent;
  }
  round f (err e) w = record w { asked = w.asked ++ (w.last_idx ∷ []) }
  round f panic w = record w { asked = w.asked ++ (w.last_idx ∷ []) }

  unfoldable pub watch : (X → Option A) → List (Outcome (Reply X)) → Watcher A → Watcher A
  watch f [] w = w
  watch f (r ∷ rs) w = watch f rs (round f r w)

module _ {A : Type 0} (unmarshal : Bytes → Option A) where
  keep : Option A → List A → List A
  keep none rest = rest
  keep (some a) rest = a ∷ rest

  -- The values that unmarshal; the others are passed over.
  unfoldable pub items : List KvPair → List A
  unfolding keep
  items [] = []
  items (p ∷ ps) = keep (unmarshal p.value) (items ps)

  -- The watchers of the reports and of the health send after every answer.
  unfoldable pub listed : List KvPair → Option (List A)
  listed pairs = some (items pairs)

  -- The watcher of the configuration sends only a value that is there, not empty, and unmarshals.
  unfoldable pub configured : Option KvPair → Option A
  configured none = none
  configured (some p) = if str_eq p.value [] then none else unmarshal p.value

  -- What a poll for the configuration comes to, when the values are written by `marshal`.
  pub data Poll (marshal : A → Bytes) : Outcome (Reply (Option KvPair)) → List A → Type 0 where
    refused : (e : Error) → Poll marshal (err e) []
    missing : (i : Option ℕ) → Poll marshal (ok (record { found = none; last_index = i })) []
    blank :
        (i : Option ℕ) (p : KvPair)
        → p.value ≡ []
        → Poll marshal (ok (record { found = some p; last_index = i })) []
    malformed :
        (i : Option ℕ) (p : KvPair)
        → p.value ≢ []
        → unmarshal p.value ≡ none
        → Poll marshal (ok (record { found = some p; last_index = i })) []
    written :
        (i : Option ℕ) (p : KvPair) (a : A)
        → p.value ≡ marshal a
        → Poll marshal (ok (record { found = some p; last_index = i })) (a ∷ [])

  pub data Polls (marshal : A → Bytes)
      : List (Outcome (Reply (Option KvPair))) → List A → Type 0 where
    done : Polls marshal [] []
    poll :
        {r : Outcome (Reply (Option KvPair))} {rs : List (Outcome (Reply (Option KvPair)))}
        {xs ys : List A}
        → Poll marshal r xs
        → Polls marshal rs ys
        → Polls marshal (r ∷ rs) (xs ++ ys)

  module _ (marshal : A → Bytes) where
    pub round-sent :
        {r : Outcome (Reply (Option KvPair))} {xs : List A}
        → ((a : A) → marshal a ≢ [])
        → ((a : A) → unmarshal (marshal a) ≡ some a)
        → Poll marshal r xs
        → (w : Watcher A) → (round configured r w).sent ≡ w.sent ++ xs
    unfolding round configured
    round-sent full back (refused e) w = sym (append-nil w.sent)
    round-sent full back (missing i) w = sym (append-nil w.sent)
    round-sent full back (blank i p q) w = rw (q, str_eq_self []) (sym (append-nil w.sent))
    round-sent full back (malformed i p n q) w = rw (str_eq-false n, q) (sym (append-nil w.sent))
    round-sent full back (written i p a q) w = rw (q, str_eq-false (full a), back a)

    sent_from :
        {rs : List (Outcome (Reply (Option KvPair)))} {ys : List A}
        → ((a : A) → marshal a ≢ [])
        → ((a : A) → unmarshal (marshal a) ≡ some a)
        → Polls marshal rs ys
        → (w : Watcher A) → (watch configured rs w).sent ≡ w.sent ++ ys
    unfolding watch
    sent_from full back done w = sym (append-nil w.sent)
    sent_from full back (poll {r} {rs} {xs} {ys} p ps) w =
        sent_from full back ps (round configured r w)
        ∙ ap (λ z. z ++ ys) (round-sent full back p w)
        ∙ append_assoc w.sent xs ys

    -- Where what is marshalled is not empty and unmarshals to itself, the configurations that a
    -- watcher sends are those that were written, in that order, whatever errors, missing keys,
    -- empty and malformed values come between.
    pub watched_configurations :
        {rs : List (Outcome (Reply (Option KvPair)))} {ys : List A}
        → ((a : A) → marshal a ≢ [])
        → ((a : A) → unmarshal (marshal a) ≡ some a)
        → Polls marshal rs ys
        → (watch configured rs watcher).sent ≡ ys
    watched_configurations full back ps = sent_from full back ps watcher

  -- What a listing holds, when its values are written by `marshal`; some pairs may be malformed.
  pub data Listing (marshal : A → Bytes) : List KvPair → List A → Type 0 where
    end : Listing marshal [] []
    unreadable :
        {ps : List KvPair} {xs : List A} (p : KvPair)
        → unmarshal p.value ≡ none
        → Listing marshal ps xs
        → Listing marshal (p ∷ ps) xs
    stored :
        {ps : List KvPair} {xs : List A} (p : KvPair) (a : A)
        → p.value ≡ marshal a
        → Listing marshal ps xs
        → Listing marshal (p ∷ ps) (a ∷ xs)

  module _ (marshal : A → Bytes) where
    items-Listing :
        {ps : List KvPair} {xs : List A}
        → ((a : A) → unmarshal (marshal a) ≡ some a)
        → Listing marshal ps xs
        → items ps ≡ xs
    unfolding items
    items-Listing back end = refl
    items-Listing back (unreadable p q l) = rw q (items-Listing back l)
    items-Listing back (stored p a q l) = rw (q, back a) (ap (λ ys. a ∷ ys) (items-Listing back l))

    listed_after_errors :
        {ps : List KvPair} {xs : List A} (errors : List Error) (index : Option ℕ)
        (w : Watcher (List A))
        → ((a : A) → unmarshal (marshal a) ≡ some a)
        → Listing marshal ps xs
        → let after =
            watch listed
              (map err errors ++ (ok (record { found = ps; last_index = index }) ∷ []))
              w in
          (after.sent ≡ w.sent ++ (xs ∷ [])) × (after.last_idx ≡ next_idx index w.last_idx)
    unfolding watch round listed
    listed_after_errors [] index w back l = (rw (items-Listing back l) refl, refl)
    listed_after_errors (e ∷ errors) index w back l =
        listed_after_errors errors index (round listed (err e) w) back l

    -- Where what is marshalled unmarshals to itself, after any number of errors the first listing
    -- is sent whole: the values that were stored, in the listing's order, less the malformed ones;
    -- the next query waits for its index.
    pub watched_listing :
        {ps : List KvPair} {xs : List A} (errors : List Error) (index : Option ℕ)
        → ((a : A) → unmarshal (marshal a) ≡ some a)
        → Listing marshal ps xs
        → let after =
            watch listed
              (map err errors ++ (ok (record { found = ps; last_index = index }) ∷ []))
              watcher in
          (after.sent ≡ xs ∷ []) × (after.last_idx ≡ next_idx index 0)
    watched_listing errors index back l = listed_after_errors errors index watcher back l
