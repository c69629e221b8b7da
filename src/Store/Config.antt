-- ===== src/Store/Config.antt =====
-- internal/store/store.go: `UpdateReplSetConfig`, and what the watcher of the configuration makes
-- of it.
use mongoctl.Prelude.{
  ℕ, [], ◌∷◌, ◌++◌, ◌≡◌, ◌≢◌, refl, Option, some, Bytes, Outcome, ok, err, panic, Io, ◌>>=◌,
}
use mongoctl.Store.{KvPair, Consul, ConsulStore, call}
use mongoctl.Store.Watch.{Reply, Watcher, round, configured, Poll, round-sent}

abbrev config_pair : {W : Type 0} → ConsulStore W → Bytes → KvPair
config_pair c value = record { key = c.repl_set_config_path; value = value; session = [] }

abbrev reply_of : Option ℕ → Outcome (Option KvPair) → Outcome (Reply (Option KvPair))
reply_of index (ok p) = ok (record { found = p; last_index = index })
reply_of index (err e) = err e
reply_of index panic = panic

module _ {W : Type 0} (con : Consul W) where
  -- The configuration comes marshalled, or with the error of that. The key is held by no session.
  unfoldable pub update_repl_set_config : Outcome Bytes → Io (ConsulStore W) Unit
  update_repl_set_config cfg c =
      (do value ← (λ s. (cfg, s)); call (con.kv_put (config_pair c value))) c

  -- The answer to a query of the watcher, with the index of its meta data.
  unfoldable pub poll_config : Option ℕ → ConsulStore W → Outcome (Reply (Option KvPair))
  poll_config index c = reply_of index (con.kv_get c.repl_set_config_path c.world).0

  module _ {A : Type 0} (marshal : A → Bytes) (unmarshal : Bytes → Option A) where
    -- Where Consul gives back the value that was put, a configuration that was published without an error is
    -- what the watcher sends next, after all that it has sent before.
    pub published_is_watched :
        (a : A) (index : Option ℕ) (c : ConsulStore W) (w : W) (watcher : Watcher A)
        → ((b : A) → marshal b ≢ [])
        → ((b : A) → unmarshal (marshal b) ≡ some b)
        → ((p : KvPair) (v v' : W)
            → con.kv_put p v ≡ (ok tt, v')
            → (q : KvPair) × ((con.kv_get p.key v').0 ≡ ok (some q)) × (q.value ≡ p.value))
        → con.kv_put (config_pair c (marshal a)) c.world ≡ (ok tt, w)
        → let (r, c') = update_repl_set_config (ok (marshal a)) c in
          (r ≡ ok tt)
          × ((round (configured unmarshal) (poll_config index c') watcher).sent
              ≡ watcher.sent ++ (a ∷ []))
    unfolding update_repl_set_config poll_config
    published_is_watched a index c w watcher full back kept put =
        let (q, here, value) = kept (config_pair c (marshal a)) c.world w put in
        rw put (
          refl,
          rw (poll_config, here)
              (round-sent unmarshal marshal full back (Poll.written index q a value) watcher),
        )
