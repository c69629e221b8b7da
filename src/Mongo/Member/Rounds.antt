-- ===== src/Mongo/Member/Rounds.antt =====
-- What a round of `memberTask` does on each path.
use mongoctl.Prelude.{
  Bool, ◌&&◌, ◌≡◌, ◌≢◌, refl, arith, some, true, false, codes, str_eq, str_eq_self, str_eq-true,
  str_eq-false, ap, Outcome, ok, err, panic, Error, command_error, failure, inl, inr, ◌⊎◌,
}
use mongoctl.Mongo.Types.{MongoStatus, ReplSetConfig}
use mongoctl.Mongo.Spec.{MongoReplSetSpec}
use mongoctl.Mongo.Members.{parse_members}
use mongoctl.Mongo.Client.{Driver, repl_set_get_config, repl_set_reconfig}
use mongoctl.Mongo.Status.{MongoConfig, get_member_status, check_wipe_requirment}
use mongoctl.Mongo.Primary.{RangeOrder, values, config_primary}
use mongoctl.Mongo.Member.{Host, is_invalid, apply_spec, recover, after_status_error, member_round}

invalid : str_eq (codes "InvalidReplicaSetConfig") (codes "InvalidReplicaSetConfig") ≡ true
invalid = str_eq_self (codes "InvalidReplicaSetConfig")

and_false : (b : Bool) → (b && false) ≡ false
and_false true = refl
and_false false = refl

-- A member that is not the primary panics where its status cannot be read.
pub after_status_error-false :
    {W : Type 0} (d : Driver W) (h : Host W) (cfg : MongoConfig) (r r' r'' : RangeOrder)
    (spec : MongoReplSetSpec) (e : Error) (w : W)
    → after_status_error d h cfg r r' r'' false spec e w ≡ (panic, w)
unfolding after_status_error apply_spec
after_status_error-false d h cfg r r' r'' spec e w = rw (and_false (is_invalid d h cfg r r' r'' e))

module _ {W : Type 0} (d : Driver W) (h : Host W) (cfg : MongoConfig) (r r' r'' : RangeOrder)
    (spec : MongoReplSetSpec) (w w1 : W) where
  -- A member that is not the primary and need not be wiped does nothing beyond reading its status.
  pub secondary_rests :
      (status : MongoStatus)
      → get_member_status d cfg w ≡ (ok status, w1)
      → spec.primary ≢ cfg.node_name
      → check_wipe_requirment spec status ≡ false
      → member_round d h cfg r r' r'' spec w ≡ (ok tt, w1)
  unfolding member_round apply_spec
  secondary_rests status s n c = rw (str_eq-false n, s, c)

  -- A round of the primary whose status can be read, and whose `configPrimary` returns, ends well
  -- in the world that this leaves, whether it succeeds or gives an error: nothing is wiped.
  pub primary_configures :
      (status : MongoStatus) (w2 : W)
      → get_member_status d cfg w ≡ (ok status, w1)
      → spec.primary ≡ cfg.node_name
      → (config_primary d cfg.rs_name r r' spec status w1 ≡ (ok tt, w2))
        ⊎ ((e : Error) × (config_primary d cfg.rs_name r r' spec status w1 ≡ (err e, w2)))
      → member_round d h cfg r r' r'' spec w ≡ (ok tt, w2)
  unfolding member_round apply_spec
  primary_configures status w2 s n (inl c) = rw (str_eq-true n, s, c)
  primary_configures status w2 s n (inr (e, c)) = rw (str_eq-true n, s, c)

  -- A member whose status cannot be read panics, unless it is the primary and the server calls its
  -- configuration invalid.
  pub status_error_panics :
      (e : Error)
      → get_member_status d cfg w ≡ (err e, w1)
      → (spec.primary ≢ cfg.node_name) ⊎ (e ≢ command_error (codes "InvalidReplicaSetConfig"))
      → member_round d h cfg r r' r'' spec w ≡ (panic, w1)
  unfolding member_round after_status_error apply_spec
  status_error_panics (command_error name) s (inl n) = rw (str_eq-false n, s) (ground arith)
  status_error_panics (command_error name) s (inr n) =
      rw
        (
          s,
          str_eq-false {a = name} {b = codes "InvalidReplicaSetConfig"}
              (λ e. n (ap command_error e)),
        )
        (ground arith)
  status_error_panics (failure m) s n = rw s (ground arith)

  -- A primary whose configuration the server calls invalid, and hands over, panics if the forced
  -- reconfiguration succeeds, and goes on to the next round if it fails.
  pub recovery :
      (active : ReplSetConfig) (w2 w3 : W) (x : Outcome (Unit {0}))
      → get_member_status d cfg w ≡ (err (command_error (codes "InvalidReplicaSetConfig")), w1)
      → spec.primary ≡ cfg.node_name
      → repl_set_get_config d w1 ≡ (ok (some active), w2)
      → repl_set_reconfig d
          (record active.config { members = values (r''.visit (parse_members spec.members)) })
          w2
        ≡ (x, w3)
      → x ≢ panic
      → ((x ≡ ok tt) × (member_round d h cfg r r' r'' spec w ≡ (panic, w3)))
        ⊎ ((e : Error) × (x ≡ err e) × (member_round d h cfg r r' r'' spec w ≡ (ok tt, w3)))
  unfolding member_round after_status_error recover
  recovery active w2 w3 (ok u) s n g f np = inl (refl, rw (str_eq-true n, s, invalid, g, f))
  recovery active w2 w3 (err e) s n g f np = inr (e, refl, rw (str_eq-true n, s, invalid, g, f))
  recovery active w2 w3 panic s n g f np = absurd (np refl)
