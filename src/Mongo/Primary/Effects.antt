-- ===== src/Mongo/Primary/Effects.antt =====
-- What the primary sends to its server, and that a configuration which it sent needs no other.
use mathlib.Core.Path.{subst}
use mongoctl.Prelude.{
  List, [], ◌∷◌, ◌++◌, map, ◌≡◌, ◌≢◌, refl, ◌∙◌, false, some, ok, All, length, Bytes, str_eq_iff,
  str_eq_self, arith, lt→ltb, suc, ok-injective,
}
use mongoctl.Text.Parts.{split}
use mongoctl.Mongo.Types.{MongoStatus, Member, ReplSetConfig}
use mongoctl.Mongo.Report.{MongoCandidateReport}
use mongoctl.Mongo.Spec.{MongoReplSetSpec, member_str, generate_repl_config}
use mongoctl.Mongo.Spec.Names.{IsPrintable, split-member_str, split-members}
use mongoctl.Mongo.Members.{parse_members}
use mongoctl.Mongo.Members.Printed.{member_of}
use mongoctl.Mongo.Client.{
  Driver, incr64, repl_set_get_config, repl_set_initiate, add_member, or_nil,
}
use mongoctl.Mongo.Primary.{
  RangeOrder, member_of_tokens, member_list, has_stale_config, initiate, reconcile, config_primary,
}

member_list-map :
    (cs : List MongoCandidateReport)
    → All IsPrintable cs
    → member_list (map member_str cs) ≡ some (map member_of cs)
unfolding member_list member_of_tokens
member_list-map [] h = refl
member_list-map (c ∷ cs) (h, hs) = rw (split-member_str c h, member_list-map cs hs)

-- Every list of members that a spec's generation prints can be read: `configPrimary` does not panic
-- on its tokens.
pub member_list-generate_repl_config :
    (cs : List MongoCandidateReport) {spec : MongoReplSetSpec}
    → All IsPrintable cs
    → generate_repl_config cs ≡ ok spec
    → member_list (split b',' spec.members) ≡ some (map member_of cs)
unfolding generate_repl_config
member_list-generate_repl_config [] h e = cc
member_list-generate_repl_config (c ∷ cs) h e =
    subst
      (λ (s : MongoReplSetSpec). member_list (split b',' s.members) ≡ some (map member_of (c ∷ cs)))
      (ok-injective e) (rw (split-members c cs h) (member_list-map (c ∷ cs) h))

has_stale_config-nil :
    (spec : MongoReplSetSpec) (status : MongoStatus)
    → spec.repl_set_id ≡ []
    → has_stale_config spec status ≡ false
unfolding has_stale_config
has_stale_config-nil spec status h =
    ground (arith, str_eq_iff status.repl_set_id [], str_eq_iff spec.repl_set_id [])

module _ {W : Type 0} (d : Driver W) (rs_name : Bytes) (r r' : RangeOrder) where
  config_primary_fresh :
      (spec : MongoReplSetSpec) (status : MongoStatus) (ms : List Member) (w : W)
      → member_list (split b',' spec.members) ≡ some ms
      → status.repl_set_name ≡ []
      → spec.repl_set_id ≡ []
      → config_primary d rs_name r r' spec status w ≡ initiate d rs_name ms w
  unfolding config_primary
  config_primary_fresh spec status ms w e hn hi =
      rw (e, has_stale_config-nil spec status hi, hn, str_eq_self [])

  initiate_two :
      (m m' : Member) (ms : List Member) (w w1 w2 w3 : W) (active : ReplSetConfig)
      → d.run_initiate rs_name (m ∷ []) w ≡ (ok tt, w1)
      → d.run_get_config w1 ≡ (ok active, w2)
      → d.run_reconfig
          (record active.config {
            members = active.config.members ++ m' ∷ ms;
            version = incr64 active.config.version;
          })
          w2
        ≡ (ok tt, w3)
      → initiate d rs_name (m ∷ m' ∷ ms) w ≡ (ok tt, w3)
  unfolding initiate repl_set_initiate add_member repl_set_get_config or_nil
  initiate_two m m' ms w w1 w2 w3 active i g f =
      rw (i, lt→ltb 1 (suc (suc (length ms))) (omega arith), g, f)

  -- On a member that is in no replica set, and a spec of two candidates or more with plain texts
  -- that names no set, the primary initiates the set with the first candidate alone, and then adds
  -- the others, in order, to the configuration that the server reports, under the next version,
  -- where these calls succeed.
  pub config_primary_initiates :
      (c c' : MongoCandidateReport) (cs : List MongoCandidateReport) (spec : MongoReplSetSpec)
      (status : MongoStatus) (w w1 w2 w3 : W) (active : ReplSetConfig)
      → All IsPrintable (c ∷ c' ∷ cs)
      → generate_repl_config (c ∷ c' ∷ cs) ≡ ok spec
      → status.repl_set_name ≡ []
      → spec.repl_set_id ≡ []
      → d.run_initiate rs_name (member_of c ∷ []) w ≡ (ok tt, w1)
      → d.run_get_config w1 ≡ (ok active, w2)
      → d.run_reconfig
          (record active.config {
            members = active.config.members ++ map member_of (c' ∷ cs);
            version = incr64 active.config.version;
          })
          w2
        ≡ (ok tt, w3)
      → config_primary d rs_name r r' spec status w ≡ (ok tt, w3)
  config_primary_initiates c c' cs spec status w w1 w2 w3 active hp e hn hi i g f =
      config_primary_fresh spec status _ w (member_list-generate_repl_config (c ∷ c' ∷ cs) hp e) hn
        hi
      ∙ initiate_two (member_of c) (member_of c') (map member_of cs) w w1 w2 w3 active i g f

  -- Outside the initiation the two lists of members are compared.
  pub config_primary_reconciles :
      (spec : MongoReplSetSpec) (status : MongoStatus) (ms : List Member) (w : W)
      → member_list (split b',' spec.members) ≡ some ms
      → status.repl_set_name ≢ []
      → config_primary d rs_name r r' spec status w
        ≡ reconcile d rs_name r r'
            (has_stale_config spec status)
            (parse_members status.members)
            (parse_members spec.members)
            w
  unfolding config_primary
  config_primary_reconciles spec status ms w e hn =
      rw e (ground (arith, str_eq_iff status.repl_set_name []))
