-- ===== src/Mongo/Member/Bootstrap.antt =====
-- The first round of each member on the specification of candidates that are in no replica set.
use mongoctl.Prelude.{
  List, [], ◌∷◌, ◌++◌, map, ◌≡◌, ◌≢◌, refl, sym, ◌∙◌, ap, inl, false, ok, err, All, codes, str_eq,
  str_eq→≡, str_eq-true, Bool-cases, inr, ◌⊎◌, command_error, ok-injective,
}
use mongoctl.Mongo.Types.{ReplSetConfig}
use mongoctl.Mongo.Report.{MongoCandidateReport}
use mongoctl.Mongo.Spec.{MongoReplSetSpec, generate_repl_config}
use mongoctl.Mongo.Spec.Names.{IsPrintable}
use mongoctl.Mongo.Members.Printed.{member_of}
use mongoctl.Mongo.Client.{Driver, incr64, or_nil, repl_set_get_status, repl_set_get_config}
use mongoctl.Mongo.Status.{
  MongoConfig, bare_status, with_status, with_config, get_member_status, check_wipe_requirment,
}
use mongoctl.Mongo.Primary.{RangeOrder}
use mongoctl.Mongo.Primary.Effects.{config_primary_initiates}
use mongoctl.Mongo.Member.{Host, member_round}
use mongoctl.Mongo.Member.Rounds.{secondary_rests, primary_configures}

-- The server says twice that it was not initialized; `w'` is the world after its answers.
pub record IsFresh {W : Type 0} (d : Driver W) (w w' : W) : Type 0 where
  pub between : W
  pub no_status : d.run_get_status w ≡ (err (command_error (codes "NotYetInitialized")), between)
  pub no_config : d.run_get_config between ≡ (err (command_error (codes "NotYetInitialized")), w')

fresh_status :
    {W : Type 0} (d : Driver W) (cfg : MongoConfig) (w w' : W)
    → IsFresh d w w'
    → get_member_status d cfg w ≡ (ok (bare_status cfg), w')
unfolding get_member_status repl_set_get_status repl_set_get_config or_nil with_status with_config
    str_eq
fresh_status d cfg w w' fresh = rw (fresh.no_status, fresh.no_config)

primary-generate_repl_config :
    (c : MongoCandidateReport) (cs : List MongoCandidateReport) {spec : MongoReplSetSpec}
    → generate_repl_config (c ∷ cs) ≡ ok spec
    → (spec.primary ≡ c.node_name) × (spec.repl_set_id ≡ c.repl_set_id)
unfolding generate_repl_config
primary-generate_repl_config c cs e = (
  sym (ap (λ (s : MongoReplSetSpec). s.primary) (ok-injective e)),
  sym (ap (λ (s : MongoReplSetSpec). s.repl_set_id) (ok-injective e)),
)

wipe_bare :
    (spec : MongoReplSetSpec) (cfg : MongoConfig)
    → check_wipe_requirment spec (bare_status cfg) ≡ false
unfolding check_wipe_requirment bare_status str_eq
wipe_bare spec cfg = refl

module _ {W : Type 0} (d : Driver W) (cfg : MongoConfig) (c c' : MongoCandidateReport)
    (cs : List MongoCandidateReport) where
  -- The server takes the initiation with the first candidate, hands over its configuration, and
  -- takes it with the others added, under the next version.
  pub record IsWilling (w w' : W) : Type 0 where
    pub initiated : W
    pub read : W
    pub active : ReplSetConfig
    pub initiates : d.run_initiate cfg.rs_name (member_of c ∷ []) w ≡ (ok tt, initiated)
    pub reads : d.run_get_config initiated ≡ (ok active, read)
    pub adds :
        d.run_reconfig
          (record active.config {
            members = active.config.members ++ map member_of (c' ∷ cs);
            version = incr64 active.config.version;
          })
          read
        ≡ (ok tt, w')

module _ {W : Type 0} (d : Driver W) (h : Host W) (cfg : MongoConfig) (r r' r'' : RangeOrder)
    (c c' : MongoCandidateReport) (cs : List MongoCandidateReport) where
  -- The first candidate's member initiates the set; any other rests.
  abbrev pub Bootstraps : MongoReplSetSpec → W → W → W → Type 0
  Bootstraps spec w w1 w2 =
      ((cfg.node_name ≡ c.node_name) × (member_round d h cfg r r' r'' spec w ≡ (ok tt, w2)))
      ⊎ ((cfg.node_name ≢ c.node_name) × (member_round d h cfg r r' r'' spec w ≡ (ok tt, w1)))

  -- The spec is one of two candidates or more with plain texts, of which the first is in no replica
  -- set, and the member's server was not initialized. The member that bears the name of the first
  -- candidate initiates the set with that candidate alone, and then adds the others, in order, to
  -- the configuration that the server reports, under the next version, where the server is willing.
  -- A member with another name leaves its server as it is, and is not wiped.
  pub bootstrap :
      (spec : MongoReplSetSpec) (w w1 w2 : W)
      → All IsPrintable (c ∷ c' ∷ cs)
      → generate_repl_config (c ∷ c' ∷ cs) ≡ ok spec
      → c.repl_set_id ≡ []
      → IsFresh d w w1
      → IsWilling d cfg c c' cs w1 w2
      → Bootstraps spec w w1 w2
  bootstrap spec w w1 w2 printable made unset fresh willing =
      let (named, id) = primary-generate_repl_config c (c' ∷ cs) made in
      let status = bare_status cfg in
      let read = fresh_status d cfg w w1 fresh in
      elim (Bool-cases (str_eq cfg.node_name c.node_name)) [
        | inl y ↦
            let mine = str_eq→≡ cfg.node_name c.node_name y in
            inl (
              mine,
              primary_configures d h cfg r r' r'' spec w w1 status w2 read (named ∙ sym mine) (
                  inl (
                    config_primary_initiates d cfg.rs_name r r' c c' cs spec status w1
                      willing.initiated willing.read w2 willing.active printable made
                      (unfold bare_status in refl) (id ∙ unset) willing.initiates willing.reads
                      willing.adds)),
            )
        | inr n ↦
            let other : cfg.node_name ≢ c.node_name = λ e. cc (n, str_eq-true e) in
            inr (
              other,
              secondary_rests d h cfg r r' r'' spec w w1 status read (λ e. other (sym e ∙ named))
                  (wipe_bare spec cfg),
            )
      ]
