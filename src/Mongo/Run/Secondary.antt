-- ===== src/Mongo/Run/Secondary.antt =====
-- What a member that is not the primary can do to its server.
use mathlib.Core.Path.{subst}
use mongoctl.Prelude.{
  sym, ℕ, List, [], ◌∷◌, ◌≡◌, ◌≢◌, some, All, true, false, Bool-cases, inl, inr, Outcome, ok, err,
  panic, str_eq-false, handle,
}
use mongoctl.Mongo.Types.{MongoStatus}
use mongoctl.Mongo.Spec.{MongoReplSetSpec}
use mongoctl.Mongo.Client.{Driver, repl_set_get_status, repl_set_get_config}
use mongoctl.Mongo.Status.{MongoConfig, get_member_status, check_wipe_requirment}
use mongoctl.Mongo.Primary.{RangeOrder}
use mongoctl.Mongo.Member.{Host, apply_spec, after_status_error, member_round}
use mongoctl.Mongo.Member.Rounds.{after_status_error-false}
use mongoctl.Mongo.Run.{Event, spec, tick, exit, Task, on_spec, on_tick, on_exit, react, run}
use mongoctl.Mongo.Run.Keeping.{Keeps, HostKeeps, bind-Keeps, rebuild-Keeps}

-- A specification names another node as its primary.
abbrev pub IsOther : MongoConfig → Event → Type 0
IsOther cfg (spec s) = s.primary ≢ cfg.node_name
IsOther cfg tick = Unit
IsOther cfg exit = Unit

-- What a member does without being the primary: two reads, a shutdown, and the calls of a wipe.
pub record IsKept {W : Type 0} (d : Driver W) (h : Host W) (P : W → Type 0) : Type 0 where
  pub status_keeps : Keeps P d.run_get_status
  pub config_keeps : Keeps P d.run_get_config
  pub shutdown_keeps : (n : ℕ) (w : W) → P w → P (h.shutdown n w)
  pub host_keeps : HostKeeps h P

module _ {W : Type 0} (d : Driver W) (h : Host W) (cfg : MongoConfig) (r r' r'' : RangeOrder)
    (exits : W → ℕ) (P : W → Type 0) (kept : IsKept d h P) where
  read-Keeps : Keeps P (get_member_status d cfg)
  unfolding get_member_status repl_set_get_status repl_set_get_config
  read-Keeps =
      bind-Keeps P (repl_set_get_status d) _ kept.status_keeps
        (λ s. bind-Keeps P (repl_set_get_config d) _ kept.config_keeps (λ c w p. p))

  resting :
      (s : MongoReplSetSpec) (x : Outcome MongoStatus) (w : W)
      → P w
      → P
          (handle x
            (after_status_error d h cfg r r' r'' false s)
            (λ m. apply_spec d h cfg r r' r'' false s (some m))
            w).1
  unfolding after_status_error apply_spec
  resting s (ok m) w p = elim (Bool-cases (check_wipe_requirment s m)) [
    | inl y ↦ rw y (rebuild-Keeps h P kept.host_keeps d cfg r r' r'' w (kept.shutdown_keeps 10 w p))
    | inr n ↦ rw n p
  ]
  resting s (err e) w p = rw (after_status_error-false d h cfg r r' r'' s e w) p
  resting s panic w p = p

  round-Keeps :
      (s : MongoReplSetSpec) → s.primary ≢ cfg.node_name → Keeps P (member_round d h cfg r r' r'' s)
  unfolding member_round
  round-Keeps s other w p =
      rw (str_eq-false other)
        (resting s (get_member_status d cfg w).0 (get_member_status d cfg w).1 (read-Keeps w p))

  ended_stays : (e : Event) (t : Task W) → t.ended ≡ true → react d h cfg r r' r'' exits e t ≡ t
  unfolding react
  ended_stays e t y = rw y

  react-Keeps :
      (e : Event) (t : Task W)
      → t.ended ≡ false
      → IsOther cfg e
      → P t.world
      → P (react d h cfg r r' r'' exits e t).world
  unfolding react on_spec on_tick on_exit repl_set_get_status
  react-Keeps (spec s) t n other p = rw n (round-Keeps s other t.world p)
  react-Keeps tick t n other p = rw n (kept.status_keeps t.world p)
  react-Keeps exit t n other p = rw n p

  -- As long as the specifications name another node as their primary, whatever a member's loop and
  -- its ticker do, they do by two reads of the server and by the host's calls of a wipe: what these
  -- keep is kept. In particular such a member never initiates or reconfigures a replica set.
  pub run_secondary :
      (es : List Event) (t : Task W)
      → All (IsOther cfg) es
      → P t.world
      → P (run d h cfg r r' r'' exits es t).world
  unfolding run
  run_secondary [] t o p = p
  run_secondary (e ∷ es) t (o, os) p =
      run_secondary es (react d h cfg r r' r'' exits e t) os (elim (Bool-cases t.ended) [
        | inl y ↦ subst (λ (x : Task W). P x.world) (sym (ended_stays e t y)) p
        | inr n ↦ react-Keeps e t n o p
      ])
