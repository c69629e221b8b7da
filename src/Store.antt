-- ===== src/Store.antt =====
-- internal/store/store.go: the state of `ConsulStore` and the Consul client that it calls.
pub mod Report
pub mod Health
pub mod Renewal
pub mod Watch
pub mod Config
pub mod Tasks
pub mod Reported
use mongoctl.Prelude.{
  ℕ, List, ◌∷◌, ◌++◌, Option, none, some, Bool, Bytes, Io, Outcome, ok, err, panic, [], false,
}

pub record KvPair : Type 0 where
  pub key : Bytes
  pub value : Bytes
  pub session : Bytes

pub record AgentCheck : Type 0 where
  pub name : Bytes
  pub status : Bytes
  pub check_id : Bytes

-- `capi.SessionEntry`, always with the behaviour `delete`.
pub record SessionEntry : Type 0 where
  pub ttl : Option Bytes
  pub service_check : Option Bytes
  pub name : Bytes

pub record Consul (W : Type 0) : Type 0 where
  pub kv_get : Bytes → Io W (Option KvPair)
  pub kv_put : KvPair → Io W Unit
  -- Did the session take the key?
  pub kv_acquire : KvPair → Io W Bool
  -- The checks, in the order in which a `range` visits the map.
  pub agent_checks : Io W (List AgentCheck)
  pub session_create : SessionEntry → Io W Bytes
  pub session_renew : Bytes → Io W Unit
  -- `path.Join`.
  pub join_path : Bytes → Bytes → Bytes

pub record ConsulStore (W : Type 0) : Type 0 where
  pub candidate_report_path : Bytes
  pub health_status_path : Bytes
  pub repl_set_config_path : Bytes
  pub session_id : Bytes
  pub renew_started : Bool
  -- Does the goroutine of `StartRenewLoop` run?
  pub renewing : Bool
  pub world : W

pub record ConsulStoreConfig : Type 0 where
  pub report_path : Bytes
  pub health_path : Bytes
  pub config_path : Bytes

-- `capi.NewClient` for an address, and the store on the client.
unfoldable pub new_consul_store :
    {W : Type 0} → (Bytes → Outcome W) → Bytes → ConsulStoreConfig → Outcome (ConsulStore W)
new_consul_store new_client address config = elim (new_client address) [
  | ok cli ↦ ok (record {
    candidate_report_path = config.report_path;
    health_status_path = config.health_path;
    repl_set_config_path = config.config_path;
    session_id = [];
    renew_started = false;
    renewing = false;
    world = cli;
  })
  | err e ↦ err e
  | panic ↦ panic
]

-- A call of the client on the store's world.
abbrev pub call : {W A : Type 0} → Io W A → Io (ConsulStore W) A
call m c = let (r, w) = m c.world in (r, record c { world = w })
