-- ===== src/Mongo/Health.antt =====
-- internal/replset/mongo.go: `MongoHealthStatus` and its order.
use mongoctl.Prelude.{
  ◌≡◌, ◌⊎◌, ◌↔◌, Bool, true, false, arith, Bytes, codes, str_eq, str_lt, if◌then◌else◌,
}
use mongoctl.Mongo.Types.{
  MongoStatusEnum, status_string, status_primary, status_secondary, status_arbiter,
}

pub record MongoHealthStatus : Type 0 where
  pub node_id : Bytes
  pub node_name : Bytes
  pub status : Bytes

unfoldable less : MongoHealthStatus → MongoHealthStatus → Bool
less m o = str_lt m.node_name o.node_name

unfoldable get_id : MongoHealthStatus → Bytes
get_id m = m.node_name

pub is_healthy : MongoHealthStatus → Bool
is_healthy m =
    if str_eq m.status (codes "PRIMARY")
    then true
    else if str_eq m.status (codes "SECONDARY")
    then true
    else if str_eq m.status (codes "ARBITER")
    then true
    else false

-- What the member's ticker publishes for a state that the server reports.
unfoldable pub health_of : Bytes → Bytes → MongoStatusEnum → MongoHealthStatus
health_of node_id node_name e = record {
  node_id = node_id;
  node_name = node_name;
  status = status_string e;
}

-- A published status is healthy exactly when the server's state is primary, secondary or arbiter.
pub is_healthy-health_of :
    (i n : Bytes) (e : MongoStatusEnum)
    → (is_healthy (health_of i n e) ≡ true)
      ↔ ((e ≡ status_primary) ⊎ (e ≡ status_secondary) ⊎ (e ≡ status_arbiter))
unfolding is_healthy health_of status_string str_eq
is_healthy-health_of i n e = ground arith
