-- ===== src/Mongo/Spec.antt =====
-- internal/replset/mongo.go: `MongoReplSetSpec`, its print of the members and the names read back.
pub mod Names
use mongoctl.Prelude.{
  ℕ, List, [], ◌∷◌, ◌++◌, map, ◌≡◌, refl, Option, none, some, Bytes, Outcome, ok, err, panic,
  length,
}
use mongoctl.Text.Parts.{split, join}
use mongoctl.Mongo.Report.{MongoCandidateReport}

pub record MongoReplSetSpec : Type 0 where
  pub count : ℕ
  pub primary : Bytes
  pub members : Bytes
  pub repl_set_id : Bytes
  pub repl_set_name : Bytes
  pub op_log_first_sec : ℕ
  pub op_log_first_inc : ℕ
  pub op_log_last_sec : ℕ
  pub op_log_lastt_inc : ℕ

-- `fmt.Sprintf("%s:%s:%s:%s", m.NodeId, m.NodeName, m.MongoAddr, m.MongoPort)`.
unfoldable pub member_str : MongoCandidateReport → Bytes
unfolding join
member_str m = join b':' (m.node_id ∷ m.node_name ∷ m.mongo_addr ∷ m.mongo_port ∷ [])

-- `candidates[0]` panics on an empty slice.
unfoldable pub generate_repl_config : List MongoCandidateReport → Outcome MongoReplSetSpec
generate_repl_config [] = panic
generate_repl_config (c ∷ cs) = ok (record {
  primary = c.node_name;
  count = length (c ∷ cs);
  repl_set_id = c.repl_set_id;
  repl_set_name = c.repl_set_name;
  members = join b',' (map member_str (c ∷ cs));
  op_log_first_sec = c.op_log_first_sec;
  op_log_first_inc = c.op_log_first_inc;
  op_log_last_sec = c.op_log_last_sec;
  op_log_lastt_inc = c.op_log_last_inc;
})

-- `tokens[1]`, which panics where the item has no colon.
unfoldable pub second : List Bytes → Option Bytes
second (x ∷ y ∷ rest) = some y
second _ = none

abbrev cons_name : Option Bytes → Outcome (List Bytes) → Outcome (List Bytes)
cons_name none r = panic
cons_name (some n) (ok ns) = ok (n ∷ ns)
cons_name (some n) (err e) = err e
cons_name (some n) panic = panic

-- The loop of `GetMembers`.
unfoldable pub member_names : List Bytes → Outcome (List Bytes)
unfolding second
member_names [] = ok []
member_names (m ∷ ms) = cons_name (second (split b':' m)) (member_names ms)

unfoldable pub get_members : MongoReplSetSpec → Outcome (List Bytes)
get_members m = member_names (split b',' m.members)
