-- ===== src/Mongo/Members.antt =====
-- internal/replset/mongo-control.go: `ParseMembers` and the map that it fills.
pub mod Laws
pub mod Printed
pub mod Order
use mongoctl.Prelude.{
  List, [], ◌∷◌, ◌++◌, Option, none, some, Bytes, if◌then◌else◌, ℤ, int_eq, length,
}
use mongoctl.Text.Parts.{split}
use mongoctl.Text.Decimal.{parse_int, format_int}
use mongoctl.Mongo.Types.{Member}

-- `map[int]util.Member`, the keys in the order in which they were first written.
abbrev pub MemberMap : Type 0
MemberMap = List (ℤ × Member)

unfoldable pub put : ℤ → Member → MemberMap → MemberMap
put k v [] = (k, v) ∷ []
put k v ((j, w) ∷ m) = if int_eq j k then (k, v) ∷ m else (j, w) ∷ put k v m

unfoldable pub find : ℤ → MemberMap → Option Member
find k [] = none
find k ((j, w) ∷ m) = if int_eq j k then some w else find k m

-- `fmt.Sprintf("%s:%s", addr, port)`.
unfoldable pub host_port : Bytes → Bytes → Bytes
host_port addr port = addr ++ b':' ∷ port

-- `fmt.Sprintf("%d::%s", m.ID, m.Host)`, by which a member prints its current configuration.
unfoldable pub host_str : Member → Bytes
host_str m = format_int m.id ++ b':' ∷ b':' ∷ m.host

-- One round of `ParseMembers`: an item of fewer than four tokens is skipped.
unfoldable pub put_tokens : List Bytes → MemberMap → MemberMap
unfolding put host_port
put_tokens (t0 ∷ t1 ∷ t2 ∷ t3 ∷ rest) m =
    put (parse_int t0) (record { id = parse_int t0; host = host_port t2 t3 }) m
put_tokens _ m = m

unfoldable pub put_items : List Bytes → MemberMap → MemberMap
unfolding put_tokens
put_items [] m = m
put_items (item ∷ items) m = put_items items (put_tokens (split b':' item) m)

unfoldable pub parse_members : Bytes → MemberMap
unfolding put_items
parse_members members_str = put_items (split b',' members_str) []
