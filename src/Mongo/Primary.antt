-- ===== src/Mongo/Primary.antt =====
-- internal/replset/mongo-control.go: `configPrimary`.
pub mod Decision
pub mod Effects
pub mod Settled
use mathlib.Core.List.{Permᴰ}
use mongoctl.Prelude.{
  ℕ, List, [], ◌∷◌, map, Option, none, some, ◌≡◌, Bool, true, false, not, ◌&&◌, Bytes, str_eq, ltb,
  ◌==◌, if◌then◌else◌, ℤ, pos, Outcome, ok, err, panic, Error, Io, ◌>>=◌, ◌>>◌, pure, raise, abort,
  handle, length, take, drop,
}
use mongoctl.Text.Parts.{split}
use mongoctl.Text.Decimal.{parse_int}
use mongoctl.Mongo.Types.{MongoStatus, Member, Replset, ReplSetConfig}
use mongoctl.Mongo.Spec.{MongoReplSetSpec}
use mongoctl.Mongo.Members.{MemberMap, find, host_port, parse_members}
use mongoctl.Mongo.Client.{
  Driver, no_replset, repl_set_get_config, repl_set_reconfig, repl_set_initiate, add_member,
}

-- The order in which one `range` over a map visits it: any order.
pub record RangeOrder : Type 0 where
  pub visit : MemberMap → MemberMap
  pub visit-Perm : (m : MemberMap) → Permᴰ (visit m) m

-- One round of the first loop; `tokens[2]` and `tokens[3]` panic where they are missing.
unfoldable pub member_of_tokens : List Bytes → Option Member
member_of_tokens (t0 ∷ t1 ∷ t2 ∷ t3 ∷ rest) =
    some (record { id = parse_int t0; host = host_port t2 t3 })
member_of_tokens _ = none

abbrev cons_member : Option Member → Option (List Member) → Option (List Member)
cons_member none r = none
cons_member (some m) none = none
cons_member (some m) (some ms) = some (m ∷ ms)

unfoldable pub member_list : List Bytes → Option (List Member)
member_list [] = some []
member_list (item ∷ items) = cons_member (member_of_tokens (split b':' item)) (member_list items)

unfoldable pub has_stale_config : MongoReplSetSpec → MongoStatus → Bool
has_stale_config spec status = str_eq status.repl_set_id [] && not (str_eq spec.repl_set_id [])

-- One round of the loop that compares: is the entry missing or at another host?
unfoldable pub differs : MemberMap → ℤ → Member → Bool
differs current dk dv = elim (find dk current) [
  | none ↦ true
  | some cv ↦ not (str_eq cv.host dv.host)
]

-- The loop stops at the first difference.
unfoldable pub any_differs : MemberMap → MemberMap → Bool
unfolding differs
any_differs current [] = false
any_differs current ((dk, dv) ∷ rest) =
    let more = any_differs current rest in if differs current dk dv then true else more

-- `reconfNeeded`; `desired` is visited in the order of `r`.
unfoldable pub reconf_needed : RangeOrder → Bool → MemberMap → MemberMap → Bool
reconf_needed r stale current desired =
    if stale
    then true
    else if not (length current == length desired)
    then true
    else any_differs current (r.visit desired)

abbrev pub values : MemberMap → List Member
values = map (λ e. e.1)

-- A configuration in place of the server's, which this one does not know.
abbrev pub fresh_config : Bytes → ReplSetConfig
fresh_config rs_name = record { config = record no_replset { id = rs_name } }

-- `log.Panicln` on an error.
abbrev or_panic : {W : Type 0} → Io W Unit → Io W Unit
or_panic m w = let (r, w') = m w in handle r (λ e. abort) pure w'

module _ {W : Type 0} (d : Driver W) (rs_name : Bytes) where
  -- `cfg.Config.Members = newMembers` panics on a nil configuration.
  unfoldable pub reconfigure : List Member → Option ReplSetConfig → Io W Unit
  reconfigure members none = abort
  reconfigure members (some cfg) = repl_set_reconfig d (record cfg.config { members = members })

  unfoldable pub initiate : List Member → Io W Unit
  initiate members = do
    or_panic (repl_set_initiate d rs_name (take 1 members))
    if ltb 1 (length members) then or_panic (add_member d (drop 1 members)) else pure tt

  unfoldable pub reconcile : RangeOrder → RangeOrder → Bool → MemberMap → MemberMap → Io W Unit
  reconcile r r' stale current desired =
      if reconf_needed r stale current desired
      then (do
        cfg ← repl_set_get_config d
        reconfigure (values (r'.visit desired))
            (if stale then some (fresh_config rs_name) else cfg))
      else pure tt

  dispatch :
      RangeOrder → RangeOrder → MongoReplSetSpec → MongoStatus → Option (List Member) → Io W Unit
  dispatch r r' spec status none = abort
  dispatch r r' spec status (some members) =
      let stale = has_stale_config spec status in
      if str_eq status.repl_set_name [] && not stale
      then initiate members
      else reconcile r r' stale (parse_members status.members) (parse_members spec.members)

  -- `r` orders the loop that compares, and `r'` the one that collects the new members.
  unfoldable pub config_primary :
      RangeOrder → RangeOrder → MongoReplSetSpec → MongoStatus → Io W Unit
  unfolding dispatch
  config_primary r r' spec status =
      dispatch r r' spec status (member_list (split b',' spec.members))
