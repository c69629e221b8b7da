-- ===== src/Examples/Primary.antt =====
-- The primary at work on a set of two.
use mongoctl.Prelude.{[], ◌∷◌, ◌≡◌, ◌↔◌, ◌≢◌, ◌⊎◌, codes, true, false, All, length, List, ℕ}
use mongoctl.Mongo.Status.{check_wipe_requirment}
use mongoctl.Mongo.Status.Wipe.{check_wipe_requirment_iff}
use mongoctl.Mongo.Members.{MemberMap}
use mongoctl.Mongo.Members.Laws.{entries}
use mongoctl.Mongo.Primary.{reconf_needed}
use mongoctl.Mongo.Primary.Decision.{Holds, reconf_needed_iff}
use mongoctl.Examples.Data.{two_spec, member_at, in_order, status_with}

abbrev members_str : List ℕ
members_str = codes "1::10.0.0.1:27017,2::10.0.0.1:27017"

abbrev current : MemberMap
current = entries (member_at 1 ∷ [])

abbrev desired : MemberMap
desired = entries (member_at 1 ∷ member_at 2 ∷ [])

reconf_needed_iff_example :
    (reconf_needed in_order false current desired ≡ false)
    ↔ ((length current ≡ length desired) × All (Holds current) desired)
reconf_needed_iff_example = reconf_needed_iff in_order current desired

check_wipe_requirment_iff_example :
    (check_wipe_requirment two_spec (status_with (codes "rs0") members_str) ≡ true) ↔ (
      ((status_with (codes "rs0") members_str).repl_set_name ≢ [])
      × (((two_spec.repl_set_id ≢ codes "ab") × (two_spec.repl_set_id ≢ []))
          ⊎ (two_spec.repl_set_name ≢ codes "rs0")))
check_wipe_requirment_iff_example =
    check_wipe_requirment_iff two_spec (status_with (codes "rs0") members_str)
