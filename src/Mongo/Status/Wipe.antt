-- ===== src/Mongo/Status/Wipe.antt =====
-- When a member's data is wiped.
use mongoctl.Prelude.{[], ◌≡◌, ◌≢◌, ◌⊎◌, ◌↔◌, true, arith, str_eq_iff}
use mongoctl.Mongo.Types.{MongoStatus}
use mongoctl.Mongo.Spec.{MongoReplSetSpec}
use mongoctl.Mongo.Status.{check_wipe_requirment}

-- A wipe is required exactly when the member is in a replica set, and that set has another
-- identifier than a spec which names one, or another name than the spec.
pub check_wipe_requirment_iff :
    (spec : MongoReplSetSpec) (m : MongoStatus)
    → (check_wipe_requirment spec m ≡ true) ↔ (
        (m.repl_set_name ≢ [])
        × (((spec.repl_set_id ≢ m.repl_set_id) × (spec.repl_set_id ≢ []))
            ⊎ (spec.repl_set_name ≢ m.repl_set_name)))
unfolding check_wipe_requirment
check_wipe_requirment_iff spec m = ground (
  arith,
  str_eq_iff m.repl_set_name [],
  str_eq_iff spec.repl_set_id m.repl_set_id,
  str_eq_iff spec.repl_set_id [],
  str_eq_iff spec.repl_set_name m.repl_set_name,
)
