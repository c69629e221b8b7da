-- ===== src/Mongo/Primary/Settled.antt =====
-- `configPrimary` leaves a server alone that holds what the spec asks for, and so settles: the
-- configuration that it sends is not sent again.
use mathlib.Core.List.{Permᴰ}
use mongoctl.Prelude.{
  List, [], ◌∷◌, map, ◌≡◌, ◌≢◌, refl, sym, ◌∙◌, false, ok, All, length, length-map, Bytes,
  str_eq_iff, arith,
}
use mongoctl.Mongo.Types.{MongoStatus, Member}
use mongoctl.Mongo.Report.{MongoCandidateReport}
use mongoctl.Mongo.Spec.{MongoReplSetSpec, generate_repl_config}
use mongoctl.Mongo.Spec.Names.{IsPrintable}
use mongoctl.Mongo.Members.{MemberMap, parse_members}
use mongoctl.Mongo.Members.Laws.{IsDistinct, entries}
use mongoctl.Mongo.Members.Order.{IsDistinct-Permᴰ, IsFound, find-entries}
use mongoctl.Prelude.Perms.{All-Permᴰ, Permᴰ-sym, length-Permᴰ}
use mongoctl.Mongo.Members.Printed.{member_of, parse_members-generate_repl_config}
use mongoctl.Mongo.Client.{Driver}
use mongoctl.Mongo.Primary.{RangeOrder, has_stale_config, reconcile, config_primary}
use mongoctl.Mongo.Primary.Decision.{Holds, reconf_needed_iff}
use mongoctl.Mongo.Primary.Effects.{member_list-generate_repl_config, config_primary_reconciles}

Holds-entries : (m : MemberMap) (vs : List Member) → IsFound m vs → All (Holds m) (entries vs)
Holds-entries m [] h = tt
Holds-entries m (v ∷ vs) (h, hs) = ((v, h, refl), Holds-entries m vs hs)

Holds-Permᴰ :
    {ms ds : List Member}
    → Permᴰ ms ds
    → IsDistinct ds
    → (length (entries ms) ≡ length (entries ds)) × All (Holds (entries ms)) (entries ds)
Holds-Permᴰ {ms} {ds} p h = (
  length-map ms _ ∙ length-Permᴰ p ∙ sym (length-map ds _),
  Holds-entries (entries ms) ds
      (All-Permᴰ _ p (find-entries ms (IsDistinct-Permᴰ (Permᴰ-sym p) h))),
)

has_stale_config-known :
    (spec : MongoReplSetSpec) (status : MongoStatus)
    → status.repl_set_id ≢ []
    → has_stale_config spec status ≡ false
unfolding has_stale_config
has_stale_config-known spec status h = ground (arith, str_eq_iff status.repl_set_id [])

module _ {W : Type 0} (d : Driver W) (rs_name : Bytes) (r r' : RangeOrder) where
  reconcile_settled :
      (current desired : MemberMap) (w : W)
      → length current ≡ length desired
      → All (Holds current) desired
      → reconcile d rs_name r r' false current desired w ≡ (ok tt, w)
  unfolding reconcile
  reconcile_settled current desired w e h = rw ((reconf_needed_iff r current desired).1 (e, h))

  -- For a spec of candidates with plain texts and distinct numbers, a server in a replica set with
  -- a name and an identifier that reports the members of the spec, in any order, is sent nothing.
  pub config_primary_settled :
      (cs : List MongoCandidateReport) (ms : List Member) (spec : MongoReplSetSpec)
      (status : MongoStatus) (w : W)
      → All IsPrintable cs
      → IsDistinct (map member_of cs)
      → generate_repl_config cs ≡ ok spec
      → Permᴰ ms (map member_of cs)
      → parse_members status.members ≡ entries ms
      → status.repl_set_name ≢ []
      → status.repl_set_id ≢ []
      → config_primary d rs_name r r' spec status w ≡ (ok tt, w)
  config_primary_settled cs ms spec status w hp hd e p hm hn hi =
      config_primary_reconciles d rs_name r r' spec status _ w
        (member_list-generate_repl_config cs hp e) hn
      ∙ rw
          (has_stale_config-known spec status hi, hm, parse_members-generate_repl_config cs hp hd e)
          (let (same, holds) = Holds-Permᴰ p hd in
            reconcile_settled (entries ms) (entries (map member_of cs)) w same holds)
