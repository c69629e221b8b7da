-- ===== src/Mongo/Members/Printed.antt =====
-- `ParseMembers` on the two formats that the program prints: the members of a spec, and the
-- members of a server's current configuration.
use mathlib.Core.Path.{subst}
use mongoctl.Prelude.{
  List, [], ◌∷◌, map, ◌≡◌, refl, sym, ◌∙◌, Bytes, ok, All, Lacks, All-append, arith, ok-injective,
  ap,
}
use mongoctl.Text.Parts.{split, join, split-join}
use mongoctl.Text.Decimal.{parse_int, format_int}
use mongoctl.Text.Decimal.RoundTrip.{
  IsInt32, parse_int-format_int, format_int-Lacks_colon, format_int-Lacks_comma,
}
use mongoctl.Mongo.Types.{Member}
use mongoctl.Mongo.Report.{MongoCandidateReport}
use mongoctl.Mongo.Spec.{MongoReplSetSpec, member_str, generate_repl_config}
use mongoctl.Mongo.Spec.Names.{IsPlain, IsPrintable, split-member_str, split-members}
use mongoctl.Mongo.Members.{
  MemberMap, put, host_port, host_str, put_tokens, put_items, parse_members,
}
use mongoctl.Mongo.Members.Laws.{put_all, IsDistinct, entries, put_all_distinct}

-- The replica-set member that a candidate stands for.
abbrev pub member_of : MongoCandidateReport → Member
member_of c = record { id = parse_int c.node_id; host = host_port c.mongo_addr c.mongo_port }

put_tokens-member_str :
    (c : MongoCandidateReport) (rest : MemberMap)
    → IsPrintable c
    → put_tokens (split b':' (member_str c)) rest ≡ put (parse_int c.node_id) (member_of c) rest
unfolding put_tokens
put_tokens-member_str c rest h = rw (split-member_str c h)

put_items-map :
    (cs : List MongoCandidateReport) (m : MemberMap)
    → All IsPrintable cs
    → put_items (map member_str cs) m ≡ put_all (map member_of cs) m
unfolding put_items put_all
put_items-map [] m h = refl
put_items-map (c ∷ cs) m (h, hs) =
    ap (put_items (map member_str cs)) (put_tokens-member_str c m h) ∙ put_items-map cs _ hs

-- A spec generated from candidates with plain texts and distinct numbers is read back as one
-- member for each candidate, in the candidates' order, under its number and with its address and
-- port.
pub parse_members-generate_repl_config :
    (cs : List MongoCandidateReport) {spec : MongoReplSetSpec}
    → All IsPrintable cs
    → IsDistinct (map member_of cs)
    → generate_repl_config cs ≡ ok spec
    → parse_members spec.members ≡ entries (map member_of cs)
unfolding generate_repl_config
parse_members-generate_repl_config [] h d e = cc
parse_members-generate_repl_config (c ∷ cs) h d e =
    subst (λ (s : MongoReplSetSpec). parse_members s.members ≡ entries (map member_of (c ∷ cs)))
      (ok-injective e)
      (unfold parse_members in
        rw (split-members c cs h)
          (put_items-map (c ∷ cs) [] h ∙ put_all_distinct (map member_of (c ∷ cs)) d))

-- A member whose host is an address and a port.
pub record IsAddressed (m : Member) : Type 0 where
  pub addr : Bytes
  pub port : Bytes
  pub addr_plain : IsPlain addr
  pub port_plain : IsPlain port
  pub host_eq : m.host ≡ host_port addr port
  pub id_fits : IsInt32 m.id

split-host_str :
    (m : Member) (h : IsAddressed m)
    → split b':' (host_str m) ≡ format_int m.id ∷ [] ∷ h.addr ∷ h.port ∷ []
unfolding host_str host_port join
split-host_str m h = rw h.host_eq (
    split-join b':' (format_int m.id ∷ [] ∷ h.addr ∷ h.port ∷ []) (cc)
      (format_int-Lacks_colon m.id, (tt, (h.addr_plain.0, (h.port_plain.0, tt)))))

put_tokens-host_str :
    (m : Member) (rest : MemberMap)
    → IsAddressed m
    → put_tokens (split b':' (host_str m)) rest ≡ put m.id m rest
unfolding put_tokens
put_tokens-host_str m rest h =
    rw (split-host_str m h, parse_int-format_int m.id h.id_fits)
      (ap (λ (x : Bytes). put m.id (record { id = m.id; host = x }) rest) (sym h.host_eq))

put_items-host_str :
    (ms : List Member) (m : MemberMap)
    → All IsAddressed ms
    → put_items (map host_str ms) m ≡ put_all ms m
unfolding put_items put_all
put_items-host_str [] m h = refl
put_items-host_str (v ∷ ms) m (h, hs) =
    ap (put_items (map host_str ms)) (put_tokens-host_str v m h) ∙ put_items-host_str ms _ hs

host_str-Lacks : (m : Member) → IsAddressed m → Lacks b',' (host_str m)
unfolding host_str host_port
host_str-Lacks m h = rw h.host_eq (
    All-append _ (format_int m.id) _ (format_int-Lacks_comma m.id) (
      omega arith,
      (omega arith, All-append _ h.addr _ h.addr_plain.1 (omega arith, h.port_plain.1)),
    ))

map-host_str-Lacks : (ms : List Member) → All IsAddressed ms → All (Lacks b',') (map host_str ms)
map-host_str-Lacks [] h = tt
map-host_str-Lacks (v ∷ ms) (h, hs) = (host_str-Lacks v h, map-host_str-Lacks ms hs)

-- The print of a server's current members is read back as those members, if their numbers are
-- distinct int32 values and their hosts are an address and a port with no colon or comma.
pub parse_members-host_str :
    (v : Member) (ms : List Member)
    → All IsAddressed (v ∷ ms)
    → IsDistinct (v ∷ ms)
    → parse_members (join b',' (map host_str (v ∷ ms))) ≡ entries (v ∷ ms)
parse_members-host_str v ms h d =
    unfold parse_members in
    rw (split-join b',' (map host_str (v ∷ ms)) (cc) (map-host_str-Lacks (v ∷ ms) h))
      (put_items-host_str (v ∷ ms) [] h ∙ put_all_distinct (v ∷ ms) d)
