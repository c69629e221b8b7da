-- ===== src/Mongo/Spec/Names.antt =====
-- `GetMembers` reads back the names that `generateReplConfig` prints.
use mongoctl.Prelude.{
  ℕ, List, [], ◌∷◌, map, ◌≡◌, refl, Bytes, ok, length, All, Lacks, arith, All-append, ok-injective,
}
use mathlib.Core.Path.{subst}
use mathlib.Core.HLevel.{×_prop, ¬_prop}
use mongoctl.Prelude.Perms.{All-prop}
use mongoctl.Text.Parts.{split, join, split-join}
use mongoctl.Mongo.Report.{MongoCandidateReport}
use mongoctl.Mongo.Spec.{
  MongoReplSetSpec, member_str, generate_repl_config, member_names, get_members,
}

-- A text that can stand between colons in a list of members.
abbrev pub IsPlain : Bytes → Type 0
IsPlain s = Lacks b':' s × Lacks b',' s

pub record IsPrintable (c : MongoCandidateReport) : Type 0 where
  pub id_plain : IsPlain c.node_id
  pub name_plain : IsPlain c.node_name
  pub addr_plain : IsPlain c.mongo_addr
  pub port_plain : IsPlain c.mongo_port

Lacks-prop : (b : ℕ) (s : Bytes) → IsProp (Lacks b s)
Lacks-prop b s = All-prop _ s (λ c. ¬_prop)

IsPlain-prop : (s : Bytes) → IsProp (IsPlain s)
IsPlain-prop s = ×_prop (Lacks-prop b':' s) (Lacks-prop b',' s)

pub IsPrintable-prop : (c : MongoCandidateReport) → IsProp (IsPrintable c)
IsPrintable-prop c h h' = λ i. record {
  id_plain = IsPlain-prop c.node_id h.id_plain h'.id_plain i;
  name_plain = IsPlain-prop c.node_name h.name_plain h'.name_plain i;
  addr_plain = IsPlain-prop c.mongo_addr h.addr_plain h'.addr_plain i;
  port_plain = IsPlain-prop c.mongo_port h.port_plain h'.port_plain i;
}

pub split-member_str :
    (c : MongoCandidateReport)
    → IsPrintable c
    → split b':' (member_str c) ≡ c.node_id ∷ c.node_name ∷ c.mongo_addr ∷ c.mongo_port ∷ []
unfolding member_str
split-member_str c h =
    split-join b':' (c.node_id ∷ c.node_name ∷ c.mongo_addr ∷ c.mongo_port ∷ []) (cc)
      (h.id_plain.0, (h.name_plain.0, (h.addr_plain.0, (h.port_plain.0, tt))))

member_str-Lacks : (c : MongoCandidateReport) → IsPrintable c → Lacks b',' (member_str c)
unfolding member_str
member_str-Lacks c h = All-append _ c.node_id _ h.id_plain.1 (
  omega arith,
  All-append _ c.node_name _ h.name_plain.1
      (omega arith, All-append _ c.mongo_addr _ h.addr_plain.1 (omega arith, h.port_plain.1)),
)

pub map-member_str-Lacks :
    (cs : List MongoCandidateReport) → All IsPrintable cs → All (Lacks b',') (map member_str cs)
map-member_str-Lacks [] h = tt
map-member_str-Lacks (c ∷ cs) (h, hs) = (member_str-Lacks c h, map-member_str-Lacks cs hs)

-- The list of members is taken apart into the candidates' own prints.
pub split-members :
    (c : MongoCandidateReport) (cs : List MongoCandidateReport)
    → All IsPrintable (c ∷ cs)
    → split b',' (join b',' (map member_str (c ∷ cs))) ≡ map member_str (c ∷ cs)
split-members c cs h =
    split-join b',' (map member_str (c ∷ cs)) (cc) (map-member_str-Lacks (c ∷ cs) h)

member_names-map :
    (cs : List MongoCandidateReport)
    → All IsPrintable cs
    → member_names (map member_str cs) ≡ ok (map (λ c. c.node_name) cs)
unfolding member_names
member_names-map [] h = refl
member_names-map (c ∷ cs) (h, hs) = rw (split-member_str c h, member_names-map cs hs)

-- For a spec generated from candidates whose texts hold no colon and no comma, the member names
-- read back are the candidates' names, in order, and as many as the spec counts.
pub get_members-generate_repl_config :
    (cs : List MongoCandidateReport) {spec : MongoReplSetSpec}
    → All IsPrintable cs
    → generate_repl_config cs ≡ ok spec
    → (get_members spec ≡ ok (map (λ c. c.node_name) cs)) × (spec.count ≡ length cs)
unfolding generate_repl_config get_members
get_members-generate_repl_config [] h e = cc
get_members-generate_repl_config (c ∷ cs) h e =
    subst
      (λ (s : MongoReplSetSpec).
        (get_members s ≡ ok (map (λ x. x.node_name) (c ∷ cs))) × (s.count ≡ length (c ∷ cs)))
      (ok-injective e) (rw (split-members c cs h) (member_names-map (c ∷ cs) h), refl)
