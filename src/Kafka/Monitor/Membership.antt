-- ===== src/Kafka/Monitor/Membership.antt =====
-- Which members of a Kafka cluster start a server on a specification.
use mathlib.Core.List.{Memᴰ}
use mongoctl.Prelude.{
  List, [], ◌∷◌, map, ◌≡◌, ◌≢◌, ◌⊎◌, inl, inr, refl, sym, ap, ◌∙◌, arith, some, true, Bytes, str_eq,
  str_eq_iff, str_eq-true, ok, Bool-cases,
}
use mongoctl.Stateless.{Engine}
use mongoctl.Kafka.{KafkaConfig, KafkaCandidateReport, generate_repl_config}
use mongoctl.Kafka.Machine.{State, init, Trigger, start, Arg, spec, KafkaHost, KafkaSm, fire}
use mongoctl.Kafka.Monitor.{contains, member_start}

-- A candidate bears the name; no candidate does.
abbrev pub IsNamed : Bytes → List KafkaCandidateReport → Type 0
IsNamed n cs = (c : KafkaCandidateReport) × Memᴰ c cs × (c.node_name ≡ n)

abbrev pub IsNameless : Bytes → List KafkaCandidateReport → Type 0
IsNameless n cs = (c : KafkaCandidateReport) → Memᴰ c cs → c.node_name ≢ n

contains-IsNamed :
    (n : Bytes) (cs : List KafkaCandidateReport)
    → contains n (map (λ c. c.node_name) cs) ≡ true
    → IsNamed n cs
unfolding contains
contains-IsNamed n [] h = absurd (grind (arith, h))
contains-IsNamed n (c ∷ cs) h = elim (Bool-cases (str_eq c.node_name n)) [
  | inl e ↦ (c, Memᴰ.head refl, (str_eq_iff c.node_name n).0 e)
  | inr e ↦
      let (d, mem, same) = contains-IsNamed n cs (ground (arith, h, e)) in (d, Memᴰ.tail mem, same)
]

IsNamed-contains :
    (n : Bytes) (cs : List KafkaCandidateReport) (c : KafkaCandidateReport)
    → Memᴰ c cs
    → c.node_name ≡ n
    → contains n (map (λ d. d.node_name) cs) ≡ true
unfolding contains
IsNamed-contains n [] c m same = elim m [ ]
IsNamed-contains n (d ∷ cs) c (Memᴰ.head e) same =
    let first = str_eq-true (sym (ap (λ (x : KafkaCandidateReport). x.node_name) e) ∙ same) in
    ground (arith, first)
IsNamed-contains n (d ∷ cs) c (Memᴰ.tail m) same =
    let rest = IsNamed-contains n cs c m same in ground (arith, rest)

pub IsNamed-or_not : (n : Bytes) (cs : List KafkaCandidateReport) → IsNamed n cs ⊎ IsNameless n cs
IsNamed-or_not n cs = elim (Bool-cases (contains n (map (λ c. c.node_name) cs))) [
  | inl there ↦ inl (contains-IsNamed n cs there)
  | inr none_so ↦
      inr (λ c mem same. absurd (grind (arith, none_so, IsNamed-contains n cs c mem same)))
]

module _ {W : Type 0} (h : KafkaHost W) (cfg : KafkaConfig)
    (e : Engine State Trigger Arg (KafkaSm W)) where
  -- On the specification of a list of candidates a node starts its server, with that
  -- specification, if a candidate bears its name, and does nothing if none does.
  pub started_members :
      (own : KafkaConfig) (cs : List KafkaCandidateReport) (k : KafkaSm W)
      → let s = generate_repl_config own cs in
        (IsNamed cfg.node_name cs
          → member_start h cfg e s k ≡ fire h cfg e start (spec s ∷ []) init k)
        × (IsNameless cfg.node_name cs
            → member_start h cfg e s k
              ≡ some (record { outcome = ok tt; state = init; world = k; queued = [] }))
  unfolding member_start generate_repl_config
  started_members own cs k = (
    λ (c, mem, same). rw (IsNamed-contains cfg.node_name cs c mem same) refl,
    λ other. elim (Bool-cases (contains cfg.node_name (map (λ c. c.node_name) cs))) [
      | inl there ↦
          let (c, mem, same) = contains-IsNamed cfg.node_name cs there in absurd (other c mem same)
      | inr none_so ↦ rw none_so refl
    ],
  )
