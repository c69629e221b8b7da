-- ===== src/Kafka/Properties/ReadBack.antt =====
-- The file server.properties, read back line by line.
use mongoctl.Prelude.{
  ℕ, ◌≡◌, ◌↔◌, List, [], ◌∷◌, ◌++◌, refl, sym, ◌∙◌, arith, ap, Bool, true, ◌&&◌, not, Bytes, codes,
  ◌==◌, if◌then◌else◌, Option, none, some, Lacks, All, All-append,
}
use mathlib.Core.Option.{some-injective}
use mongoctl.Text.Parts.{split, split-join}
use mongoctl.Kafka.{ServerProperties}
use mongoctl.Kafka.Properties.{escape, comment, lines, render}
use mongoctl.Kafka.Properties.Escape.{IsPlain, escape_iff, escape-Lacks}

-- The value that a line gives to a key: what follows the sign of equality.
abbrev value_in : Bytes → Bytes → Option Bytes
value_in [] [] = none
value_in [] (c ∷ s) = if c == b'=' then some s else none
value_in (k ∷ ks) [] = none
value_in (k ∷ ks) (c ∷ s) = let rest = value_in ks s in if k == c then rest else none

abbrev or_else : Option Bytes → Option Bytes → Option Bytes
or_else none b = b
or_else (some a) b = some a

abbrev first_value : Bytes → List Bytes → Option Bytes
first_value key [] = none
first_value key (l ∷ ls) = or_else (value_in key l) (first_value key ls)

-- What a reader of the text finds under a key.
unfoldable pub read_property : Bytes → Bytes → Option Bytes
read_property key text = first_value key (split b'\n' text)

-- No value holds the end of a line.
pub record IsOneLine (p : ServerProperties) : Type 0 where
  pub id_line : Lacks b'\n' p.id
  pub controller_line : Lacks b'\n' p.controller_addr
  pub broker_line : Lacks b'\n' p.broker_addr
  pub meta_line : Lacks b'\n' p.meta_log_dir
  pub log_line : Lacks b'\n' p.log_dir
  pub bootstrap_line : Lacks b'\n' p.bootstrap_servers

lacks : ℕ → Bytes → Bool
lacks b [] = true
lacks b (c ∷ s) = not (c == b) && lacks b s

lacks-true : (b : ℕ) (s : Bytes) → lacks b s ≡ true → Lacks b s
unfolding lacks
lacks-true b [] h = tt
lacks-true b (c ∷ s) h = (ground arith, lacks-true b s (ground arith))

-- A text of the template, and a value after it.
text-Lacks : (s : Bytes) → lacks b'\n' s ≡ true → Lacks b'\n' s
text-Lacks = lacks-true b'\n'

append_escape-Lacks :
    (s v : Bytes) → lacks b'\n' s ≡ true → Lacks b'\n' v → Lacks b'\n' (s ++ escape v)
append_escape-Lacks s v h k = All-append _ s (escape v) (text-Lacks s h) (escape-Lacks v k)

listeners-Lacks :
    (p : ServerProperties)
    → IsOneLine p
    → Lacks b'\n' (
        codes "listeners=PLAINTEXT://"
        ++ (escape p.broker_addr ++ (codes ",CONTROLLER://" ++ escape p.controller_addr)))
unfolding lacks
listeners-Lacks p h =
    All-append _ (codes "listeners=PLAINTEXT://") _
      (text-Lacks (codes "listeners=PLAINTEXT://") refl)
      (All-append _ (escape p.broker_addr) _ (escape-Lacks p.broker_addr h.broker_line)
        (append_escape-Lacks (codes ",CONTROLLER://") p.controller_addr refl h.controller_line))

infixr 20 ◌&◌
abbrev ◌&◌ : {A B : Type 0} → A → B → A × B
a & b = (a, b)

lines-Lacks : (p : ServerProperties) → IsOneLine p → All (Lacks b'\n') (lines p)
unfolding lines lacks
lines-Lacks p h =
    append_escape-Lacks (codes "node.id=") p.id refl h.id_line
    & text-Lacks (codes "process.roles=broker,controller") refl
    & tt
    & text-Lacks comment refl
    & listeners-Lacks p h
    & append_escape-Lacks (codes "advertised.listeners=PLAINTEXT://") p.broker_addr refl
        h.broker_line
    & text-Lacks (codes "inter.broker.listener.name=PLAINTEXT") refl
    & text-Lacks (codes "controller.listener.names=CONTROLLER") refl
    & text-Lacks (codes "listener.security.protocol.map=PLAINTEXT:PLAINTEXT,CONTROLLER:PLAINTEXT")
        refl
    & tt
    & append_escape-Lacks (codes "controller.quorum.bootstrap.servers=") p.bootstrap_servers refl
        h.bootstrap_line
    & tt
    & append_escape-Lacks (codes "log.dirs=") p.log_dir refl h.log_line
    & append_escape-Lacks (codes "metadata.log.dir=") p.meta_log_dir refl h.meta_line
    & text-Lacks (codes "num.partitions=3") refl
    & text-Lacks (codes "default.replication.factor=2") refl
    & text-Lacks (codes "min.insync.replicas=2") refl
    & tt

split-render : (p : ServerProperties) → IsOneLine p → split b'\n' (render p) ≡ lines p
unfolding render
split-render p h = split-join b'\n' (lines p) (unfold lines in cc) (lines-Lacks p h)

-- Each key that the template fills in is found with its escaped value.
pub read_property-render :
    (p : ServerProperties)
    → IsOneLine p
    → (read_property (codes "node.id") (render p) ≡ some (escape p.id))
      × (read_property (codes "listeners") (render p)
          ≡ some (
              codes "PLAINTEXT://"
              ++ (escape p.broker_addr ++ (codes ",CONTROLLER://" ++ escape p.controller_addr))))
      × (read_property (codes "advertised.listeners") (render p)
          ≡ some (codes "PLAINTEXT://" ++ escape p.broker_addr))
      × (read_property (codes "controller.quorum.bootstrap.servers") (render p)
          ≡ some (escape p.bootstrap_servers))
      × (read_property (codes "log.dirs") (render p) ≡ some (escape p.log_dir))
      × (read_property (codes "metadata.log.dir") (render p) ≡ some (escape p.meta_log_dir))
unfolding read_property
read_property-render p h =
    rw (split-render p h) (unfold lines in (refl, refl, refl, refl, refl, refl))

some_iff : (o : Option Bytes) (v : Bytes) → o ≡ some (escape v) → (o ≡ some v) ↔ All IsPlain v
some_iff o v e = (
  λ f. (escape_iff v).0 (some-injective _ _ (sym e ∙ f)),
  λ h. e ∙ ap (λ (t : Bytes). some t) ((escape_iff v).1 h),
)

-- From a file whose values hold no line's end, the number of the node, the bootstrap servers and
-- the two directories are all read back as they were set exactly when they hold none of the bytes
-- NUL, ", &, ', +, < and >: the template is one for HTML.
pub render_iff :
    (p : ServerProperties)
    → IsOneLine p
    → ((read_property (codes "node.id") (render p) ≡ some p.id)
        × (read_property (codes "controller.quorum.bootstrap.servers") (render p)
            ≡ some p.bootstrap_servers)
        × (read_property (codes "log.dirs") (render p) ≡ some p.log_dir)
        × (read_property (codes "metadata.log.dir") (render p) ≡ some p.meta_log_dir))
      ↔ (All IsPlain p.id
          × All IsPlain p.bootstrap_servers
          × All IsPlain p.log_dir
          × All IsPlain p.meta_log_dir)
render_iff p h =
    let (id, _, _, servers, log, meta) = read_property-render p h in
    let i = some_iff _ p.id id in
    let s = some_iff _ p.bootstrap_servers servers in
    let l = some_iff _ p.log_dir log in
    let m = some_iff _ p.meta_log_dir meta in
    (λ (a, b, c, d). (i.0 a, s.0 b, l.0 c, m.0 d), λ (a, b, c, d). (i.1 a, s.1 b, l.1 c, m.1 d))
