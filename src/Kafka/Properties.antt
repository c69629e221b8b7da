-- ===== src/Kafka/Properties.antt =====
-- internal/replset/kafka-control.go: `createConfig`, its template of server.properties, and
-- `normalize`. The template is one of html/template, whose values are escaped for HTML.
pub mod Escape
pub mod ReadBack
pub mod File
use mongoctl.Prelude.{
  ℕ, List, [], ◌∷◌, ◌++◌, map, Bytes, codes, ◌==◌, if◌then◌else◌, Outcome, ok, err, panic, Io,
  ◌>>=◌, ◌>>◌, pure,
}
use mongoctl.Text.Parts.{join}
use mongoctl.Kafka.{ServerProperties, KafkaConfig, KafkaReplSetSpec}
use mongoctl.Kafka.Machine.{create_props}

-- What html/template writes for one byte of a value in the text of a document. The replacement
-- character stands for NUL.
unfoldable pub escape_byte : ℕ → Bytes
escape_byte c =
    if c == 0
    then 0xef ∷ 0xbf ∷ 0xbd ∷ []
    else if c == b'"'
    then codes "&#34;"
    else if c == b'&'
    then codes "&amp;"
    else if c == b'\''
    then codes "&#39;"
    else if c == b'+'
    then codes "&#43;"
    else if c == b'<'
    then codes "&lt;"
    else if c == b'>'
    then codes "&gt;"
    else c ∷ []

unfoldable pub escape : Bytes → Bytes
escape [] = []
escape (c ∷ s) = escape_byte c ++ escape s

-- The comment of `combinedTpl`, in UTF-8.
abbrev pub comment : Bytes
comment =
    codes "# broker listener (clients buraya ba"
    ++ (0xc4 ∷ 0x9f ∷ b'l' ∷ b'a' ∷ b'n' ∷ 0xc4 ∷ 0xb1 ∷ b'r' ∷ b')' ∷ [])

-- The lines of `combinedTpl`, with the values of the properties in their places.
unfoldable pub lines : ServerProperties → List Bytes
lines p =
    (codes "node.id=" ++ escape p.id)
    ∷ codes "process.roles=broker,controller"
    ∷ []
    ∷ comment
    ∷ (codes "listeners=PLAINTEXT://"
        ++ (escape p.broker_addr ++ (codes ",CONTROLLER://" ++ escape p.controller_addr)))
    ∷ (codes "advertised.listeners=PLAINTEXT://" ++ escape p.broker_addr)
    ∷ codes "inter.broker.listener.name=PLAINTEXT"
    ∷ codes "controller.listener.names=CONTROLLER"
    ∷ codes "listener.security.protocol.map=PLAINTEXT:PLAINTEXT,CONTROLLER:PLAINTEXT"
    ∷ []
    ∷ (codes "controller.quorum.bootstrap.servers=" ++ escape p.bootstrap_servers)
    ∷ []
    ∷ (codes "log.dirs=" ++ escape p.log_dir)
    ∷ (codes "metadata.log.dir=" ++ escape p.meta_log_dir)
    ∷ codes "num.partitions=3"
    ∷ codes "default.replication.factor=2"
    ∷ codes "min.insync.replicas=2"
    ∷ []

unfoldable pub render : ServerProperties → Bytes
render p = join b'\n' (lines p)

-- `strings.ReplaceAll(clean, "\", "/")`.
unfoldable pub slashes : Bytes → Bytes
slashes = map (λ c. if c == b'\\' then b'/' else c)

unfoldable pub normalize : (Bytes → Bytes) → Bytes → Bytes
unfolding slashes
normalize clean path = slashes (clean path)

-- The packages filepath and os.
pub record Files (W : Type 0) : Type 0 where
  pub clean : Bytes → Bytes
  pub join_path : Bytes → Bytes → Bytes
  pub dir : Bytes → Bytes
  pub mkdir_all : Bytes → Io W Unit
  -- The file is there and empty after this.
  pub open_empty : Bytes → Io W Unit
  pub write : Bytes → Bytes → Io W Unit

unfoldable pub cfg_file : {W : Type 0} → Files W → Bytes → Bytes
unfolding normalize
cfg_file fs alloc_dir =
    normalize fs.clean (fs.join_path (normalize fs.clean alloc_dir) (codes "server.properties"))

-- The variable NOMAD_ALLOC_DIR is an argument. The error of `Close` is dropped.
unfoldable pub write_props : {W : Type 0} → Files W → Bytes → ServerProperties → Io W Bytes
unfolding cfg_file render
write_props fs alloc_dir props = do
  let file = cfg_file fs alloc_dir
  fs.mkdir_all (fs.dir file)
  fs.open_empty file
  fs.write file (render props)
  pure file

unfoldable pub create_config :
    {W : Type 0} → Files W → Bytes → KafkaConfig → KafkaReplSetSpec → Io W Bytes
unfolding write_props
create_config fs alloc_dir cfg s =
    write_props fs alloc_dir (create_props (normalize fs.clean) cfg s)
