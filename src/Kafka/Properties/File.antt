-- ===== src/Kafka/Properties/File.antt =====
-- The file that `createConfig` leaves, from a specification to what the server reads.
use mongoctl.Prelude.{
  ◌≡◌, ◌≢◌, List, [], ◌∷◌, map, refl, ◌∙◌, arith, ap, Bytes, codes, some, Lacks, All, All-append,
  ok,
}
use mongoctl.Prelude.Perms.{All-prop}
use mongoctl.Text.Parts.{split, join, split-join}
use mongoctl.Kafka.{KafkaConfig, KafkaCandidateReport, endpoint, generate_repl_config}
use mongoctl.Kafka.Machine.{create_props}
use mongoctl.Kafka.Properties.{render, slashes, normalize, Files, cfg_file, create_config}
use mongoctl.Kafka.Properties.Escape.{IsPlain, escape_iff}
use mongoctl.Kafka.Properties.ReadBack.{IsOneLine, read_property, read_property-render}

pub slashes-Lacks : (s : Bytes) → Lacks b'\\' (slashes s)
unfolding slashes
slashes-Lacks [] = tt
slashes-Lacks (c ∷ s) = (ground arith, slashes-Lacks s)

-- The address and port of a candidate's controller hold no comma, and no byte that HTML escapes.
pub record IsServable (c : KafkaCandidateReport) : Type 0 where
  pub addr_plain : All IsPlain c.controller_addr
  pub port_plain : All IsPlain c.controller_port
  pub addr_part : Lacks b',' c.controller_addr
  pub port_part : Lacks b',' c.controller_port

Plain-prop : (s : Bytes) → IsProp (All IsPlain s)
Plain-prop s = All-prop IsPlain s (λ c. hlevel)

part-prop : (s : Bytes) → IsProp (Lacks b',' s)
part-prop s = All-prop _ s (λ c. hlevel)

pub IsServable-prop : (c : KafkaCandidateReport) → IsProp (IsServable c)
IsServable-prop c h h' = λ i. record {
  addr_plain = Plain-prop c.controller_addr h.addr_plain h'.addr_plain i;
  port_plain = Plain-prop c.controller_port h.port_plain h'.port_plain i;
  addr_part = part-prop c.controller_addr h.addr_part h'.addr_part i;
  port_part = part-prop c.controller_port h.port_part h'.port_part i;
}

abbrev pub endpoints : List KafkaCandidateReport → List Bytes
endpoints = map (λ m. endpoint m.controller_addr m.controller_port)

colon-IsPlain : IsPlain b':'
colon-IsPlain = ground arith

endpoints-Lacks :
    (cs : List KafkaCandidateReport) → All IsServable cs → All (Lacks b',') (endpoints cs)
unfolding endpoint
endpoints-Lacks [] h = tt
endpoints-Lacks (c ∷ cs) (h, hs) = (
  All-append _ c.controller_addr _ h.addr_part (ground arith, h.port_part),
  endpoints-Lacks cs hs,
)

endpoint-IsPlain :
    (c : KafkaCandidateReport)
    → IsServable c
    → All IsPlain (endpoint c.controller_addr c.controller_port)
unfolding endpoint
endpoint-IsPlain c h =
    All-append IsPlain c.controller_addr _ h.addr_plain (colon-IsPlain, h.port_plain)

servers-IsPlain :
    (cs : List KafkaCandidateReport) → All IsServable cs → All IsPlain (join b',' (endpoints cs))
unfolding join
servers-IsPlain [] h = tt
servers-IsPlain (c ∷ []) (h, _) = endpoint-IsPlain c h
servers-IsPlain (c ∷ c' ∷ cs) (h, hs) =
    All-append IsPlain (endpoint c.controller_addr c.controller_port) _ (endpoint-IsPlain c h)
      (ground arith, servers-IsPlain (c' ∷ cs) hs)

endpoints-ne : (cs : List KafkaCandidateReport) → cs ≢ [] → endpoints cs ≢ []
endpoints-ne [] n = absurd (n refl)
endpoints-ne (c ∷ cs) n = cc

module _ {W : Type 0} (fs : Files W) (content : W → Bytes → Bytes) (alloc_dir : Bytes)
    -- The configurations of the node, and of the controller that made the specification.
    (cfg own : KafkaConfig)
    -- A file that was written without an error holds what was written.
    (stored : (file text : Bytes) (w w' : W)
      → fs.write file text w ≡ (ok tt, w')
      → content w' file ≡ text) where
  file_slashes : Lacks b'\\' (cfg_file fs alloc_dir)
  unfolding cfg_file normalize
  file_slashes =
      slashes-Lacks
        (fs.clean (fs.join_path (normalize fs.clean alloc_dir) (codes "server.properties")))

  servers_read :
      (cs : List KafkaCandidateReport)
      → All IsServable cs
      → IsOneLine (create_props (normalize fs.clean) cfg (generate_repl_config own cs))
      → read_property
          (codes "controller.quorum.bootstrap.servers")
          (render (create_props (normalize fs.clean) cfg (generate_repl_config own cs)))
        ≡ some (join b',' (endpoints cs))
  unfolding create_props generate_repl_config
  servers_read cs h one =
      let (_, _, _, servers, _, _) =
        read_property-render (create_props (normalize fs.clean) cfg (generate_repl_config own cs))
          one in
      servers
      ∙ ap (λ (t : Bytes). some t)
          ((escape_iff (join b',' (endpoints cs))).1 (servers-IsPlain cs h))

  -- For a specification of one candidate or more whose controllers' addresses and ports hold no
  -- comma and no byte that HTML escapes: where the calls of the file system succeed and no property
  -- holds a line's end, `createConfig` returns a path with no backslash, and from that file the
  -- candidates' endpoints are read back, all and in order, as the bootstrap servers.
  pub create_config_servers :
      (cs : List KafkaCandidateReport) (w w1 w2 w3 : W)
      → let file = cfg_file fs alloc_dir in
        let s = generate_repl_config own cs in
        let p = create_props (normalize fs.clean) cfg s in
        cs ≢ []
        → All IsServable cs
        → IsOneLine p
        → fs.mkdir_all (fs.dir file) w ≡ (ok tt, w1)
        → fs.open_empty file w1 ≡ (ok tt, w2)
        → fs.write file (render p) w2 ≡ (ok tt, w3)
        → (create_config fs alloc_dir cfg s w ≡ (ok file, w3))
          × Lacks b'\\' file
          × (v : Bytes) × (read_property
                (codes "controller.quorum.bootstrap.servers")
                (content w3 file)
              ≡ some v)
          × (split b',' v ≡ endpoints cs)
  unfolding create_config
  create_config_servers cs w w1 w2 w3 ne h one made opened wrote = (
    rw (made, opened, wrote),
    file_slashes,
    join b',' (endpoints cs),
    rw (stored _ _ w2 w3 wrote) (servers_read cs h one),
    split-join b',' (endpoints cs) (endpoints-ne cs ne) (endpoints-Lacks cs h),
  )
