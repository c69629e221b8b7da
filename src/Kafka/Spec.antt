-- ===== src/Kafka/Spec.antt =====
-- The addresses that a Kafka specification carries.
use mathlib.Core.List.{append_cancel_right}
use mongoctl.Prelude.{[], ◌∷◌, ◌≡◌, ◌↔◌, Bytes, Outcome}
use mongoctl.Text.Parts.{join}
use mongoctl.Kafka.{KafkaConfig, collect, endpoint, generate_repl_config}
use mongoctl.Kafka.Machine.{create_props}

-- A node's own entry among the bootstrap servers is the address at which its controller listens
-- exactly when its controller and broker addresses are one: the report gives the broker's.
pub bootstrap_entry_iff :
    (cfg : KafkaConfig) (mtime : Outcome Bytes) (normalize : Bytes → Bytes)
    → ((generate_repl_config cfg (collect cfg mtime ∷ [])).bootstrap_servers
        ≡ (create_props normalize cfg
            (generate_repl_config cfg (collect cfg mtime ∷ []))).controller_addr)
      ↔ (cfg.broker_addr ≡ cfg.controller_addr)
unfolding collect generate_repl_config endpoint join create_props
bootstrap_entry_iff cfg mtime normalize = (
  append_cancel_right cfg.broker_addr cfg.controller_addr (b':' ∷ cfg.controller_port),
  λ h. rw h,
)
