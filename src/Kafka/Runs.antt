-- ===== src/Kafka/Runs.antt =====
-- What `KafkaSM` does on each path: start, failures, shutdown and exit.
use mongoctl.Prelude.{
  List, [], ◌∷◌, ◌≡◌, refl, ◌∙◌, arith, Option, some, true, false, Bytes, Outcome, ok, err, panic,
  Error,
}
use mongoctl.Stateless.{Engine, Fired, documented}
use mongoctl.Stateless.Queue.{drain, engine_step}
use mongoctl.Kafka.{KafkaConfig, KafkaReplSetSpec}
use mongoctl.Kafka.Machine.{
  State, init, formatting, startup, Trigger, start, Arg, spec, KafkaHost, opened, KafkaSm,
  create_props, storage_args, kafka_sm, new_kafka_sm, fire,
}

module _ {W : Type 0} (h : KafkaHost W) (cfg : KafkaConfig)
    (e : Engine State Trigger Arg (KafkaSm W)) where
  pub fire_book :
      (t : Trigger) (args : List Arg) (s : State) (k : KafkaSm W)
      → fire h cfg e t args s k ≡ drain (documented (kafka_sm h cfg)) 3 ((t, args) ∷ []) s k
  unfolding fire
  fire_book t args s k = rw (engine_step e (kafka_sm h cfg))

  abbrev fired :
      Outcome (Unit {0}) → State → KafkaSm W → Option (Fired State Trigger Arg (KafkaSm W))
  fired r s k = some (record { outcome = r; state = s; world = k; queued = [] })

  module _ (s : KafkaReplSetSpec) (w w1 w2 : W) (file : Bytes)
      (wrote : h.write_config (create_props h.normalize cfg s) (h.clean w) ≡ (ok file, w1)) where
    -- Where its calls succeed, a start with a specification writes the configuration, formats the
    -- storage with it, starts the server on the normalized file, and ends in `startup` with the
    -- monitor running.
    pub start_succeeds :
        (w3 : W)
        → h.run_storage (storage_args s (h.normalize file)) w1 ≡ (ok tt, w2)
        → h.start_process (h.normalize file) w2 ≡ (ok tt, w3)
        → fire h cfg e start (spec s ∷ []) init (new_kafka_sm w)
          ≡ fired (ok tt) startup (record {
            cfg_file = h.normalize file;
            stop = opened;
            cancel = true;
            cancelled = false;
            exited = false;
            world = w3;
          })
    unfolding drain documented kafka_sm
    start_succeeds w3 f p = fire_book _ _ _ _ ∙ ground arith

    -- A failed format leaves the machine formatting, with no process and no monitor.
    pub format_fails :
        (x : Error)
        → h.run_storage (storage_args s (h.normalize file)) w1 ≡ (err x, w2)
        → fire h cfg e start (spec s ∷ []) init (new_kafka_sm w)
          ≡ fired (err x) formatting (record (new_kafka_sm w2) { cfg_file = h.normalize file })
    unfolding drain documented kafka_sm
    format_fails x f = fire_book _ _ _ _ ∙ ground arith

    -- A server process that does not start ends in a panic, not in the exit that `failed` makes: the
    -- monitor's channel was not made yet, and leaving `starting` closes it.
    pub process_fails :
        (x : Error) (w3 : W)
        → h.run_storage (storage_args s (h.normalize file)) w1 ≡ (ok tt, w2)
        → h.start_process (h.normalize file) w2 ≡ (err x, w3)
        → (f : Fired State Trigger Arg (KafkaSm W)) × (fire h cfg e start
              (spec s ∷ [])
              init
              (new_kafka_sm w)
            ≡ some f)
          × (f.outcome ≡ panic)
          × (f.world.exited ≡ false)
          × (f.state ≡ startup)
    unfolding drain documented kafka_sm
    process_fails x w3 f p = (
      record {
        outcome = panic;
        state = startup;
        world = record (new_kafka_sm w3) { cfg_file = h.normalize file; cancel = true };
        queued = [];
      },
      fire_book _ _ _ _ ∙ ground arith,
      refl,
      refl,
      refl,
    )
