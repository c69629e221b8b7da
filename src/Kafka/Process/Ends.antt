-- ===== src/Kafka/Process/Ends.antt =====
-- How the events of the operating system end a server that has started.
use mongoctl.Prelude.{List, [], ◌∷◌, ◌≡◌, refl, ◌∙◌, ap, arith, Bool, true, false, if◌then◌else◌}
use mongoctl.Stateless.{Engine}
use mongoctl.Kafka.{KafkaConfig}
use mongoctl.Kafka.Machine.{
  State, startup, shutting_down, Trigger, kafka_exit, shutdown, Arg, exit_state, KafkaHost, KafkaSm,
}
use mongoctl.Kafka.Runs.{fire_book}
use mongoctl.Kafka.Serving.{
  alive, gone, HasServer, settle, run, run_gone, startup_shutdown, startup_exit, shutting_down_exit,
}
use mongoctl.Kafka.Process.{OsEvent, interrupt, ended, watching, triggers}

abbrev pub has_ended : List OsEvent → Bool
has_ended [] = false
has_ended (interrupt ∷ es) = has_ended es
has_ended (ended ∷ es) = true

abbrev pub is_interrupted : List OsEvent → Bool
is_interrupted [] = false
is_interrupted (interrupt ∷ es) = true
is_interrupted (ended ∷ es) = is_interrupted es

module _ {W : Type 0} (h : KafkaHost W) (cfg : KafkaConfig)
    (e : Engine State Trigger Arg (KafkaSm W)) where
  -- A manager that shuts down ends with its process; more interrupts do nothing.
  down_run :
      (es : List OsEvent) (k : KafkaSm W)
      → HasServer k
      → run h cfg e
          (triggers es (record { signalled = true; waited = false }))
          (alive shutting_down k)
        ≡ (if has_ended es then gone else alive shutting_down k)
  unfolding run triggers
  down_run [] k v = refl
  down_run (interrupt ∷ es) k v = down_run es k v
  down_run (ended ∷ es) k v =
      ap (run h cfg e _) (
        ap settle (fire_book h cfg e kafka_exit (exit_state ∷ []) shutting_down k)
        ∙ shutting_down_exit h cfg e (exit_state ∷ []) k v)
      ∙ run_gone h cfg e _

  -- A server that has started serves until the operating system speaks: whatever the events and
  -- their order, the manager is gone once the process has ended; before that the first interrupt
  -- has cancelled the process, and no other has done anything.
  pub run-triggers :
      (es : List OsEvent) (k : KafkaSm W)
      → HasServer k
      → run h cfg e (triggers es watching) (alive startup k) ≡ (
          if has_ended es
          then gone
          else if is_interrupted es
          then alive shutting_down (record k { cancelled = true })
          else alive startup k)
  unfolding run triggers
  run-triggers [] k v = refl
  run-triggers (interrupt ∷ es) k v =
      let k' = record k { cancelled = true } in
      ap (run h cfg e _)
        (ap settle (fire_book h cfg e shutdown [] startup k) ∙ startup_shutdown h cfg e [] k v)
      ∙ down_run es k' (ground arith)
  run-triggers (ended ∷ es) k v =
      ap (run h cfg e _) (
        ap settle (fire_book h cfg e kafka_exit (exit_state ∷ []) startup k)
        ∙ startup_exit h cfg e (exit_state ∷ []) k v)
      ∙ run_gone h cfg e _
