-- ===== src/Kafka/Serving.antt =====
-- The manager of a Kafka server that has started: what any later triggers can do to it.
use mathlib.Core.Path.{subst}
use mongoctl.Prelude.{
  List, [], ◌∷◌, ◌≡◌, refl, sym, ◌∙◌, ap, arith, Option, none, some, true, ok, err, panic,
  if◌then◌else◌,
}
use mongoctl.Stateless.{Engine, Fired, documented}
use mongoctl.Stateless.Queue.{drain}
use mongoctl.Kafka.{KafkaConfig}
use mongoctl.Kafka.Machine.{
  State, init, formatting, starting, failed, startup, running, shutting_down, Trigger, kafka_exit,
  shutdown, Arg, KafkaHost, opened, KafkaSm, kafka_sm, fire,
}
use mongoctl.Kafka.Runs.{fire_book}

-- The process as a whole: alive, ended by `os.Exit`, ended by a panic, or out of fuel.
pub data Sys (W : Type 0) : Type 0 where
  alive : State → KafkaSm W → Sys W
  gone : Sys W
  crashed : Sys W
  stuck : Sys W

unfoldable pub settle : {W : Type 0} → Option (Fired State Trigger Arg (KafkaSm W)) → Sys W
settle none = stuck
settle (some f) = elim f.outcome [
  | ok _ ↦ alive f.state f.world
  | err e ↦ alive f.state f.world
  | panic ↦ if f.world.exited then gone else crashed
]

-- The monitor runs, and the process can be cancelled.
pub record HasServer {W : Type 0} (k : KafkaSm W) : Type 0 where
  pub monitored : k.stop ≡ opened
  pub cancellable : k.cancel ≡ true

-- Gone, or alive with a server.
abbrev pub IsServing : {W : Type 0} → Sys W → Type 0
IsServing (alive startup k) = HasServer k
IsServing (alive running k) = HasServer k
IsServing (alive shutting_down k) = HasServer k
IsServing (alive _ k) = ⊥
IsServing gone = Unit
IsServing crashed = ⊥
IsServing stuck = ⊥

module _ {W : Type 0} (h : KafkaHost W) (cfg : KafkaConfig)
    (e : Engine State Trigger Arg (KafkaSm W)) where
  unfoldable pub run : List (Trigger × List Arg) → Sys W → Sys W
  run [] sys = sys
  run ((t, args) ∷ rest) (alive s k) = run rest (settle (fire h cfg e t args s k))
  run (x ∷ rest) gone = gone
  run (x ∷ rest) crashed = crashed
  run (x ∷ rest) stuck = stuck

  pub run_gone : (rest : List (Trigger × List Arg)) → run rest gone ≡ gone
  unfolding run
  run_gone [] = refl
  run_gone (x ∷ rest) = refl

  -- One trigger, by the documentation.
  abbrev pub next : Trigger → List Arg → State → KafkaSm W → Sys W
  next t args s k = settle (drain (documented (kafka_sm h cfg)) 3 ((t, args) ∷ []) s k)

  -- The exit of the server process ends the manager, wherever it stands.
  pub startup_exit :
      (args : List Arg) (k : KafkaSm W) → HasServer k → next kafka_exit args startup k ≡ gone
  unfolding settle drain documented kafka_sm
  startup_exit args k v = ground arith

  running_exit :
      (args : List Arg) (k : KafkaSm W) → HasServer k → next kafka_exit args running k ≡ gone
  unfolding settle drain documented kafka_sm
  running_exit args k v = ground arith

  pub shutting_down_exit :
      (args : List Arg) (k : KafkaSm W) → HasServer k → next kafka_exit args shutting_down k ≡ gone
  unfolding settle drain documented kafka_sm
  shutting_down_exit args k v = ground arith

  -- A shutdown cancels the process.
  pub startup_shutdown :
      (args : List Arg) (k : KafkaSm W)
      → HasServer k
      → next shutdown args startup k ≡ alive shutting_down (record k { cancelled = true })
  unfolding settle drain documented kafka_sm
  startup_shutdown args k v = ground arith

  running_shutdown :
      (args : List Arg) (k : KafkaSm W)
      → HasServer k
      → next shutdown args running k ≡ alive shutting_down (record k { cancelled = true })
  unfolding settle drain documented kafka_sm
  running_shutdown args k v = ground arith

  startup-IsServing :
      (t : Trigger) (args : List Arg) (k : KafkaSm W)
      → HasServer k
      → IsServing (next t args startup k)
  unfolding settle drain documented kafka_sm
  startup-IsServing kafka_exit args k v = subst IsServing (sym (startup_exit args k v)) tt
  startup-IsServing shutdown args k v = subst IsServing (sym (startup_shutdown args k v)) v'
    where
      v' : HasServer (record k { cancelled = true })
      v' = ground arith
  startup-IsServing _ args k v = ground arith

  running-IsServing :
      (t : Trigger) (args : List Arg) (k : KafkaSm W)
      → HasServer k
      → IsServing (next t args running k)
  unfolding settle drain documented kafka_sm
  running-IsServing kafka_exit args k v = subst IsServing (sym (running_exit args k v)) tt
  running-IsServing shutdown args k v = subst IsServing (sym (running_shutdown args k v)) v'
    where
      v' : HasServer (record k { cancelled = true })
      v' = ground arith
  running-IsServing _ args k v = ground arith

  shutting_down-IsServing :
      (t : Trigger) (args : List Arg) (k : KafkaSm W)
      → HasServer k
      → IsServing (next t args shutting_down k)
  unfolding settle drain documented kafka_sm
  shutting_down-IsServing kafka_exit args k v =
      subst IsServing (sym (shutting_down_exit args k v)) tt
  shutting_down-IsServing _ args k v = ground arith

  next-IsServing :
      (t : Trigger) (args : List Arg) (s : State) (k : KafkaSm W)
      → IsServing (alive s k)
      → IsServing (settle (fire h cfg e t args s k))
  next-IsServing t args startup k v =
      rw (fire_book h cfg e t args startup k) (startup-IsServing t args k v)
  next-IsServing t args running k v =
      rw (fire_book h cfg e t args running k) (running-IsServing t args k v)
  next-IsServing t args shutting_down k v =
      rw (fire_book h cfg e t args shutting_down k) (shutting_down-IsServing t args k v)
  next-IsServing t args init k v = absurd v
  next-IsServing t args formatting k v = absurd v
  next-IsServing t args starting k v = absurd v
  next-IsServing t args failed k v = absurd v

  -- Once the server process has started, no sequence of triggers panics or leaves its queue
  -- unfinished: the manager keeps its monitor and its process, or has exited.
  pub run-IsServing :
      (triggers : List (Trigger × List Arg)) (sys : Sys W)
      → IsServing sys
      → IsServing (run triggers sys)
  unfolding run
  run-IsServing [] sys v = v
  run-IsServing ((t, args) ∷ rest) (alive s k) v =
      run-IsServing rest (settle (fire h cfg e t args s k)) (next-IsServing t args s k v)
  run-IsServing (x ∷ rest) gone v = tt
  run-IsServing (x ∷ rest) crashed v = v
  run-IsServing (x ∷ rest) stuck v = v

  -- From a server that has started, a shutdown and then the exit of the process cancel it and end the
  -- manager, whatever follows.
  pub shutdown_then_exit :
      (args args' : List Arg) (k : KafkaSm W) (rest : List (Trigger × List Arg))
      → HasServer k
      → (run ((shutdown, args) ∷ []) (alive startup k)
          ≡ alive shutting_down (record k { cancelled = true }))
        × (run ((shutdown, args) ∷ (kafka_exit, args') ∷ rest) (alive startup k) ≡ gone)
  unfolding run
  shutdown_then_exit args args' k rest v =
      let k' = record k { cancelled = true } in
      let v' : HasServer k' = ground arith in
      let down =
        ap settle (fire_book h cfg e shutdown args startup k) ∙ startup_shutdown args k v in
      let out =
        ap settle (fire_book h cfg e kafka_exit args' shutting_down k')
        ∙ shutting_down_exit args' k' v' in
      (down, ap (run ((kafka_exit, args') ∷ rest)) down ∙ ap (run rest) out ∙ run_gone rest)
