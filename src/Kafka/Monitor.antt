-- ===== src/Kafka/Monitor.antt =====
-- internal/replset/kafka-control.go: the goroutine of `startMonitor`, and kafka.go: the start of a
-- member by `memberTask`.
pub mod Membership
use mongoctl.Prelude.{
  ℕ, List, [], ◌∷◌, ◌++◌, map, ◌≡◌, ◌≢◌, ◌↔◌, refl, ap, ◌∙◌, arith, Option, none, some, Bool, true,
  false, ◌&&◌, Bytes, codes, str_eq, if◌then◌else◌, Outcome, ok, err, panic, leb, ◌||◌,
}
use mongoctl.Stateless.{Engine, Fired}
use mongoctl.Kafka.{KafkaConfig, KafkaHealthStatus, KafkaReplSetSpec, is_healthy, to_upper}
use mongoctl.Kafka.Machine.{State, init, Trigger, start, Arg, spec, KafkaHost, KafkaSm, fire}

pub data Phase : Type 0 where
  dialing connected stopped : Phase

pub record Monitor : Type 0 where
  pub phase : Phase
  -- Is the channel `stop` closed?
  pub closed : Bool
  pub sent : List KafkaHealthStatus

-- An attempt to dial; a tick, with the answers on the brokers and on the controller; the closing of
-- `stop`; and a turn in which the closed channel is chosen.
pub data Event : Type 0 where
  dial : Outcome (Unit {0}) → Event
  tick : Outcome (Unit {0}) → Outcome (Unit {0}) → Event
  close : Event
  hear : Event

module _ (cfg : KafkaConfig) where
  unfoldable pub status_of : Bytes → KafkaHealthStatus
  status_of s = record { node_name = cfg.node_name; node_id = cfg.node_id; status = s }

  unfoldable pub answered : Outcome (Unit {0}) → Outcome (Unit {0}) → Bytes
  answered (ok _) (ok _) = codes "OK"
  answered (ok _) _ = codes "ControllerErr"
  answered _ _ = codes "BrokerErr"

  publish : Bytes → Monitor → Monitor
  publish s m = record m { sent = m.sent ++ (status_of s ∷ []) }

  dialled : Outcome (Unit {0}) → Monitor → Monitor
  unfolding publish
  dialled (ok _) m = record m { phase = connected }
  dialled _ m = publish (codes "Disconnected") m

  -- A `break` leaves the `select` alone: the connection stays the same after an error.
  unfoldable pub react : Event → Monitor → Monitor
  unfolding publish dialled
  react (dial r) m = elim m.phase [ dialing ↦ dialled r m | connected ↦ m | stopped ↦ m ]
  react (tick b c) m = elim m.phase [
    | dialing ↦ m
    | connected ↦ publish (answered b c) m
    | stopped ↦ m
  ]
  react close m = record m { closed = true }
  react hear m = elim m.phase [
    | dialing ↦ m
    | connected ↦ if m.closed then record m { phase = stopped } else m
    | stopped ↦ m
  ]

  unfoldable pub run : List Event → Monitor → Monitor
  run [] m = m
  run (ev ∷ events) m = run events (react ev m)

  -- A status that a connected monitor sends on a tick is healthy exactly when both the brokers and
  -- the controller were read.
  pub tick_health :
      (b c : Outcome (Unit {0})) (m : Monitor)
      → m.phase ≡ connected
      → (s : KafkaHealthStatus) × ((react (tick b c) m).sent ≡ m.sent ++ (s ∷ []))
        × ((is_healthy s ≡ true) ↔ ((b ≡ ok tt) × (c ≡ ok tt)))
  unfolding react status_of answered is_healthy str_eq
  tick_health (ok _) (ok _) m e =
      (status_of (codes "OK"), rw e refl, (λ _. (refl, refl), λ _. refl))
  tick_health (ok _) (err x) m e = (status_of (codes "ControllerErr"), rw e refl, ground arith)
  tick_health (ok _) panic m e = (status_of (codes "ControllerErr"), rw e refl, ground arith)
  tick_health (err x) c m e = (status_of (codes "BrokerErr"), rw e refl, ground arith)
  tick_health panic c m e = (status_of (codes "BrokerErr"), rw e refl, ground arith)

  react-connected : (ev : Event) (m : Monitor) → m.phase ≢ dialing → (react ev m).phase ≢ dialing
  unfolding react
  react-connected (dial r) m h = ground arith
  react-connected (tick b c) m h = ground arith
  react-connected close m h = h
  react-connected hear m h = ground arith

  -- A monitor that has connected never dials again, whatever errors its connection brings.
  pub never_dials_again :
      (events : List Event) (m : Monitor) → m.phase ≢ dialing → (run events m).phase ≢ dialing
  unfolding run
  never_dials_again [] m h = h
  never_dials_again (ev ∷ events) m h =
      never_dials_again events (react ev m) (react-connected ev m h)

unfoldable pub contains : Bytes → List Bytes → Bool
contains x [] = false
contains x (y ∷ ys) = str_eq y x || contains x ys

-- `memberTask` on the first specification that it reads.
unfoldable pub member_start :
    {W : Type 0} (h : KafkaHost W) (cfg : KafkaConfig)
    → Engine State Trigger Arg (KafkaSm W)
    → KafkaReplSetSpec
    → KafkaSm W
    → Option (Fired State Trigger Arg (KafkaSm W))
member_start h cfg e s k =
    if contains cfg.node_name s.members
    then fire h cfg e start (spec s ∷ []) init k
    else some (record { outcome = ok tt; state = init; world = k; queued = [] })
