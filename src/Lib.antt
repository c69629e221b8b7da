-- ===== src/Lib.antt =====
-- A verification of goctl, which sets up and keeps MongoDB replica sets and Kafka clusters under
-- Nomad, with Consul as its store. Paths are from the repository's root.
--
-- The parts and how they interact. Each member collects a report of itself and puts it into the
-- store (goctl/internal/store/store.go). One controller (goctl/internal/replset/replica.go) watches
-- the reports, waits for a timer, sorts them, generates a specification from the best three,
-- publishes it in the store and registers a Nomad job. Each member watches the specification and
-- applies it: a MongoDB member (goctl/internal/replset/mongo.go and mongo-control.go) by a wipe, an
-- initiation or a reconfiguration through its client (goctl/internal/util/mongo.go); a Kafka member
-- (goctl/internal/replset/kafka.go and kafka-control.go) by formatting its storage and running a
-- server. Members publish their health under a session in the store.
--
-- The files.
--   Prelude and its children: shared names, native numbers, bytes, outcomes of calls, permutations.
--     `Outcome` is a value, an error or a panic; `Io W` is a call on a state.
--   Text: strings.Split and Join, strconv.ParseInt(s, 10, 32) and the verb %d on bytes.
--   Sorting: sortCandidates over the contract of slices.SortFunc, and an insertion sort that meets it.
--   Stateless: github.com/qmuntal/stateless behind `Engine`, which processes one trigger as its
--     documentation says (`documented`); Stateless/Queue drains a queue of triggers.
--   Mongo/Types, Report, Health, Spec: the data, Less, IsHealthy, generateReplConfig, GetMembers.
--   Mongo/Members: ParseMembers. Mongo/Client: the commands of MongoClient over `Driver`.
--   Mongo/Status: GetMemberStatus, checkWipeRequirment. Mongo/Primary: configPrimary.
--   Mongo/Member: wipeDB and a round of memberTask over `Host`; Mongo/Run: memberTask as a whole.
--     Mongo/Offline: collect. Mongo/Process: ShutdownWithTimeout and Repair over `Proc`, and the
--     options of a connection. Mongo/Process/Waits: the goroutines of Start and ShutdownWithTimeout,
--     as a step relation; its children hold the proofs.
--   Control: publishReplSpec and the state; Control/Machine: the setup that ControllerTask makes;
--     Control/Loop: its events; Control/Handlers: handleCandidates and handleTimer. Control/Steps,
--     Safety, Unsaved, Deploy, Elect and Journey hold the proofs, those of a MongoDB set and of a
--     Kafka cluster as a whole in Journey's children.
--   Kafka: the data; Kafka/Machine: KafkaSM over `KafkaHost`; Kafka/Monitor: startMonitor and
--     memberTask; Kafka/Clean: kafkautil/kafkautil.go; Kafka/Properties: createConfig and its
--     template; Kafka/Process: startKafkaProcess; Kafka/Node: what KafkaSM's actions call, over
--     `Files` and `Shell`. Kafka/Runs, Serving and Spec hold the proofs.
--   Store: ConsulStore over `Consul`; Store/Report, Health, Renewal, Watch and Config: its operations;
--     Store/Tasks: PreStartTask and MemberTask, which call them; Store/Reported holds a proof.
--   Program: configure of goctl/cmd/goctl/main.go, which goctl/main.go repeats, over `Viper`;
--     Program/Start: main. Program/Laws says what is known of viper; Program/Defaults, Quorum
--     and Start/Launch hold the proofs.
--   Examples: the theorems at concrete inputs.
--
-- Conventions. A text is a list of bytes. A map is an association list in the order of its writes,
-- and a `range` over it visits it in any order, the one of a `RangeOrder`. A goroutine, a timer or a
-- channel is an explicit sequence of events. A JSON text is an argument, marshalled already. Logging
-- and sleeping are left out.
--
-- Bounds and fuel. An identifier of a member is an int32, by ParseInt; the version of a
-- configuration wraps at 64 bits; a number that is only copied or compared has no bound. A queue of
-- triggers is drained on fuel: the controller's actions fire none, so one step is enough; a chain of
-- KafkaSM's has at most three. A queue that is not done is the state `stuck` of Kafka's, and counts
-- as `crashed` in the controller.
-- The search for a check makes five attempts, as in the code.
--
-- Not modelled: the demonstrations, the record that goctl/internal/util/kafka.go declares, and the
-- Java sources, which are another program. A tick of a member's ticker falls between two rounds of
-- its loop, not inside one, and the goroutines of a process are modelled for one Start, not across a
-- second one. Consul, Nomad, viper, the MongoDB driver, the Kafka client, processes and
-- files are the arguments `Consul`, `Outside`, `Viper`, `Driver`, `Mongod`, `Proc`, `KafkaHost`,
-- `Host`, `Files`, `Shell` and `FileSystem`.
mod Prelude
pub mod Text
pub mod Sorting
pub mod Mongo
pub mod Stateless
pub mod Control
pub mod Kafka
pub mod Store
pub mod Program
mod Examples
