-- ===== src/Examples/Election.antt =====
-- A controller with three reports, and with one.
use mathlib.Core.List.{Mem}
use mongoctl.Prelude.{
  ℕ, ◌+◌, ◌≤◌, List, [], ◌∷◌, map, ◌≡◌, refl, arith, codes, ok, err, panic, some, none, true,
  failure, Error, false, Bytes, Outcome, length, take, Option,
}
use mongoctl.Sorting.{sort_candidates}
use mongoctl.Sorting.Insertion.{insertion, insertion_sort}
use mongoctl.Stateless.Queue.{by_the_book, drain}
use mongoctl.Stateless.{Engine, Fired}
use mongoctl.Mongo.Report.{IsNoLater, MongoCandidateReport, less}
use mongoctl.Mongo.Spec.{MongoReplSetSpec, get_members}
use mongoctl.Control.{Kind, ReplicaSetStatus, Outside, Control, publish_repl_spec, initiation}
use mongoctl.Control.Machine.{
  State, configuration, monitoring, initial_configuration, Trigger, Arg, reports, arm, repl_ctrl,
  deploy,
}
use mongoctl.Control.Loop.{
  Sys, running, crashed, Event, report, health_status, expire, deliver, pick, fire, run,
  controller_task, fresh,
}
use mongoctl.Control.Elect.{mongo_kind}
use mongoctl.Control.Safety.{Stays, run_monitoring, run_configuration}
use mongoctl.Control.Unsaved.{IsUnsaved, controller_task-IsUnsaved, small_cluster_crashes}
use mongoctl.Control.Deploy.{failed_publication_stays}
use mongoctl.Control.Journey.Callbacks.{first_callback_deploys}
use mongoctl.Control.Journey.Election.{mongo_election}
use mongoctl.Control.Handlers.{handle_timer}
use mongoctl.Control.Handlers.Agreement.{Agrees, same_deployment}
use mongoctl.Examples.Data.{
  first, second, third, first-IsPrintable, second-IsPrintable, third-IsPrintable,
}

-- The outside counts what it is asked for; it registers a job or does not.
abbrev pub outside : Outcome (Unit {0}) → Outside MongoReplSetSpec (Unit {0}) ℕ
outside registered = record {
  update_repl_set_config = λ spec w. (ok tt, w + 1);
  new_client = λ w. (ok tt, w);
  read_file = λ file w. (ok file, w);
  parse_hcl = λ text vars w. (ok tt, w);
  register = λ job w. (registered, w + 10);
}

abbrev pub three : List MongoCandidateReport
three = first ∷ second ∷ third ∷ []

abbrev pub MongoControl : Type 0
MongoControl = Control MongoCandidateReport MongoReplSetSpec ℕ

abbrev pub ControlEngine : Type 0
ControlEngine = Engine State Trigger (Arg MongoCandidateReport (Unit {0})) MongoControl

abbrev pub machine : ControlEngine
machine = by_the_book

abbrev pub kind : Kind MongoCandidateReport MongoReplSetSpec
kind = mongo_kind insertion

abbrev spec : MongoReplSetSpec
spec = record {
  count = 3;
  primary = codes "n3";
  members = codes "3:n3:10.0.0.1:27017,2:n2:10.0.0.1:27017,1:n1:10.0.0.1:27017";
  repl_set_id = [];
  repl_set_name = [];
  op_log_first_sec = 0;
  op_log_first_inc = 0;
  op_log_last_sec = 9;
  op_log_lastt_inc = 0;
}

pub always_published :
    (s : MongoReplSetSpec) (names : List Bytes)
    → get_members s ≡ ok names
    → publish_repl_spec kind (outside (ok tt)) (codes "job") s 0 ≡ (ok tt, 11)
unfolding publish_repl_spec mongo_kind
always_published s names e = rw e refl

mongo_election_example :
    (rs : MongoControl) × (s : MongoReplSetSpec) × (p : MongoCandidateReport) × (controller_task
        kind
        (outside (ok tt))
        machine
        (codes "job")
        0
        (report three ∷ expire ∷ deliver 0 ∷ report [] ∷ [])
      ≡ running monitoring rs)
    × (rs.world ≡ 11)
    × (rs.last_spec ≡ some s)
    × (s.count ≡ 3)
    × (s.primary ≡ p.node_name)
    × Mem p three
    × ((m : MongoCandidateReport) → Mem m three → IsNoLater m p)
    × (get_members s ≡ ok (map (λ c. c.node_name) rs.last_members))
mongo_election_example =
    mongo_election insertion (outside (ok tt)) machine (codes "job") 0 (λ s. 11) three
      (report [] ∷ []) (omega arith)
      (first-IsPrintable, (second-IsPrintable, (third-IsPrintable, tt))) always_published

generated :
    kind.generate_repl_config (take 3 (sort_candidates kind.slices kind.less three)) ≡ ok spec
unfolding mongo_kind sort_candidates insertion insertion_sort less
    mongoctl.Mongo.Spec.generate_repl_config mongoctl.Prelude.str_lt mongoctl.Text.Parts.join
    mongoctl.Mongo.Spec.member_str
generated = refl

registers : publish_repl_spec kind (outside (ok tt)) (codes "job") spec 0 ≡ (ok tt, 11)
unfolding publish_repl_spec mongo_kind get_members mongoctl.Mongo.Spec.member_names
    mongoctl.Text.Parts.split
registers = refl

refuses :
    publish_repl_spec kind (outside (err (failure []))) (codes "job") spec 0
    ≡ (err (failure []), 11)
unfolding publish_repl_spec mongo_kind get_members mongoctl.Mongo.Spec.member_names
    mongoctl.Text.Parts.split
refuses = refl

-- A later report does not stop the callback of the first one.
first_callback_deploys_example :
    (rs : MongoControl) × (controller_task kind
        (outside (ok tt))
        machine
        (codes "job")
        0
        (report three ∷ expire ∷ report (first ∷ []) ∷ deliver 0 ∷ [])
      ≡ running monitoring rs)
    × (rs.world ≡ 11)
    × (rs.last_spec ≡ some spec)
    × (rs.last_members ≡ take 3 (sort_candidates kind.slices kind.less three))
first_callback_deploys_example =
    first_callback_deploys kind (outside (ok tt)) machine (codes "job") 0 11
      (report three ∷ expire ∷ report (first ∷ []) ∷ []) [] 0 three spec (refl, (refl, (refl, tt)))
      refl (omega arith) generated registers

abbrev at_start : MongoControl
at_start = fresh kind (outside (ok tt)) machine (codes "job") 0

failed_publication_stays_example :
    (rs : MongoControl) × (run kind (outside (err (failure []))) machine (report three ∷ []) (
        fire kind
          (outside (err (failure [])))
          machine
          initial_configuration
          (reports three ∷ [])
          configuration
          at_start)
      ≡ running monitoring rs)
    × (rs.world ≡ 11)
    × (rs.last_spec ≡ none)
unfolding mongo_kind insertion less
failed_publication_stays_example =
    failed_publication_stays kind (outside (err (failure []))) machine three at_start spec
      (omega arith) generated 11 (failure []) (report three ∷ []) refuses

controller_task-IsUnsaved_example : IsUnsaved (
    controller_task kind
      (outside (ok tt))
      machine
      (codes "job")
      0
      (report (first ∷ []) ∷ expire ∷ []))
controller_task-IsUnsaved_example =
    controller_task-IsUnsaved kind (outside (ok tt)) machine (codes "job") 0
      (report (first ∷ []) ∷ expire ∷ [])

-- The controller with one report, when its timer's callback is on its way.
abbrev one_due : MongoControl
one_due = record at_start {
  timer = some (record { seconds = 15; callback = some (first ∷ []); expired = true });
  inflight = (first ∷ []) ∷ [];
}

one_reported :
    controller_task kind
      (outside (ok tt))
      machine
      (codes "job")
      0
      (report (first ∷ []) ∷ expire ∷ [])
    ≡ running configuration one_due
unfolding controller_task mongoctl.Control.Loop.settle mongoctl.Stateless.Queue.drain
    mongoctl.Stateless.documented mongoctl.Control.Machine.repl_ctrl
    mongoctl.Control.Machine.enter_configuration mongoctl.Control.Loop.react
    mongoctl.Control.Loop.expire_timer
one_reported = refl

nothing_generated : kind.generate_repl_config [] ≡ panic
unfolding mongo_kind mongoctl.Mongo.Spec.generate_repl_config
nothing_generated = refl

small_cluster_crashes_example :
    controller_task kind
      (outside (ok tt))
      machine
      (codes "job")
      0
      (report (first ∷ []) ∷ expire ∷ deliver 0 ∷ [])
    ≡ crashed
small_cluster_crashes_example =
    small_cluster_crashes kind (outside (ok tt)) machine (codes "job") 0
      (report (first ∷ []) ∷ expire ∷ []) one_due 0 (first ∷ []) [] nothing_generated one_reported
      (unfold pick in refl) (omega arith)

abbrev quiet : List (Event MongoCandidateReport (Unit {0}))
quiet = report three ∷ health_status [] ∷ expire ∷ []

run_monitoring_example :
    Stays monitoring at_start
      (run kind (outside (ok tt)) machine quiet (running monitoring at_start))
run_monitoring_example = run_monitoring kind (outside (ok tt)) machine quiet at_start

run_configuration_example :
    Stays configuration at_start
      (run kind (outside (ok tt)) machine quiet (running configuration at_start))
run_configuration_example =
    run_configuration kind (outside (ok tt)) machine quiet at_start (refl, (refl, (refl, tt)))

same_deployment_example :
    Agrees {H = Unit {0}} kind
      (outside (ok tt))
      (handle_timer kind
        (outside (ok tt))
        (record at_start { state = ReplicaSetStatus.configuration; candidates = three }))
      (deploy {H = Unit {0}} kind
        (outside (ok tt))
        three
        (record at_start { state = ReplicaSetStatus.configuration; candidates = three }))
same_deployment_example =
    same_deployment {H = Unit {0}} kind (outside (ok tt))
      (record at_start { state = ReplicaSetStatus.configuration; candidates = three }) spec refl
      (omega arith) generated
