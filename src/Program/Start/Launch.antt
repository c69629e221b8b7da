-- ===== src/Program/Start/Launch.antt =====
-- What a start of the program calls, from its flags and its environment.
use mongoctl.Prelude.{
  [], some, err, refl, ℕ, false, ◌≡◌, ◌≢◌, ◌⊎◌, Option, none, Bytes, codes, str_eq, str_eq-false,
  str_eq→≡, str_eq-true, Bool-cases, inl, inr, Outcome, ok, panic, Io,
}
use mongoctl.Store.{ConsulStore, new_consul_store}
use mongoctl.Program.{Viper, Settings, configure}
use mongoctl.Program.Laws.{IsViper}
use mongoctl.Program.Defaults.{expected, configure_lem}
use mongoctl.Program.Start.{
  Flags, ReplicaController, Controllers, mongo_config, kafka_config, or_nil, controller_of,
  run_task, main,
}

pub data Kind : Type 0 where
  mongo : Kind
  kafka : Kind

pub data Job : Type 0 where
  prestart : Job
  controller : Job
  member : Job

abbrev pub kind_text : Kind → Bytes
kind_text mongo = codes "mongo"
kind_text kafka = codes "kafka"

abbrev pub job_text : Job → Bytes
job_text prestart = codes "prestart"
job_text controller = codes "controller"
job_text member = codes "member"

-- A store on the client for an address, or none.
abbrev pub store_at : {W : Type 0} → Outcome W → Bytes → Bytes → Bytes → Option (ConsulStore W)
store_at (ok cli) reports healths config = some (record {
  candidate_report_path = reports;
  health_status_path = healths;
  repl_set_config_path = config;
  session_id = [];
  renew_started = false;
  renewing = false;
  world = cli;
})
store_at (err e) reports healths config = none
store_at panic reports healths config = none

module _ {W U : Type 0} (new_client : Bytes → Outcome W) (c : Controllers W U) where
  -- The controller of a kind, on the store that Consul's address gives, or on none.
  abbrev pub made : Kind → Bytes → Settings → ReplicaController U
  made mongo job_file s =
      c.new_mongo
        (record {
          addr = s.mongo_addr;
          port = s.mongo_port;
          local_addr = s.mongo_local_addr;
          local_port = s.mongo_local_port;
          db_path = s.mongo_data_dir;
          rs_name = s.mongo_rsname;
          node_id = s.node_id;
          node_name = s.node_name;
          key_file = s.mongo_secret_file;
        })
        s.nomad_addr job_file
        (store_at (new_client s.consul_http_addr) (codes "status/mongo") (codes "health/mongo")
          (codes "config/mongo"))
  made kafka job_file s =
      c.new_kafka
        (record {
          cluster_id = s.kafka_cluster_id;
          storage_id = s.kafka_storage_id;
          node_id = s.node_id;
          node_name = s.node_name;
          log_dir = s.kafka_log_dir;
          meta_dir = s.kafka_meta_dir;
          dat_dir = s.kafka_data_dir;
          broker_addr = s.kafka_broker_addr;
          broker_port = s.kafka_broker_port;
          controller_addr = s.kafka_controller_addr;
          controller_port = s.kafka_controller_port;
        })
        s.nomad_addr job_file
        (store_at (new_client s.consul_http_addr) (codes "status/kafka") (codes "health/kafka")
          (codes "config/kafka"))

module _ {U : Type 0} where
  abbrev pub performed : Job → Bytes → Settings → ReplicaController U → Io U Unit
  performed prestart job_file s k = k.pre_start_task s.node_name
  performed controller job_file s k = k.controller_task job_file
  performed member job_file s k = k.member_task s.node_name

  -- A panic for a task that is known, and nothing for another.
  abbrev pub IsRejected : Flags → Outcome (Unit {0}) × U → U → Type 0
  IsRejected f r w =
      ((j : Job) × (f.task_type ≡ job_text j) × (r ≡ (panic, w)))
      ⊎ (((j : Job) → f.task_type ≢ job_text j) × (r ≡ (ok tt, w)))

made-store_at :
    {W : Type 0} (new_client : Bytes → Outcome W) (address reports healths config : Bytes)
    → or_nil (
        new_consul_store new_client address
          (record { report_path = reports; health_path = healths; config_path = config }))
      ≡ store_at (new_client address) reports healths config
unfolding new_consul_store
made-store_at {W} new_client address reports healths config = by_client (new_client address)
  where
    by_client :
        (r : Outcome W)
        → or_nil (elim r [
          | ok cli ↦ ok (record {
            candidate_report_path = reports;
            health_status_path = healths;
            repl_set_config_path = config;
            session_id = [];
            renew_started = false;
            renewing = false;
            world = cli;
          })
          | err e ↦ err e
          | panic ↦ panic
        ])
          ≡ store_at r reports healths config
    by_client (ok cli) = refl
    by_client (err e) = refl
    by_client panic = refl

module _ {W U V : Type 0} (new_client : Bytes → Outcome W) (c : Controllers W U) (vi : Viper V)
    (env : Bytes → Bytes) (to_uint : Bytes → ℕ) (IsUnset : Bytes → V → Type 0)
    (law : IsViper vi env to_uint IsUnset) (tmp : Bytes) where
  -- A start in a package that nothing was set in, with a type and a task by name, calls that task of
  -- that type's controller, once and nothing else: configured from the environment or the defaults,
  -- with the flag's job file, under the node's name, and on the type's own paths of the store at
  -- Consul's address, or on no store where there is no client for that address.
  pub main_launches :
      (k : Kind) (j : Job) (f : Flags) (v : V)
      → ((key : Bytes) → IsUnset key v)
      → f.repl_type ≡ kind_text k
      → f.task_type ≡ job_text j
      → main new_client c vi tmp f v
        ≡ performed j f.job_file
            (expected env to_uint tmp)
            (made new_client c k f.job_file (expected env to_uint tmp))
  unfolding main controller_of run_task str_eq mongo_config kafka_config
  main_launches mongo prestart f v new t a = rw (
    configure_lem vi env to_uint IsUnset law tmp f.job_file v new,
    t,
    a,
    made-store_at new_client,
  )
  main_launches mongo controller f v new t a = rw (
    configure_lem vi env to_uint IsUnset law tmp f.job_file v new,
    t,
    a,
    made-store_at new_client,
  )
  main_launches mongo member f v new t a = rw (
    configure_lem vi env to_uint IsUnset law tmp f.job_file v new,
    t,
    a,
    made-store_at new_client,
  )
  main_launches kafka prestart f v new t a = rw (
    configure_lem vi env to_uint IsUnset law tmp f.job_file v new,
    t,
    a,
    made-store_at new_client,
  )
  main_launches kafka controller f v new t a = rw (
    configure_lem vi env to_uint IsUnset law tmp f.job_file v new,
    t,
    a,
    made-store_at new_client,
  )
  main_launches kafka member f v new t a = rw (
    configure_lem vi env to_uint IsUnset law tmp f.job_file v new,
    t,
    a,
    made-store_at new_client,
  )

module _ {W U V : Type 0} (new_client : Bytes → Outcome W) (c : Controllers W U) (vi : Viper V)
    (tmp : Bytes) where
  refused :
      (s : Settings) (f : Flags) (w : U) (j : Job)
      → f.task_type ≡ job_text j
      → run_task new_client c none s f w ≡ (panic, w)
  unfolding run_task str_eq
  refused s f w prestart a = rw a
  refused s f w controller a = rw a
  refused s f w member a = rw a

  none_of :
      (s : Settings) (f : Flags) (w : U)
      → f.task_type ≢ codes "prestart"
      → f.task_type ≢ codes "controller"
      → f.task_type ≢ codes "member"
      → (ctrl : Option (ReplicaController U)) → run_task new_client c ctrl s f w ≡ (ok tt, w)
  unfolding run_task
  none_of s f w n n' n'' ctrl = rw (str_eq-false n, str_eq-false n', str_eq-false n'')

  no_controller :
      (s : Settings) (f : Flags)
      → ((k : Kind) → f.repl_type ≢ kind_text k)
      → controller_of new_client c s f ≡ none
  unfolding controller_of
  no_controller s f n = rw (str_eq-false (n kafka), str_eq-false (n mongo))

  unknown_task :
      (s : Settings) (f : Flags) (w : U)
      → ((j : Job) → f.task_type ≢ job_text j)
      → run_task new_client c none s f w ≡ (ok tt, w)
  unknown_task s f w n = none_of s f w (n prestart) (n controller) (n member) none

  task-IsRejected :
      (s : Settings) (f : Flags) (w : U) → IsRejected f (run_task new_client c none s f w) w
  task-IsRejected s f w = elim (Bool-cases (str_eq f.task_type (codes "prestart"))) [
    | inl y ↦ known prestart (str_eq→≡ _ _ y)
    | inr x ↦ elim (Bool-cases (str_eq f.task_type (codes "controller"))) [
      | inl y ↦ known controller (str_eq→≡ _ _ y)
      | inr x' ↦ elim (Bool-cases (str_eq f.task_type (codes "member"))) [
        | inl y ↦ known member (str_eq→≡ _ _ y)
        | inr x'' ↦ inr (unnamed x x' x'', unknown_task s f w (unnamed x x' x''))
      ]
    ]
  ]
    where
      known :
          (j : Job) → f.task_type ≡ job_text j → IsRejected f (run_task new_client c none s f w) w
      known j a = inl (j, a, refused s f w j a)

      unnamed :
          str_eq f.task_type (codes "prestart") ≡ false
          → str_eq f.task_type (codes "controller") ≡ false
          → str_eq f.task_type (codes "member") ≡ false
          → (j : Job) → f.task_type ≢ job_text j
      unnamed x x' x'' prestart = λ e. cc (x, str_eq-true e)
      unnamed x x' x'' controller = λ e. cc (x', str_eq-true e)
      unnamed x x' x'' member = λ e. cc (x'', str_eq-true e)

  -- A start whose type is neither of the two does nothing but panic, if its task is one of the
  -- three, and does nothing at all if not.
  pub main_rejects :
      (f : Flags) (v : V) (w : U)
      → ((k : Kind) → f.repl_type ≢ kind_text k)
      → IsRejected f (main new_client c vi tmp f v w) w
  unfolding main
  main_rejects f v w n =
      let s = configure vi tmp f.job_file v in rw (no_controller s f n) (task-IsRejected s f w)
