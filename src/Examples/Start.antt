-- ===== src/Examples/Start.antt =====
-- A start of the program with two variables set.
use mongoctl.Text.Parts.{to_lower}
use mongoctl.Prelude.{
  List, ◌∷◌, ◌++◌, map, ℕ, ◌+◌, ◌<◌, ◌≤◌, ◌-◌, ◌⊎◌, [], ◌≡◌, ◌≢◌, refl, arith, true, Bytes, codes,
  str_eq, str_eq_self, Bool-cases, inl, inr, if◌then◌else◌, Outcome, ok, Io,
}
use mongoctl.Program.{Value, Viper, configure, quroum_of}
use mongoctl.Program.Laws.{IsViper, apart, apart-str_eq, or_default}
use mongoctl.Program.Defaults.{expected, configure_lem}
use mongoctl.Program.Quorum.{quroum_of_majority}
use mongoctl.Program.Start.{Flags, Controllers, main}
use mongoctl.Program.Start.Launch.{
  mongo, kafka, member, Kind, kind_text, made, performed, IsRejected, main_launches, main_rejects,
}

environment : Bytes → Bytes
environment name =
    if str_eq name (codes "NODE_NAME")
    then codes "n1"
    else if str_eq name (codes "CONSUL_HTTP_ADDR")
    then codes "http://10.0.0.1:8500"
    else []

abbrev to_uint : Bytes → ℕ
to_uint text = 3

-- By the keys without their case, the defaults and the variables that a key is bound to, in order.
record Values : Type 0 where
  defaults : Bytes → Value
  names : Bytes → List Bytes

abbrev low : Bytes → Bytes
low = map to_lower

abbrev put_default : Bytes → Value → Values → Values
put_default k x v = record v { defaults = λ k'. if str_eq k' (low k) then x else v.defaults k' }

abbrev put_env : Bytes → Bytes → Values → Values
put_env k e v = record v {
  names = λ k'. if str_eq k' (low k) then v.names k' ++ e ∷ [] else v.names k';
}

-- The first variable that is not empty.
first_set : List Bytes → Bytes
first_set [] = []
first_set (e ∷ es) =
    let rest = first_set es in if str_eq (environment e) [] then rest else environment e

abbrev text_of : Value → Bytes
text_of (Value.txt d) = d
text_of (Value.num n) = []

abbrev number_of : Value → ℕ
number_of (Value.txt d) = 0
number_of (Value.num n) = n

abbrev viper : Viper Values
viper = record {
  set_default = put_default;
  bind_env = put_env;
  get_string = λ k v.
      if str_eq (first_set (v.names (low k))) []
      then text_of (v.defaults (low k))
      else first_set (v.names (low k));
  get_uint = λ k v.
      if str_eq (first_set (v.names (low k))) []
      then number_of (v.defaults (low k))
      else to_uint (first_set (v.names (low k)));
}

abbrev IsUnbound : Bytes → Values → Type 0
IsUnbound k v = v.names (low k) ≡ []

read_env :
    (k d e : Bytes) (v : Values)
    → IsUnbound k v
    → viper.get_string k (put_env k e (put_default k (Value.txt d) v)) ≡ or_default environment e d
unfolding first_set
read_env k d e v u = elim (Bool-cases (str_eq (environment e) [])) [
  | inl y ↦ rw (str_eq_self (low k), u, y, str_eq_self []) refl
  | inr n ↦ rw (str_eq_self (low k), u, n, n) refl
]

read_number :
    (k : Bytes) (d : ℕ) (e : Bytes) (v : Values)
    → IsUnbound k v
    → viper.get_uint k (put_env k e (put_default k (Value.num d) v))
      ≡ (if str_eq (environment e) [] then d else to_uint (environment e))
unfolding first_set
read_number k d e v u = elim (Bool-cases (str_eq (environment e) [])) [
  | inl y ↦ rw (str_eq_self (low k), u, y, str_eq_self []) refl
  | inr n ↦ rw (str_eq_self (low k), u, n, n) refl
]

keep_default :
    (k k' : Bytes) (x : Value) (v : Values)
    → apart k k' ≡ true
    → (viper.get_string k (put_default k' x v) ≡ viper.get_string k v)
      × (viper.get_uint k (put_default k' x v) ≡ viper.get_uint k v)
      × (IsUnbound k v → IsUnbound k (put_default k' x v))
keep_default k k' x v h = rw (apart-str_eq k k' h) (refl, refl, λ u. u)

keep_env :
    (k k' e : Bytes) (v : Values)
    → apart k k' ≡ true
    → (viper.get_string k (put_env k' e v) ≡ viper.get_string k v)
      × (viper.get_uint k (put_env k' e v) ≡ viper.get_uint k v)
      × (IsUnbound k v → IsUnbound k (put_env k' e v))
keep_env k k' e v h = rw (apart-str_eq k k' h) (refl, refl, λ u. u)

viper-IsViper : IsViper viper environment to_uint IsUnbound
viper-IsViper = record {
  text_read = read_env;
  number_read = read_number;
  default_apart = keep_default;
  env_apart = keep_env;
}

abbrev nothing : Values
nothing = record { defaults = λ k. Value.txt []; names = λ k. [] }

configure_lem_example :
    configure viper (codes "/tmp/mongo") (codes "job.hcl") nothing
    ≡ expected environment to_uint (codes "/tmp/mongo")
configure_lem_example =
    configure_lem viper environment to_uint IsUnbound viper-IsViper (codes "/tmp/mongo")
      (codes "job.hcl") nothing (λ k. refl)

quroum_of_majority_example :
    (6 < quroum_of 6 + quroum_of 6)
    × ((quroum_of 6 - 1) + (quroum_of 6 - 1) ≤ 6)
    × (((◌≡◌ {A = ℕ} 6 0) × (6 < quroum_of 6)) ⊎ ((0 < 6) × (quroum_of 6 ≤ 6)))
quroum_of_majority_example = quroum_of_majority 6 (omega arith)

-- A task is the text that it writes.
abbrev task : Bytes → Bytes → Io Bytes (Unit {0})
task name id w = (ok tt, name)

abbrev controllers : Controllers (Unit {0}) Bytes
controllers = record {
  new_mongo = λ cfg nomad job store. record {
    pre_start_task = task (codes "report");
    controller_task = task (codes "control");
    member_task = task cfg.node_name;
  };
  new_kafka = λ cfg nomad job store. record {
    pre_start_task = task (codes "report");
    controller_task = task (codes "control");
    member_task = task cfg.node_name;
  };
}

abbrev new_client : Bytes → Outcome (Unit {0})
new_client address = ok tt

abbrev flags : Bytes → Flags
flags kind = record { repl_type = kind; task_type = codes "member"; job_file = [] }

main_launches_example :
    main new_client controllers viper (codes "/tmp/mongo") (flags (codes "mongo")) nothing
    ≡ performed member []
        (expected environment to_uint (codes "/tmp/mongo"))
        (made new_client controllers mongo [] (expected environment to_uint (codes "/tmp/mongo")))
main_launches_example =
    main_launches new_client controllers viper environment to_uint IsUnbound viper-IsViper
      (codes "/tmp/mongo") mongo member (flags (codes "mongo")) nothing (λ k. refl) refl refl

no_kind : (k : Kind) → codes "test" ≢ kind_text k
no_kind mongo = cc
no_kind kafka = cc

main_rejects_example :
    IsRejected
      (flags (codes "test"))
      (main new_client controllers viper (codes "/tmp/mongo") (flags (codes "test")) nothing [])
      []
main_rejects_example =
    main_rejects new_client controllers viper (codes "/tmp/mongo") (flags (codes "test")) nothing []
      no_kind
