-- ===== src/Control.antt =====
-- internal/replset/replica.go: the state of `replicaSetControl`, what it needs of a replica-set kind
-- and of the outside, and `publishReplSpec`.
pub mod Handlers
pub mod Machine
pub mod Loop
pub mod Steps
pub mod Safety
pub mod Unsaved
pub mod Deploy
pub mod Elect
pub mod Journey
use mongoctl.Prelude.{
  ℕ, List, [], ◌∷◌, ◌++◌, Option, none, some, Bool, Bytes, codes, pos, Outcome, ok, err, panic, Io,
  ◌>>=◌, ◌>>◌, pure, length, handle, take, leb, if◌then◌else◌,
}
use mongoctl.Text.Parts.{join}
use mongoctl.Text.Decimal.{format_int}
use mongoctl.Sorting.{SortFunc}

pub data ReplicaSetStatus : Type 0 where
  initiation configuration startup monitor error : ReplicaSetStatus

-- What the controller asks of a kind of replica set: the candidates' order, and the specification.
pub record Kind (C S : Type 0) : Type 0 where
  pub less : C → C → Bool
  pub generate_repl_config : List C → Outcome S
  pub get_members : S → Outcome (List Bytes)
  pub slices : SortFunc C

-- The store and the Nomad client. `Job` is a parsed job.
pub record Outside (S Job W : Type 0) : Type 0 where
  pub update_repl_set_config : S → Io W Unit
  pub new_client : Io W Unit
  pub read_file : Bytes → Io W Bytes
  pub parse_hcl : Bytes → Bytes → Io W Job
  pub register : Job → Io W Unit

-- A timer counts seconds. `callback` is what `time.AfterFunc` fires with; a timer of
-- `time.NewTimer` has none.
pub record Timer (C : Type 0) : Type 0 where
  pub seconds : ℕ
  pub callback : Option (List C)
  pub expired : Bool

pub record Control (C S W : Type 0) : Type 0 where
  pub state : ReplicaSetStatus
  pub timer : Option (Timer C)
  pub candidates : List C
  pub last_members : List C
  pub last_spec : Option S
  pub job_file : Bytes
  -- Callbacks of expired timers that have not reached the state machine.
  pub inflight : List (List C)
  pub world : W

-- `candidates[0:n]` of a slice with no spare capacity.
unfoldable pub slice : {A : Type 0} → ℕ → List A → Option (List A)
slice n xs = if leb n (length xs) then some (take n xs) else none

-- `replica-count` and `replica-members`, a line each.
unfoldable pub vars_str : List Bytes → Bytes
vars_str members = join 10 (
    (codes "replica-count=" ++ format_int (pos (length members)))
    ∷ (codes "replica-members=\"" ++ join b',' members ++ codes "\"")
    ∷ [])

module _ {C S Job W : Type 0} (k : Kind C S) (o : Outside S Job W) where
  abbrev lift_outcome : {A : Type 0} → Outcome A → Io W A
  lift_outcome r w = (r, w)

  -- The error of `os.ReadFile` is overwritten: the job is parsed from an empty text then.
  abbrev read_or_empty : Bytes → Io W Bytes
  read_or_empty file w = let (r, w') = o.read_file file w in handle r (λ e. pure []) pure w'

  unfoldable pub publish_repl_spec : Bytes → S → Io W Unit
  publish_repl_spec job_file spec = do
    o.update_repl_set_config spec
    members ← lift_outcome (k.get_members spec)
    o.new_client
    hcl_str ← read_or_empty job_file
    hcl ← o.parse_hcl hcl_str (vars_str members)
    o.register hcl
