-- ===== src/Stateless.antt =====
-- The state machines of github.com/qmuntal/stateless, as the program sets them up and fires them.
-- A setup lists what the program says of each state; `Engine` is the library, which processes one
-- trigger as its documentation says. Superstates here have no superstate of their own.
pub mod Queue
use mongoctl.Prelude.{
  List, [], ◌∷◌, ◌++◌, ◌≡◌, Option, none, some, Bool, true, false, not, ◌&&◌, ◌||◌, Bytes, codes,
  if◌then◌else◌, Outcome, ok, err, panic, Error, failure,
}

-- What an action leaves: its result, the world, and the triggers that it fired, which wait until
-- the trigger at hand is done.
pub record Effect (T A W : Type 0) : Type 0 where
  pub outcome : Outcome (Unit {0})
  pub world : W
  pub queued : List (T × List A)

abbrev pub Action : Type 0 → Type 0 → Type 0 → Type 0
Action T A W = List A → W → Effect T A W

pub data Directive (S T A W : Type 0) : Type 0 where
  permit : T → S → Directive S T A W
  permit_reentry : T → Directive S T A W
  on_entry : Action T A W → Directive S T A W
  on_entry_from : T → Action T A W → Directive S T A W
  on_exit : Action T A W → Directive S T A W
  substate_of : S → Directive S T A W

pub record Setup (S T A W : Type 0) : Type 0 where
  pub configure : S → List (Directive S T A W)
  pub same_state : S → S → Bool
  pub same_trigger : T → T → Bool

pub data Move (S : Type 0) : Type 0 where
  to : S → Move S
  again : Move S

-- What one trigger leaves.
pub record Fired (S T A W : Type 0) : Type 0 where
  pub outcome : Outcome (Unit {0})
  pub state : S
  pub world : W
  pub queued : List (T × List A)

module _ {T A W : Type 0} where
  -- Actions run in order, up to the first that fails.
  unfoldable pub run_actions : List (Action T A W) → List A → W → Effect T A W
  run_actions [] args w = record { outcome = ok tt; world = w; queued = [] }
  run_actions (a ∷ as') args w =
      let e = a args w in
      elim e.outcome [
        | ok _ ↦
            let e' = run_actions as' args e.world in
            record { outcome = e'.outcome; world = e'.world; queued = e.queued ++ e'.queued }
        | err x ↦ e
        | panic ↦ e
      ]

module _ {S T A W : Type 0} where
  unfoldable pub exits : List (Directive S T A W) → List (Action T A W)
  exits [] = []
  exits (on_exit a ∷ ds) = a ∷ exits ds
  exits (_ ∷ ds) = exits ds

  unfoldable pub parent : List (Directive S T A W) → Option S
  parent [] = none
  parent (substate_of p ∷ ds) = some p
  parent (_ ∷ ds) = parent ds

module _ {S T A W : Type 0} (same : T → T → Bool) where
  unfoldable pub handler : List (Directive S T A W) → T → Option (Move S)
  handler [] t = none
  handler (permit t' d ∷ ds) t = let rest = handler ds t in if same t' t then some (to d) else rest
  handler (permit_reentry t' ∷ ds) t =
      let rest = handler ds t in if same t' t then some again else rest
  handler (_ ∷ ds) t = handler ds t

  unfoldable pub entries : List (Directive S T A W) → T → List (Action T A W)
  entries [] t = []
  entries (on_entry a ∷ ds) t = a ∷ entries ds t
  entries (on_entry_from t' a ∷ ds) t =
      let rest = entries ds t in if same t' t then a ∷ rest else rest
  entries (_ ∷ ds) t = entries ds t

module _ {S T A W : Type 0} (m : Setup S T A W) where
  unfoldable pub find_handler : S → T → Option (Move S)
  unfolding handler parent
  find_handler s t = elim (handler m.same_trigger (m.configure s) t) [
    | some mv ↦ some mv
    | none ↦ elim (parent (m.configure s)) [
      | some p ↦ handler m.same_trigger (m.configure p) t
      | none ↦ none
    ]
  ]

  -- Is `s` the state `p` or a substate of it?
  unfoldable pub is_within : S → S → Bool
  unfolding parent
  is_within s p =
      m.same_state s p || elim (parent (m.configure s)) [ some q ↦ m.same_state q p | none ↦ false ]

  -- The exit actions of a transition, the substate's before the superstate's.
  unfoldable pub leaving : S → S → List (Action T A W)
  unfolding exits parent is_within
  leaving s d =
      if is_within d s
      then []
      else exits (m.configure s) ++ elim (parent (m.configure s)) [
        | some p ↦ if is_within d p then [] else exits (m.configure p)
        | none ↦ []
      ]

  -- The entry actions of a transition, the superstate's before the substate's.
  unfoldable pub entering : S → S → T → List (Action T A W)
  unfolding entries parent is_within
  entering s d t =
      if is_within s d
      then []
      else elim (parent (m.configure d)) [
        | some p ↦ if is_within s p then [] else entries m.same_trigger (m.configure p) t
        | none ↦ []
      ]
        ++ entries m.same_trigger (m.configure d) t

  abbrev unhandled : Error
  unhandled = failure (codes "no valid leaving transitions are permitted")

  abbrev after_entry : S → List (T × List A) → Effect T A W → Fired S T A W
  after_entry s queued e = record {
    outcome = e.outcome;
    state = s;
    world = e.world;
    queued = queued ++ e.queued;
  }

  -- The state changes between the exit and the entry actions, and nothing takes it back.
  abbrev change : S → S → List (Action T A W) → List A → Effect T A W → Fired S T A W
  change s d entry args e = elim e.outcome [
    | ok _ ↦ after_entry d e.queued (run_actions entry args e.world)
    | err x ↦ after_entry s [] e
    | panic ↦ after_entry s [] e
  ]

  abbrev move : S → T → List A → W → Option (Move S) → Fired S T A W
  move s t args w none = record { outcome = err unhandled; state = s; world = w; queued = [] }
  move s t args w (some again) =
      change s s (entries m.same_trigger (m.configure s) t) args
        (run_actions (exits (m.configure s)) args w)
  move s t args w (some (to d)) =
      if m.same_state d s
      then record { outcome = ok tt; state = s; world = w; queued = [] }
      else change s d (entering s d t) args (run_actions (leaving s d) args w)

  -- One trigger, as documented.
  unfoldable pub documented : S → T → List A → W → Fired S T A W
  unfolding find_handler run_actions leaving entering entries exits
  documented s t args w = move s t args w (find_handler s t)

-- The library: it processes a trigger as documented.
pub record Engine (S T A W : Type 0) : Type 0 where
  pub fire_one : Setup S T A W → S → T → List A → W → Fired S T A W
  pub fire_one_lem :
      (m : Setup S T A W) (s : S) (t : T) (args : List A) (w : W)
      → fire_one m s t args w ≡ documented m s t args w
