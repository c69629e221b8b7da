-- ===== src/Stateless/Queue.antt =====
-- `FireCtx` of a queued machine: a trigger, then those that its actions fired, in their order, up
-- to the first error. On fuel: `none` means that the queue was not done.
use mathlib.Core.Path.{fun_ext}
use mongoctl.Prelude.{
  ℕ, zero, suc, List, [], ◌∷◌, ◌++◌, ◌≡◌, refl, Option, none, some, ok, err, panic, Outcome, ap,
}
use mongoctl.Stateless.{Setup, Fired, Engine, documented}

module _ {S T A W : Type 0} (fire_one : S → T → List A → W → Fired S T A W) where
  unfoldable pub drain : ℕ → List (T × List A) → S → W → Option (Fired S T A W)
  drain n [] s w = some (record { outcome = ok tt; state = s; world = w; queued = [] })
  drain zero (x ∷ q) s w = none
  drain (suc n) ((t, args) ∷ q) s w =
      let f = fire_one s t args w in
      elim f.outcome [
        | ok _ ↦ drain n (q ++ f.queued) f.state f.world
        | err x ↦ some (record f { queued = q ++ f.queued })
        | panic ↦ some (record f { queued = q ++ f.queued })
      ]

module _ {S T A W : Type 0} (fire_one : S → T → List A → W → Fired S T A W) where
  drain_outcome :
      (r : Outcome (Unit {0})) (f : Fired S T A W)
      → f.queued ≡ []
      → (g : Fired S T A W) × (elim r [
        | ok _ ↦ drain fire_one 0 f.queued f.state f.world
        | err x ↦ some (record f { queued = f.queued })
        | panic ↦ some (record f { queued = f.queued })
      ]
          ≡ some g)
  unfolding drain
  drain_outcome (ok _) f h = (
    record { outcome = ok tt; state = f.state; world = f.world; queued = [] },
    ap (λ q. drain fire_one 0 q f.state f.world) h,
  )
  drain_outcome (err x) f h = (f, refl)
  drain_outcome panic f h = (f, refl)

  -- A trigger whose actions fire no other is done in one step, whatever its outcome.
  pub drain_one :
      (t : T) (args : List A) (s : S) (w : W)
      → (fire_one s t args w).queued ≡ []
      → (f : Fired S T A W) × (drain fire_one 1 ((t, args) ∷ []) s w ≡ some f)
  unfolding drain
  drain_one t args s w h = drain_outcome (fire_one s t args w).outcome (fire_one s t args w) h

-- The library's promise is met by what it documents.
abbrev pub by_the_book : {S T A W : Type 0} → Engine S T A W
by_the_book = record { fire_one = documented; fire_one_lem = λ m s t args w. refl }

pub engine_step :
    {S T A W : Type 0} (e : Engine S T A W) (m : Setup S T A W) → e.fire_one m ≡ documented m
engine_step e m =
    fun_ext (λ s. fun_ext (λ t. fun_ext (λ args. fun_ext (λ w. e.fire_one_lem m s t args w))))
