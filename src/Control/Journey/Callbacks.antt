-- ===== src/Control/Journey/Callbacks.antt =====
-- Which reports' timers call back, in whatever order reports and expiries reach the controller, and
-- what the first callback that is delivered deploys.
use mathlib.Core.Path.{subst}
use mongoctl.Prelude.{
  ℕ, zero, suc, ◌≤◌, List, [], ◌∷◌, ◌++◌, ◌≡◌, refl, sym, ap, ◌∙◌, arith, Option, none, some, false,
  Bytes, ok, length, take, get_elem?, All, if◌then◌else◌, append_assoc, append-nil,
}
use mongoctl.Sorting.{sort_candidates}
use mongoctl.Stateless.{Engine}
use mongoctl.Control.{Kind, Outside, Control, Timer, publish_repl_spec}
use mongoctl.Control.Machine.{State, configuration, monitoring, Trigger, Arg, arm}
use mongoctl.Control.Loop.{
  Sys, running, Event, report, health_status, expire, deliver, run, react, deliver_picked, pick,
  expire_timer, controller_task,
}
use mongoctl.Control.Steps.{fire_report_configuration, fire_context, unarmed}
use mongoctl.Control.Safety.{Same, Same-refl, Same-trans, arm-Same, expire_timer-Same, is_deliver}
use mongoctl.Control.Unsaved.{controller_task-run, started, run-append}
use mongoctl.Control.Deploy.{deploys_best_three}

-- The report that the timer waits for which it starts: none for an empty one.
abbrev pub awaits : {C : Type 0} → List C → Option (List C)
awaits [] = none
awaits (c ∷ cs) = some (c ∷ cs)

-- The reports whose timers expire before another report stops them, in order.
abbrev pub calls : {C H : Type 0} → List (Event C H) → Option (List C) → List (List C)
calls [] p = []
calls (expire ∷ es) (some cs) = cs ∷ calls es none
calls (expire ∷ es) none = calls es none
calls (report cs ∷ es) p = calls es (awaits cs)
calls (health_status hs ∷ es) p = calls es p
calls (deliver n ∷ es) p = calls es p

-- What a timer of the controller waits for.
abbrev armed : {C : Type 0} → Option (Timer C) → Option (List C)
armed none = none
armed (some t) = if t.expired then none else t.callback

module _ {C S W : Type 0} where
  armed-arm :
      (cs : List C) (rs : Control C S W)
      → (armed (arm cs (unarmed rs)).timer ≡ awaits cs)
        × ((arm cs (unarmed rs)).inflight ≡ rs.inflight)
  unfolding arm
  armed-arm [] rs = ground arith
  armed-arm (c ∷ cs) rs = ground arith

-- An expiry calls back with what the timer waits for, once.
module _ {C S W : Type 0} (rs : Control C S W) where
  expire_unarmed :
      (t : Option (Timer C))
      → rs.timer ≡ t
      → armed t ≡ none
      → (armed (expire_timer t rs).timer ≡ none)
        × ((expire_timer t rs).inflight ≡ rs.inflight ++ [])
  unfolding expire_timer
  expire_unarmed none at a = (rw (at) refl, sym (append-nil rs.inflight))
  expire_unarmed (some t) at a = ground (arith, append-nil rs.inflight)

  expire_armed :
      (t : Option (Timer C)) (cs : List C)
      → armed t ≡ some cs
      → (armed (expire_timer t rs).timer ≡ none)
        × ((expire_timer t rs).inflight ≡ rs.inflight ++ cs ∷ [])
  unfolding expire_timer
  expire_armed none cs a = cc
  expire_armed (some t) cs a = ground arith

unarmed-Same : {C S W : Type 0} (rs : Control C S W) → Same rs (unarmed rs)
unarmed-Same rs = ground arith

pick-get_elem? :
    {C : Type 0} (n : ℕ) (l : List (List C)) (cs : List C)
    → get_elem? l n ≡ some cs
    → (rest : List (List C)) × (pick n l ≡ some (cs, rest))
unfolding pick
pick-get_elem? n [] cs h = cc
pick-get_elem? zero (d ∷ l) cs h = (l, ground arith)
pick-get_elem? (suc n) (d ∷ l) cs h = let (rest, e) = pick-get_elem? n l cs h in (d ∷ rest, rw e)

module _ {C S Job W H : Type 0} (k : Kind C S) (o : Outside S Job W)
    (e : Engine State Trigger (Arg C H) (Control C S W)) where
  -- The controller still configures, and these callbacks are on their way.
  record Waits (rs : Control C S W) (sys : Sys C S W) (due : List (List C)) : Type 0 where
    now : Control C S W
    runs : sys ≡ running configuration now
    same : Same rs now
    flying : now.inflight ≡ rs.inflight ++ due

  Waits-after :
      {rs rs1 : Control C S W} {sys : Sys C S W} {due : List (List C)} (first : List (List C))
      → Same rs rs1
      → rs1.inflight ≡ rs.inflight ++ first
      → Waits rs1 sys due
      → Waits rs sys (first ++ due)
  Waits-after {rs} {due = due} first s f t = record {
    now = t.now;
    runs = t.runs;
    same = Same-trans s t.same;
    flying = t.flying ∙ ap (λ (l : List (List C)). l ++ due) f ∙ append_assoc rs.inflight first due;
  }

  Waits-of :
      {rs : Control C S W} {due : List (List C)} {a b : Sys C S W} (es : List (Event C H))
      → a ≡ b
      → Waits rs (run k o e es b) due
      → Waits rs (run k o e es a) due
  Waits-of {rs} {due} es eq t = subst (λ (x : Sys C S W). Waits rs (run k o e es x) due) (sym eq) t

  run-Waits :
      (es : List (Event C H)) (rs : Control C S W) (p : Option (List C))
      → armed rs.timer ≡ p
      → All (λ ev. is_deliver ev ≡ false) es
      → Waits rs (run k o e es (running configuration rs)) (calls es p)
  unfolding run react
  run-Waits [] rs p a h = record {
    now = rs;
    runs = refl;
    same = Same-refl rs;
    flying = sym (append-nil rs.inflight);
  }
  run-Waits (report cs ∷ es) rs p a (_, h) =
      let (timer, flying) = armed-arm cs rs in
      let rest = run-Waits es (arm cs (unarmed rs)) (awaits cs) timer h in
      Waits-of es (fire_report_configuration k o e cs rs) (
        Waits-after [] (Same-trans (unarmed-Same rs) (arm-Same cs (unarmed rs)))
          (flying ∙ sym (append-nil rs.inflight)) rest)
  run-Waits (health_status hs ∷ es) rs p a (_, h) =
      Waits-of es (fire_context k o e _ configuration rs) (run-Waits es rs p a h)
  run-Waits (expire ∷ es) rs none a (_, h) =
      let (timer, flying) = expire_unarmed rs rs.timer refl a in
      Waits-after [] (expire_timer-Same rs.timer rs) flying
        (run-Waits es (expire_timer rs.timer rs) none timer h)
  run-Waits (expire ∷ es) rs (some cs) a (_, h) =
      let (timer, flying) = expire_armed rs rs.timer cs a in
      Waits-after (cs ∷ []) (expire_timer-Same rs.timer rs) flying
        (run-Waits es (expire_timer rs.timer rs) none timer h)
  run-Waits (deliver n ∷ es) rs p a (bad, h) = cc

  delivered :
      (es events : List (Event C H)) (rs : Control C S W) (n : ℕ) (cs : List C) (spec : S) (w' : W)
      → Waits rs (run k o e es (running configuration rs)) (calls es (armed rs.timer))
      → rs.inflight ≡ []
      → get_elem? (calls es (armed rs.timer)) n ≡ some cs
      → 3 ≤ length cs
      → k.generate_repl_config (take 3 (sort_candidates k.slices k.less cs)) ≡ ok spec
      → publish_repl_spec k o rs.job_file spec rs.world ≡ (ok tt, w')
      → (rs' : Control C S W) × (run k o e
            (deliver n ∷ events)
            (run k o e es (running configuration rs))
          ≡ running monitoring rs')
        × (rs'.world ≡ w')
        × (rs'.last_spec ≡ some spec)
        × (rs'.last_members ≡ take 3 (sort_candidates k.slices k.less cs))
  unfolding run react deliver_picked
  delivered es events rs n cs spec w' t empty at enough made published =
      let flying : t.now.inflight ≡ calls es (armed rs.timer) =
        t.flying ∙ ap (λ (l : List (List C)). l ++ calls es (armed rs.timer)) empty in
      let (rest, picked) =
        pick-get_elem? n t.now.inflight cs
          (ap (λ (l : List (List C)). get_elem? l n) flying ∙ at) in
      let (rs', eq, world, kept, members) =
        deploys_best_three k o e cs (record t.now { inflight = rest }) spec enough made w' events
          (rw (t.same.job_file, t.same.world) published) in
      (
        rs',
        ap (run k o e (deliver n ∷ events)) t.runs
            ∙ ap (λ x. run k o e events (deliver_picked k o e x configuration t.now)) picked
            ∙ eq,
        world,
        kept,
        members,
      )

  -- Reports, health statuses and expiries may reach the controller in any order: once a first
  -- callback is delivered, and it is one of the reports whose timers expired before the next report
  -- stopped them, of three candidates or more, the controller has published the specification of
  -- the best three of that report, not of a later one, where one is generated and its publication
  -- succeeds. It records it and the three, and whatever follows, these stay.
  pub first_callback_deploys :
      (job_file : Bytes) (w w' : W) (es events : List (Event C H)) (n : ℕ) (cs : List C) (spec : S)
      → All (λ ev. is_deliver ev ≡ false) es
      → get_elem? (calls es none) n ≡ some cs
      → 3 ≤ length cs
      → k.generate_repl_config (take 3 (sort_candidates k.slices k.less cs)) ≡ ok spec
      → publish_repl_spec k o job_file spec w ≡ (ok tt, w')
      → (rs : Control C S W) × (controller_task k o e job_file w (es ++ deliver n ∷ events)
          ≡ running monitoring rs)
        × (rs.world ≡ w')
        × (rs.last_spec ≡ some spec)
        × (rs.last_members ≡ take 3 (sort_candidates k.slices k.less cs))
  first_callback_deploys job_file w w' es events n cs spec none_yet at enough made published =
      let rs = started k o e job_file w in
      let (rs', eq, world, kept, members) =
        delivered es events rs n cs spec w' (run-Waits es rs none refl none_yet) refl at enough made
          published in
      (
        rs',
        controller_task-run k o e job_file w (es ++ deliver n ∷ events)
            ∙ run-append k o e es (deliver n ∷ events) (running configuration rs)
            ∙ eq,
        world,
        kept,
        members,
      )
