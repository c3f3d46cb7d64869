-- ===== src/Engine/Keeping.antt =====
-- What is true of every session that a run reaches, and the steps that leave its counts as they are
-- (apps/api/app/runner/engine.py).
use the_evil_repository.Prelude.{
  All, List, [], arith, false, if_rule, list_rule, refl, subst, suc, zero, ℕ, ◌+◌, ◌-◌, ◌<◌, ◌∙◌,
  ◌∷◌, ◌≡◌, ◌≤◌, ◌⊎◌,
}
use the_evil_repository.Protocol.{Host}
use the_evil_repository.Engine.State.{Engine}
use the_evil_repository.Engine.Directed.{Directed, recount, then-Directed, untouched}
use the_evil_repository.Engine.Budget.{Override, drop_first}
use the_evil_repository.Engine.Overrides.{IsBounded, overridden-Within}
use the_evil_repository.Engine.Loop.{
  apply_budget_overrides, may_go_on, nudge, usage, warn, with_world,
}
use the_evil_repository.Engine.Limits.{newly_crossed, triggered_by}
use the_evil_repository.Engine.Session.{Driver, Round, Session, again, breaks, raises}

-- The rounds that are left: each ends the run, counts a call, or spends a rejection.
abbrev pub measure : {W : Type 0} → ℕ → Session W → ℕ
measure bound s =
    bound - s.engine.tool_calls + (8 - s.final_rejections) + (8 - s.invalid_tool_call_batches)

-- A session that the run reaches from an engine `e`: its limit and its calls are within the bound,
-- and the directors went through one tick for each call counted.
pub record Reached {W : Type 0} (host : Host) (bound : ℕ) (e : Engine W) (s : Session W)
    : Type 0 where
  pub hard : s.budget.hard_tool_calls ≤ bound
  pub capped : s.engine.tool_calls ≤ bound
  pub calls : ℕ
  pub drives : Directed host calls calls e s.engine

module _ {W : Type 0} (driver : Driver W) (bound : ℕ) (e : Engine W) where
  abbrev pub IsReached : Session W → Type 0
  IsReached = Reached driver.config.tools.host bound e

  -- The end of a round that began with `m` rounds left.
  abbrev pub Advances : ℕ → Round W → Type 0
  Advances m (again t) = IsReached t × ((measure bound t < m) ⊎ (may_go_on driver t ≡ false))
  Advances m (breaks t) = IsReached t
  Advances m (raises reason t) = IsReached t

  -- A step that leaves the counts as they are.
  pub record Keeps (s t : Session W) : Type 0 where
    pub reaches : IsReached s → IsReached t
    pub measures : measure bound t ≡ measure bound s

  pub same_engine :
      (s t : Session W)
      → t.budget.hard_tool_calls ≡ s.budget.hard_tool_calls
      → t.engine.incident ≡ s.engine.incident
      → t.engine.release ≡ s.engine.release
      → t.engine.tool_calls ≡ s.engine.tool_calls
      → IsReached s
      → IsReached t
  same_engine s t b i r c h = record {
    hard = omega (arith, b, h.hard);
    capped = omega (arith, c, h.capped);
    calls = h.calls;
    drives = recount driver.config.tools.host (omega arith) (omega arith) (
        then-Directed driver.config.tools.host h.calls 0 h.calls 0 h.drives
          (untouched driver.config.tools.host s.engine t.engine i r c));
  }

  with_world-Keeps : (s : Session W) (w : W) → Keeps s (with_world driver s w)
  with_world-Keeps s w = record { reaches = same_engine s _ refl refl refl refl; measures = refl }

  pub then-Keeps : {s t u : Session W} → Keeps s t → Keeps t u → Keeps s u
  then-Keeps a b = record {
    reaches = λ h. b.reaches (a.reaches h);
    measures = b.measures ∙ a.measures;
  }

  pub warn-Keeps : (s : Session W) → Keeps s (warn driver s)
  unfolding warn
  warn-Keeps s =
      list_rule (Keeps s) (newly_crossed s.budget (usage driver s) s.soft_budget_warnings)
        (λ p. record { reaches = λ h. h; measures = refl })
        (λ x xs p. record { reaches = same_engine s _ refl refl refl refl; measures = refl })

  pub nudge-Keeps : (s : Session W) → Keeps s (nudge driver s)
  unfolding nudge
  nudge-Keeps s =
      if_rule (Keeps s) s.finalization_nudge_sent
        (λ p. record { reaches = λ h. h; measures = refl })
        (λ p.
          list_rule (Keeps s) (triggered_by s.budget (usage driver s))
            (λ q. record { reaches = λ h. h; measures = refl })
            (λ x xs q. record { reaches = same_engine s _ refl refl refl refl; measures = refl }))

  All-drop_first :
      (P : Override → Type 0) (n : ℕ) (xs : List Override) → All P xs → All P (drop_first n xs)
  All-drop_first P zero xs h = h
  All-drop_first P (suc n) [] h = tt
  All-drop_first P (suc n) (x ∷ xs) h = All-drop_first P n xs h.1

  pub apply_budget_overrides-Keeps :
      ((w : W) → All (IsBounded bound) (driver.overrides w))
      → (s : Session W) → Keeps s (apply_budget_overrides driver s)
  unfolding apply_budget_overrides
  apply_budget_overrides-Keeps bounded s = record {
    reaches = λ h. record {
      hard =
          overridden-Within bound s.budget
            (drop_first s.applied_budget_overrides (driver.overrides s.engine.world))
            (All-drop_first (IsBounded bound) s.applied_budget_overrides
              (driver.overrides s.engine.world) (bounded s.engine.world))
            h.hard;
      capped = h.capped;
      calls = h.calls;
      drives = h.drives;
    };
    measures = refl;
  }

  pub after_keeping :
      {s t : Session W} (r : Round W)
      → Keeps s t
      → Advances (measure bound t) r
      → Advances (measure bound s) r
  after_keeping {s} {t} r k h = subst (λ m. Advances m r) k.measures h
