-- ===== src/Engine/Budget.antt =====
-- `BudgetSpec` of apps/api/app/challenge/spec.py, and the engine's overrides of its budget
-- (apps/api/app/runner/engine.py).
use the_evil_repository.Prelude.{
  Bool, List, Option, String, [], false, get_or_else, if◌then◌else◌, leb, ltb, none, some, str_eq,
  suc, true, zero, ℕ, ◌&&◌, ◌>>=◌, ◌∷◌,
}

pub record BudgetSpec : Type 0 where
  pub soft_seconds : ℕ
  pub hard_seconds : ℕ
  pub soft_tool_calls : ℕ
  pub hard_tool_calls : ℕ
  pub soft_provider_requests : Option ℕ
  pub hard_provider_requests : Option ℕ
  pub soft_total_tokens : Option ℕ
  pub hard_total_tokens : Option ℕ

-- A value that a field is given before it is validated.
pub data Amount : Type 0 where
  nothing negative : Amount
  whole : ℕ → Amount

abbrev pub at_least : ℕ → Amount → Option ℕ
at_least minimum (whole n) = if leb minimum n then some n else none
at_least minimum _ = none

-- A field that may be None.
abbrev pub none_or_at_least : ℕ → Amount → Option (Option ℕ)
none_or_at_least minimum nothing = some none
none_or_at_least minimum (whole n) = if leb minimum n then some (some n) else none
none_or_at_least minimum negative = none

abbrev pub of_option : Option ℕ → Amount
of_option none = nothing
of_option (some n) = whole n

-- `model_dump`, with values that are not validated.
pub record Draft : Type 0 where
  pub soft_seconds : Amount
  pub hard_seconds : Amount
  pub soft_tool_calls : Amount
  pub hard_tool_calls : Amount
  pub soft_provider_requests : Amount
  pub hard_provider_requests : Amount
  pub soft_total_tokens : Amount
  pub hard_total_tokens : Amount

abbrev pub draft_of : BudgetSpec → Draft
draft_of b = record {
  soft_seconds = whole b.soft_seconds;
  hard_seconds = whole b.hard_seconds;
  soft_tool_calls = whole b.soft_tool_calls;
  hard_tool_calls = whole b.hard_tool_calls;
  soft_provider_requests = of_option b.soft_provider_requests;
  hard_provider_requests = of_option b.hard_provider_requests;
  soft_total_tokens = of_option b.soft_total_tokens;
  hard_total_tokens = of_option b.hard_total_tokens;
}

-- `_validate_optional_pair`
abbrev pub is_pair : Option ℕ → Option ℕ → Bool
is_pair none none = true
is_pair none (some h) = false
is_pair (some s) none = false
is_pair (some s) (some h) = ltb s h

-- `validate_order`
unfoldable pub is_ordered : BudgetSpec → Bool
is_ordered b =
    ltb b.soft_seconds b.hard_seconds
    && ltb b.soft_tool_calls b.hard_tool_calls
    && is_pair b.soft_provider_requests b.hard_provider_requests
    && is_pair b.soft_total_tokens b.hard_total_tokens

unfoldable pub ordered_only : BudgetSpec → Option BudgetSpec
unfolding is_ordered
ordered_only b = if is_ordered b then some b else none

-- `BudgetSpec.model_validate`
unfoldable pub validated : Draft → Option BudgetSpec
unfolding ordered_only
validated d = do
  soft_seconds ← at_least 1 d.soft_seconds
  hard_seconds ← at_least 2 d.hard_seconds
  soft_tool_calls ← at_least 1 d.soft_tool_calls
  hard_tool_calls ← at_least 2 d.hard_tool_calls
  soft_provider_requests ← none_or_at_least 1 d.soft_provider_requests
  hard_provider_requests ← none_or_at_least 2 d.hard_provider_requests
  soft_total_tokens ← none_or_at_least 1 d.soft_total_tokens
  hard_total_tokens ← none_or_at_least 2 d.hard_total_tokens
  ordered_only (record {
    soft_seconds = soft_seconds;
    hard_seconds = hard_seconds;
    soft_tool_calls = soft_tool_calls;
    hard_tool_calls = hard_tool_calls;
    soft_provider_requests = soft_provider_requests;
    hard_provider_requests = hard_provider_requests;
    soft_total_tokens = soft_total_tokens;
    hard_total_tokens = hard_total_tokens;
  })

-- An override that an operator asks for: `int(value)`, None, or a value that `int` refuses.
pub data Requested : Type 0 where
  amount : Amount → Requested
  unreadable : Requested

pub record Override : Type 0 where
  pub name : String
  pub value : Requested

-- `candidate[field] = ...`, or nothing for a field that the budget does not have.
unfoldable pub set_amount : String → Amount → Draft → Option Draft
set_amount name x d =
    if str_eq name "soft_seconds"
    then some (record d { soft_seconds = x })
    else (if str_eq name "hard_seconds"
        then some (record d { hard_seconds = x })
        else (if str_eq name "soft_tool_calls"
            then some (record d { soft_tool_calls = x })
            else (if str_eq name "hard_tool_calls"
                then some (record d { hard_tool_calls = x })
                else (if str_eq name "soft_provider_requests"
                    then some (record d { soft_provider_requests = x })
                    else (if str_eq name "hard_provider_requests"
                        then some (record d { hard_provider_requests = x })
                        else (if str_eq name "soft_total_tokens"
                            then some (record d { soft_total_tokens = x })
                            else (if str_eq name "hard_total_tokens"
                                then some (record d { hard_total_tokens = x })
                                else none)))))))

unfoldable pub request_draft : String → Draft → Requested → Option Draft
unfolding set_amount
request_draft name d (amount x) = set_amount name x d
request_draft name d unreadable = none

unfoldable pub requested_draft : Override → Draft → Option Draft
unfolding request_draft
requested_draft o d = request_draft o.name d o.value

-- The loop over the pending overrides; the flag says whether one was applied.
unfoldable pub apply_each : List Override → Draft × Bool → Draft × Bool
apply_each [] state = state
apply_each (o ∷ rest) (d, applied) = elim (requested_draft o d) [
  | none ↦ apply_each rest (d, applied)
  | some changed ↦ apply_each rest (changed, true)
]

abbrev pub drop_first {ℓ} : {A : Type ℓ} → ℕ → List A → List A
drop_first zero xs = xs
drop_first (suc n) [] = []
drop_first (suc n) (x ∷ xs) = drop_first n xs

-- `_apply_budget_overrides`: the budget, for the overrides that are new.
unfoldable pub overridden : BudgetSpec → List Override → BudgetSpec
unfolding apply_each validated
overridden b pending =
    let made = apply_each pending (draft_of b, false) in
    if made.1 then get_or_else b (validated made.0) else b
