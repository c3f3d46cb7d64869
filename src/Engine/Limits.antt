-- ===== src/Engine/Limits.antt =====
-- The warnings and the limits of a budget (apps/api/app/runner/engine.py).
use the_evil_repository.Prelude.{
  Bool, List, Option, String, String-comparable, [], contains, false, if◌then◌else◌, keep, leb, ltb,
  none, not, some, str_eq, true, ℕ, ◌&&◌, ◌*◌, ◌∷◌,
}
use the_evil_repository.Engine.Budget.{BudgetSpec}

-- The limits that `_soft_budget_warning` finds crossed, beyond those it has warned of.
pub record Usage : Type 0 where
  pub active_ms : ℕ
  pub tool_calls : ℕ
  pub provider_requests : ℕ
  pub total_tokens : ℕ
  pub token_usage_available : Bool

abbrev pub reaches : ℕ → Option ℕ → Bool
reaches n none = false
reaches n (some limit) = leb limit n

abbrev pub exceeds : ℕ → Option ℕ → Bool
exceeds n none = false
exceeds n (some limit) = ltb limit n

unfoldable pub is_crossed : BudgetSpec → Usage → String → Bool
is_crossed b u name =
    if str_eq name "tool_calls"
    then leb b.soft_tool_calls u.tool_calls
    else (if str_eq name "active_time"
        then leb (1000 * b.soft_seconds) u.active_ms
        else (if str_eq name "provider_requests"
            then reaches u.provider_requests b.soft_provider_requests
            else u.token_usage_available && reaches u.total_tokens b.soft_total_tokens))

abbrev pub dimensions : List String
dimensions = "tool_calls" ∷ "active_time" ∷ "provider_requests" ∷ "total_tokens" ∷ []

unfoldable pub newly_crossed : BudgetSpec → Usage → List String → List String
unfolding is_crossed
newly_crossed b u warned =
    keep (λ name. is_crossed b u name && not (contains name warned)) dimensions

-- `value >= max(soft, hard * 4 / 5)`
abbrev pub is_final : ℕ → ℕ → ℕ → Bool
is_final used soft hard = leb soft used && leb (4 * hard) (5 * used)

abbrev pub is_final_pair : ℕ → Option ℕ → Option ℕ → Bool
is_final_pair used (some soft) (some hard) = is_final used soft hard
is_final_pair used _ _ = false

-- The limits that `_finalization_nudge` finds in their last fifth.
unfoldable pub is_triggered : BudgetSpec → Usage → String → Bool
is_triggered b u name =
    if str_eq name "tool_calls"
    then is_final u.tool_calls b.soft_tool_calls b.hard_tool_calls
    else (if str_eq name "active_time"
        then is_final u.active_ms (1000 * b.soft_seconds) (1000 * b.hard_seconds)
        else (if str_eq name "provider_requests"
            then is_final_pair u.provider_requests b.soft_provider_requests b.hard_provider_requests
            else u.token_usage_available
              && is_final_pair u.total_tokens b.soft_total_tokens b.hard_total_tokens))

unfoldable pub triggered_by : BudgetSpec → Usage → List String
unfolding is_triggered
triggered_by b u =
    keep (is_triggered b u)
      ("active_time" ∷ "tool_calls" ∷ "provider_requests" ∷ "total_tokens" ∷ [])

-- `_hard_resource_reasons`
unfoldable pub hard_resource_reasons : BudgetSpec → Usage → List String
hard_resource_reasons b u =
    if u.token_usage_available && reaches u.total_tokens b.hard_total_tokens
    then "total_tokens" ∷ []
    else []

-- `_on_provider_request`, for the numbers of the requests that a completion makes: the last one
-- counted, and whether the next would exceed the limit.
unfoldable pub count_requests : Option ℕ → ℕ → List ℕ → ℕ × Bool
count_requests hard n [] = (n, false)
count_requests hard n (next ∷ rest) =
    let counted = count_requests hard next rest in if exceeds next hard then (n, true) else counted
