-- ===== src/Engine/Overrides.antt =====
-- What the overrides can make of the limit on tool calls (apps/api/app/runner/engine.py).
use the_evil_repository.Prelude.{
  All, Bool, List, Option, Option-cases, String, [], arith, bind_rule, false, if_rule, inl, inr,
  none, option_rule, some, str_eq, subst, true, ℕ, ◌∷◌, ◌≡◌, ◌≤◌,
}
use the_evil_repository.Engine.Budget.{
  Amount, BudgetSpec, Draft, Override, Requested, amount, apply_each, at_least, draft_of,
  is_ordered, negative, none_or_at_least, nothing, ordered_only, overridden, request_draft,
  requested_draft, set_amount, unreadable, validated, whole,
}

-- A limit on tool calls, where the amount is one, is within a bound.
unfoldable pub Within : ℕ → Amount → Type 0
Within bound (whole n) = n ≤ bound
Within bound _ = Unit

unfoldable pub RequestWithin : ℕ → Requested → Type 0
unfolding Within
RequestWithin bound (amount x) = Within bound x
RequestWithin bound unreadable = Unit

-- The override asks for no limit on tool calls beyond the bound.
unfoldable pub IsBounded : ℕ → Override → Type 0
unfolding RequestWithin
IsBounded bound o = str_eq o.name "hard_tool_calls" ≡ true → RequestWithin bound o.value

at_least-some : (minimum : ℕ) (x : Amount) {n : ℕ} → at_least minimum x ≡ some n → x ≡ whole n
at_least-some minimum nothing h = absurd (cc)
at_least-some minimum negative h = absurd (cc)
at_least-some minimum (whole m) h = ground arith

-- A budget, if the draft makes one, has the draft's limit.
abbrev Agrees : Draft → Option BudgetSpec → Type 0
Agrees d none = Unit
Agrees d (some b) = d.hard_tool_calls ≡ whole b.hard_tool_calls

ordered_only-Agrees :
    (d : Draft) (b : BudgetSpec)
    → d.hard_tool_calls ≡ whole b.hard_tool_calls
    → Agrees d (ordered_only b)
unfolding ordered_only
ordered_only-Agrees d b h = if_rule (Agrees d) (is_ordered b) (λ p. h) (λ p. tt)

validated-Agrees : (d : Draft) → Agrees d (validated d)
unfolding validated
validated-Agrees d = bind_rule (Agrees d) (at_least 1 d.soft_seconds) tt (λ a1 e1.
    bind_rule (Agrees d) (at_least 2 d.hard_seconds) tt (λ a2 e2.
      bind_rule (Agrees d) (at_least 1 d.soft_tool_calls) tt (λ a3 e3.
        bind_rule (Agrees d) (at_least 2 d.hard_tool_calls) tt (λ a4 e4.
          bind_rule (Agrees d) (none_or_at_least 1 d.soft_provider_requests) tt (λ a5 e5.
            bind_rule (Agrees d) (none_or_at_least 2 d.hard_provider_requests) tt (λ a6 e6.
              bind_rule (Agrees d) (none_or_at_least 1 d.soft_total_tokens) tt (λ a7 e7.
                bind_rule (Agrees d) (none_or_at_least 2 d.hard_total_tokens) tt (λ a8 e8.
                  ordered_only-Agrees d
                    (record {
                      soft_seconds = a1;
                      hard_seconds = a2;
                      soft_tool_calls = a3;
                      hard_tool_calls = a4;
                      soft_provider_requests = a5;
                      hard_provider_requests = a6;
                      soft_total_tokens = a7;
                      hard_total_tokens = a8;
                    })
                    (at_least-some 2 d.hard_tool_calls e4)))))))))

-- A draft, if there is one, has its limit within the bound.
abbrev Kept : ℕ → Option Draft → Type 0
Kept bound none = Unit
Kept bound (some d) = Within bound d.hard_tool_calls

set_amount-Kept :
    (bound : ℕ) (name : String) (x : Amount) (d : Draft)
    → (str_eq name "hard_tool_calls" ≡ true → Within bound x)
    → Within bound d.hard_tool_calls
    → Kept bound (set_amount name x d)
unfolding set_amount
set_amount-Kept bound name x d asked h =
    if_rule (Kept bound) (str_eq name "soft_seconds") (λ p. h)
      (λ p1.
        if_rule (Kept bound) (str_eq name "hard_seconds") (λ p. h)
          (λ p2.
            if_rule (Kept bound) (str_eq name "soft_tool_calls") (λ p. h)
              (λ p3. if_rule (Kept bound) (str_eq name "hard_tool_calls") asked (λ p4.
                if_rule (Kept bound) (str_eq name "soft_provider_requests") (λ p. h)
                  (λ p5.
                    if_rule (Kept bound) (str_eq name "hard_provider_requests") (λ p. h)
                      (λ p6.
                        if_rule (Kept bound) (str_eq name "soft_total_tokens") (λ p. h)
                          (λ p7.
                            if_rule (Kept bound) (str_eq name "hard_total_tokens") (λ p. h)
                              (λ p8. tt))))))))

requested_draft-Kept :
    (bound : ℕ) (o : Override) (d : Draft)
    → IsBounded bound o
    → Within bound d.hard_tool_calls
    → Kept bound (requested_draft o d)
unfolding IsBounded RequestWithin requested_draft request_draft
requested_draft-Kept bound o d asked h = of_value o.value asked
  where
    of_value :
        (v : Requested)
        → (str_eq o.name "hard_tool_calls" ≡ true → RequestWithin bound v)
        → Kept bound (request_draft o.name d v)
    of_value (amount x) asked = set_amount-Kept bound o.name x d asked h
    of_value unreadable asked = tt

apply_each-Within :
    (bound : ℕ) (overrides : List Override) (d : Draft) (applied : Bool)
    → All (IsBounded bound) overrides
    → Within bound d.hard_tool_calls
    → Within bound (apply_each overrides (d, applied)).0.hard_tool_calls
unfolding apply_each
apply_each-Within bound [] d applied every h = h
apply_each-Within bound (o ∷ rest) d applied every h =
    let kept = requested_draft-Kept bound o d every.0 h in
    option_rule (λ (x : Draft × Bool). Within bound x.0.hard_tool_calls) (requested_draft o d)
      (λ p. apply_each-Within bound rest d applied every.1 h)
      (λ c p. apply_each-Within bound rest c true every.1 (subst (Kept bound) p kept))

-- The limit stays within a bound that neither it nor an override goes beyond.
pub overridden-Within :
    (bound : ℕ) (b : BudgetSpec) (overrides : List Override)
    → All (IsBounded bound) overrides
    → b.hard_tool_calls ≤ bound
    → (overridden b overrides).hard_tool_calls ≤ bound
unfolding overridden Within
overridden-Within bound b overrides every h =
    let made = apply_each overrides (draft_of b, false) in
    let kept = apply_each-Within bound overrides (draft_of b) false every h in
    if_rule (λ (x : BudgetSpec). x.hard_tool_calls ≤ bound) made.1
      (λ p. elim (Option-cases (validated made.0)) [
        | inl none_made ↦ rw none_made h
        | inr (c, some_made) ↦
            let same = subst (Agrees made.0) some_made (validated-Agrees made.0) in
            rw some_made (subst (Within bound) same kept)
      ])
      (λ p. h)
