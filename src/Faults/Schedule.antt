-- ===== src/Faults/Schedule.antt =====
-- The controller against a schedule without state: what a call meets is a function of the calls
-- before it (apps/api/app/runner/faults.py).
use the_evil_repository.Prelude.{
  All, Bool, Bool-cases, List, String, [], ap, arith, count, count-append, false, if_rule,
  if◌then◌else◌, inl, inr, keep, keep-append_one, length, not, refl, suc, true, zero, ℕ, ◌++◌, ◌+◌,
  ◌==◌, ◌||◌, ◌∙◌, ◌∷◌, ◌≡◌,
}
use the_evil_repository.Protocol.{ToolCall}
use the_evil_repository.Faults.Rules.{
  FaultRule, FaultStep, Tools, current_step, effective, equals, matches, moved_by, next_step,
  step_at,
}
use the_evil_repository.Faults.Controller.{
  Verdict, consult, defers, is_blank, is_deferred, passes, scripted, settle, unsettled, verdict,
}

-- The results that the controller acts on.
abbrev pub is_known : FaultStep → Bool
is_known step =
    is_blank step
    || equals step.result "passthrough"
    || is_deferred step.result
    || equals step.result "error"
    || equals step.result "timeout"

unfoldable pub IsKnown : FaultRule → Type 0
IsKnown rule = All (λ step. is_known step ≡ true) rule.sequence

-- The calls that a rule leaves to the rules after it.
abbrev pub passed_on : Tools → FaultRule → List ToolCall → List ToolCall
passed_on tools rule = keep (λ call. not (matches tools rule call))

-- What a call meets after a history of calls: the first rule that matches it answers with the step
-- that its count of earlier calls selects.
unfoldable pub scheduled : Tools → List FaultRule → List ToolCall → ToolCall → Verdict
scheduled tools [] history call = passes
scheduled tools (rule ∷ rules) history call =
    let later = scheduled tools rules (passed_on tools rule history) call in
    if matches tools rule call
    then verdict call rule.rule_id
        (current_step (count (matches tools rule) history + rule.cursor) rule.sequence)
    else later

-- The rules after a history: each cursor has moved by the calls that reached its rule.
unfoldable pub advanced : Tools → List FaultRule → List ToolCall → List FaultRule
advanced tools [] history = []
advanced tools (rule ∷ rules) history =
    moved_by (count (matches tools rule) history) rule
    ∷ advanced tools rules (passed_on tools rule history)

All-step_at :
    (P : FaultStep → Type 0) (n : ℕ) (s : FaultStep) (rest : List FaultStep)
    → P s
    → All P rest
    → P (step_at n s rest)
All-step_at P n s [] h every = h
All-step_at P zero s (t ∷ rest) h every = h
All-step_at P (suc n) s (t ∷ rest) h every = All-step_at P n t rest every.0 every.1

abbrev is_settled : Verdict → Bool
is_settled unsettled = false
is_settled _ = true

verdict-is_settled :
    (call : ToolCall) (id : String) (step : FaultStep)
    → is_known step ≡ true
    → is_settled (verdict call id (effective step)) ≡ true
unfolding verdict
verdict-is_settled call id step h =
    if_rule (λ o. is_settled (verdict call id o) ≡ true) (equals step.result "passthrough")
      (λ p. refl) (λ q. ground (arith, h))

current_step-is_settled :
    (call : ToolCall) (rule : FaultRule) (cursor : ℕ)
    → IsKnown rule
    → is_settled (verdict call rule.rule_id (current_step cursor rule.sequence)) ≡ true
unfolding IsKnown current_step verdict
current_step-is_settled call rule cursor known = of_sequence rule.sequence known
  where
    of_sequence :
        (steps : List FaultStep)
        → All (λ step. is_known step ≡ true) steps
        → is_settled (verdict call rule.rule_id (current_step cursor steps)) ≡ true
    of_sequence [] every = refl
    of_sequence (s ∷ rest) every =
        verdict-is_settled call rule.rule_id (step_at cursor s rest)
          (All-step_at (λ step. is_known step ≡ true) cursor s rest every.0 every.1)

current_step-moved_by :
    (n : ℕ) (rule : FaultRule)
    → current_step (moved_by n rule).cursor rule.sequence
      ≡ current_step (n + rule.cursor) rule.sequence
unfolding current_step
current_step-moved_by n rule = of_sequence rule.sequence
  where
    of_sequence :
        (steps : List FaultStep)
        → current_step (if length steps == 0 then rule.cursor else n + rule.cursor) steps
          ≡ current_step (n + rule.cursor) steps
    of_sequence [] = refl
    of_sequence (s ∷ rest) = ap (λ c. effective (step_at c s rest)) (ground arith)

matches-moved_by :
    (tools : Tools) (n : ℕ) (rule : FaultRule) (call : ToolCall)
    → matches tools (moved_by n rule) call ≡ matches tools rule call
unfolding matches
matches-moved_by tools n rule call = refl

settle-settled :
    (rule : FaultRule) (rules : List FaultRule) (later : List FaultRule × Verdict) (v : Verdict)
    → is_settled v ≡ true
    → settle rule rules later v ≡ (rule ∷ rules, v)
settle-settled rule rules later unsettled h = absurd (cc)
settle-settled rule rules later passes h = refl
settle-settled rule rules later (defers id step) h = refl
settle-settled rule rules later (scripted r) h = refl

moved_by-sum : (a b : ℕ) (rule : FaultRule) → moved_by a (moved_by b rule) ≡ moved_by (a + b) rule
moved_by-sum a b rule = ap (λ c. record rule { cursor = c }) (ground arith)

-- One consultation: the cursors and the answer are those of the schedule.
pub consult-scheduled :
    (tools : Tools) (rules : List FaultRule) (history : List ToolCall) (call : ToolCall)
    → All IsKnown rules
    → consult tools (advanced tools rules history) call
      ≡ (advanced tools rules (history ++ call ∷ []), scheduled tools rules history call)
unfolding consult advanced scheduled next_step
consult-scheduled tools [] history call known = refl
consult-scheduled tools (rule ∷ rules) history call known =
    let n = count (matches tools rule) history in
    let later = consult-scheduled tools rules (passed_on tools rule history) call known.1 in
    let kept = keep-append_one (λ x. not (matches tools rule x)) history call in
    let counted = count-append (matches tools rule) history (call ∷ []) in
    let same = matches-moved_by tools n rule call in
    let answer = current_step-moved_by n rule in
    elim (Bool-cases (matches tools rule call)) [
      | inl e ↦
          let first : moved_by 1 (moved_by n rule)
              ≡ moved_by (count (matches tools rule) (history ++ call ∷ [])) rule =
            moved_by-sum 1 n rule ∙ ap (λ k. moved_by k rule) (ground (arith, counted, e)) in
          let rest : passed_on tools rule (history ++ call ∷ []) ≡ passed_on tools rule history =
            rw e at kept in
          rw (same, e)
            (settle-settled (moved_by 1 (moved_by n rule))
                (advanced tools rules (passed_on tools rule history))
                (consult tools (advanced tools rules (passed_on tools rule history)) call)
                (verdict call rule.rule_id (current_step (moved_by n rule).cursor rule.sequence))
                (current_step-is_settled call rule (moved_by n rule).cursor known.0)
              ∙ cc (first, rest, answer))
      | inr e ↦
          let first : n ≡ count (matches tools rule) (history ++ call ∷ []) =
            ground (arith, counted, e) in
          let rest : passed_on tools rule (history ++ call ∷ [])
              ≡ passed_on tools rule history ++ call ∷ [] =
            rw e at kept in
          rw (same, e) (cc (first, rest, later))
    ]
