-- ===== src/Incident/Report.antt =====
-- The counts of an audit add up (`audit`, apps/api/app/scenario/incident.py).
use the_evil_repository.Prelude.{
  All, All-map, Bool, Dict, List, [], arith, count, count-le-length, get_or_else, keep, length,
  length-put-le, lookup, option_rule, put, refl, suc, ℕ, ◌*◌, ◌+◌, ◌∷◌, ◌≡◌, ◌≤◌,
}
use the_evil_repository.Protocol.{Host}
use the_evil_repository.Incident.State.{ActionRecord, Decision, Director, Plan, Ticket}
use the_evil_repository.Incident.Clock.{init}
use the_evil_repository.Incident.Execute.{Event, run}
use the_evil_repository.Incident.Gaps.{is_risky}
use the_evil_repository.Incident.Audit.{
  audit, is_match, is_miss, is_rollback, latest_decisions, latest_from, least, results_of, sum,
}
use the_evil_repository.Incident.Bounds.{InBounds, run-InBounds}
use the_evil_repository.Incident.Accounts.{IsAccounted, is_performed, run-IsAccounted}

pub record AddsUp (d : Director) : Type 0 where
  pub decided :
      (audit d).correct_decisions + (audit d).wrong_decisions ≡ length (audit d).decision_results
  pub required : length (audit d).decision_results ≤ (audit d).required_decisions
  pub revised : (audit d).decisions_submitted + (audit d).decision_revisions ≡ length d.decisions
  pub protected : (audit d).risky_actions_with_snapshot ≤ (audit d).risky_actions
  pub spent :
      (audit d).action_budget_remaining + length (audit d).actions
      ≡ get_or_else 8 d.plan.action_budget + (audit d).rollbacks
  pub sampled : (audit d).slo_count ≡ (audit d).logical_ticks + 1
  pub averaged : (audit d).minimum_slo * (audit d).slo_count ≤ (audit d).slo_sum
  pub capped : (audit d).slo_sum ≤ 10000 * (audit d).slo_count

count-complement :
    (results : Dict Bool) → count is_match results + count is_miss results ≡ length results
count-complement [] = refl
count-complement (r ∷ rest) = ground (arith, count-complement rest)

length-results_of :
    (latest : Dict Decision) (tickets : Dict Ticket)
    → length (results_of latest tickets) ≤ length tickets
length-results_of latest [] = omega arith
length-results_of latest ((id, t) ∷ rest) =
    let shorter = length-results_of latest rest in
    option_rule (λ (rs : Dict Bool). length rs ≤ suc (length rest)) (lookup id latest)
      (λ _. omega (arith, shorter)) λ x _. omega (arith, shorter)

length-latest_from :
    (latest : Dict Decision) (xs : List Decision)
    → length (latest_from latest xs) ≤ length latest + length xs
length-latest_from latest [] = omega arith
length-latest_from latest (x ∷ xs) =
    omega
      (arith, length-latest_from (put x.ticket_id x latest) xs, length-put-le x.ticket_id x latest)

count-rollbacks :
    (actions : List ActionRecord)
    → count is_performed actions + count is_rollback actions ≡ length actions
count-rollbacks [] = refl
count-rollbacks (a ∷ rest) = ground (arith, count-rollbacks rest)

sum-le : (xs : List ℕ) → All (λ x. x ≤ 10000) xs → sum xs ≤ 10000 * length xs
sum-le [] h = omega arith
sum-le (n ∷ rest) h = let later = sum-le rest h.1 in let this = h.0 in omega (arith, later, this)

sum-ge : (bound : ℕ) (xs : List ℕ) → All (λ x. bound ≤ x) xs → bound * length xs ≤ sum xs
sum-ge bound [] h = omega arith
sum-ge bound (n ∷ rest) h =
    let later = sum-ge bound rest h.1 in let this = h.0 in ground (arith, later, this)

least-le : (xs : List ℕ) → All (λ x. least xs ≤ x) xs
least-le [] = tt
least-le (n ∷ []) = (omega arith, tt)
least-le (n ∷ m ∷ rest) = (
  omega arith,
  All-map {P = λ x. least (m ∷ rest) ≤ x} {Q = λ x. least (n ∷ m ∷ rest) ≤ x}
      (λ x h. omega (arith, h)) (m ∷ rest) (least-le (m ∷ rest)),
)

adding_up : (d : Director) → IsAccounted d → InBounds d → AddsUp d
unfolding audit latest_decisions
adding_up d h b = record {
  decided = count-complement (results_of (latest_from [] d.decisions) d.plan.tickets);
  required = length-results_of (latest_from [] d.decisions) d.plan.tickets;
  revised = omega (arith, length-latest_from [] d.decisions);
  protected = count-le-length (λ (a : ActionRecord). a.snapshot_before) (keep is_risky d.actions);
  spent = omega (arith, h.actions_paid, count-rollbacks d.actions);
  sampled = b.sampled;
  averaged = sum-ge (least d.slo_samples) d.slo_samples (least-le d.slo_samples);
  capped = sum-le d.slo_samples b.samples_capped;
}

-- After any sequence of calls and ticks: the correct and the wrong decisions make up the tickets
-- decided, which are no more than all tickets; the tickets with a decision and the revisions make
-- up the decisions; the risky actions with a snapshot are no more than all of them; the actions
-- on record and the budget left make up the plan's budget and the rollbacks; there is one
-- service-level sample more than ticks; and the average service level lies between the minimum
-- that is reported and 100 percent.
pub audit-AddsUp :
    (host : Host) (events : List Event) (plan : Plan) → AddsUp (run host events (init plan))
audit-AddsUp host events plan =
    adding_up (run host events (init plan)) (run-IsAccounted host events plan)
      (run-InBounds host events plan)
