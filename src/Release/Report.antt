-- ===== src/Release/Report.antt =====
-- What `audit` reports (apps/api/app/scenario/release.py).
use the_evil_repository.Prelude.{
  Bool, Dict, List, String, [], arith, count, count-le-length, get_or_else, keep, length,
  length-keep, length-put-le, lookup, map, one_if, put, refl, ℕ, ◌+◌, ◌∙◌, ◌∷◌, ◌≡◌, ◌≤◌,
}
use the_evil_repository.Protocol.{Host}
use the_evil_repository.Release.State.{
  ActionRecord, Decision, Director, Observation, Plan, Verification, clean_rebuild,
}
use the_evil_repository.Release.Clock.{init}
use the_evil_repository.Release.Execute.{Event, run}
use the_evil_repository.Release.Audit.{
  audit, is_correct, kinds_from, latest_decisions, latest_from, same_action,
}
use the_evil_repository.Release.Accounts.{IsBudgeted, is_irreversible, run-IsBudgeted, was_rebuild}
use the_evil_repository.Release.Bounds.{InRange, run-InRange}

-- The sum of the values of a dict.
abbrev pub total : Dict ℕ → ℕ
total [] = 0
total ((k, n) ∷ rest) = n + total rest

total-put :
    (kind : String) (m : ℕ) (counts : Dict ℕ)
    → total (put kind m counts) + get_or_else 0 (lookup kind counts) ≡ total counts + m
total-put kind m [] = omega arith
total-put kind m ((k, n) ∷ rest) = ground (arith, total-put kind m rest)

total-kinds_from :
    (counts : Dict ℕ) (os : List Observation)
    → total (kinds_from counts os) ≡ total counts + length os
total-kinds_from counts [] = omega arith
total-kinds_from counts (o ∷ os) =
    let m = get_or_else 0 (lookup o.kind counts) + 1 in
    omega (arith, total-kinds_from (put o.kind m counts) os, total-put o.kind m counts)

length-latest_from :
    (latest : Dict Decision) (xs : List Decision)
    → length (latest_from latest xs) ≤ length latest + length xs
length-latest_from latest [] = omega arith
length-latest_from latest (x ∷ xs) =
    omega
      (arith, length-latest_from (put x.ticket_id x latest) xs, length-put-le x.ticket_id x latest)

-- The counts of an audit add up, and along a run they are those of the director's accounts.
pub record IsBalanced (d : Director) : Type 0 where
  pub decided :
      (audit d).correct_decisions + (audit d).wrong_decisions ≡ (audit d).submitted_decisions
  pub latest : (audit d).submitted_decisions ≤ length d.decisions
  pub observed : total (audit d).observation_types ≡ (audit d).observations
  pub protected : (audit d).irreversible_with_snapshot ≤ (audit d).irreversible_actions
  pub one_shot : (audit d).irreversible_actions ≡ one_if d.irreversible_used
  pub attempts :
      d.rebuild_budget + (audit d).clean_rebuild_attempts ≡ get_or_else 2 d.plan.rebuild_budget
  pub passes : length (audit d).successful_verification_modes ≡ (audit d).verification_passes
  pub capped : (audit d).evidence_integrity ≤ 100

count_same :
    (f g : ActionRecord → Bool) (xs : List ActionRecord)
    → ((a : ActionRecord) → f a ≡ g a)
    → count f xs ≡ count g xs
count_same f g [] h = refl
count_same f g (a ∷ rest) h = rw (h a, count_same f g rest h) refl

length-map : (f : Verification → String) (xs : List Verification) → length (map f xs) ≡ length xs
length-map f [] = refl
length-map f (x ∷ xs) = omega (arith, length-map f xs)

balance : (d : Director) → IsBudgeted d → InRange d → IsBalanced d
unfolding audit latest_decisions
balance d h b = record {
  decided = omega (arith, count-le-length (is_correct d.plan) (latest_from [] d.decisions));
  latest = omega (arith, length-latest_from [] d.decisions);
  observed = omega (arith, total-kinds_from [] d.observations);
  protected = count-le-length _ (keep (λ (a : ActionRecord). a.irreversible) d.actions);
  one_shot = length-keep is_irreversible d.actions ∙ h.one_shot;
  attempts = omega (
    arith,
    count_same (λ (a : ActionRecord). same_action a.action clean_rebuild) was_rebuild d.actions
        (λ a. ground arith),
    h.rebuilds_paid,
  );
  passes =
      length-map _ (keep (λ (v : Verification). v.passed) d.verifications)
      ∙ length-keep (λ (v : Verification). v.passed) d.verifications;
  capped = b.integrity_capped;
}

-- After any sequence of calls and ticks: the correct and the wrong decisions make up the tickets
-- decided, which are no more than the decisions submitted; the observations add up over their
-- types; the irreversible actions with a snapshot are no more than all of them, of which there
-- is one if the token is used and none otherwise; the clean rebuilds and the rebuilds left make
-- up the plan's budget; the passes are as many as the successful modes listed; and the evidence
-- integrity is at most 100.
pub audit-IsBalanced :
    (host : Host) (events : List Event) (plan : Plan) → IsBalanced (run host events (init plan))
audit-IsBalanced host events plan =
    balance (run host events (init plan)) (run-IsBudgeted host events plan)
      (run-InRange host events plan)
