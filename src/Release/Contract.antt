-- ===== src/Release/Contract.antt =====
-- The completion contract: `completion_gaps` (apps/api/app/scenario/release.py) is empty exactly
-- when a list of requirements, stated without its Boolean tests, is met.
use the_evil_repository.Prelude.{
  All, Bool, Follows, List, Some, String, String-comparable, [], all, arith, contains, done, false,
  keep, not, refl, true, ◌&&◌, ◌↔◌, ◌∷◌, ◌≡◌, ◌≤◌,
}
use the_evil_repository.Completion.{
  Covers, contains_iff, gap_if, gap_if-eq-nil, is_nil, missing-eq-nil, progress-eq-nil, ◌and◌,
}
use the_evil_repository.Release.State.{ActionRecord, Director}
use the_evil_repository.Release.Verify.{is_protected}
use the_evil_repository.Release.Audit.{
  ReleaseRequirements, attempted, completion_gaps, contains_ordered_subsequence, submitted,
  successful, unique_observations,
}
use the_evil_repository.Release.Sequences.{fits, named_subsequence-Follows}

abbrev pub Protected : ActionRecord → Type 0
Protected a = a.irreversible ≡ true → a.snapshot_before ≡ true

pub record IsReleasable (d : Director) (r : ReleaseRequirements) : Type 0 where
  pub long_enough : r.min_logical_ticks ≤ d.tick
  pub observed : r.min_unique_observations ≤ unique_observations d.observations
  pub decisions : Covers (submitted d) r.required_decisions
  pub attempts : Covers (attempted d) r.required_verification_modes
  pub successes : Covers (successful d) r.required_successful_verification_modes
  pub ordered : Follows fits r.required_verification_sequence (attempted d)
  pub paused : r.require_containment ≡ true → d.paused ≡ true
  pub quarantined : r.require_containment ≡ true → Some (λ x. d.plan.bad_digest ≡ x) d.quarantined
  pub protected : r.require_snapshot_before_irreversible ≡ true → All Protected d.actions

is_protected-Protected :
    (actions : List ActionRecord) → (all is_protected actions ≡ true) ↔ All Protected actions
is_protected-Protected [] = (λ _. tt, λ _. refl)
is_protected-Protected (a ∷ rest) =
    let ih = is_protected-Protected rest in
    (
      λ h. (λ shot. ground arith, ih.0 (ground arith)),
      λ every. let e = ih.1 every.1 in let p = every.0 in ground arith,
    )

-- A gap that is reported when `wanted` holds and `met` does not.
wanted-eq-nil :
    {P : Type 0} (wanted met : Bool) (name : String)
    → ((met ≡ true) ↔ P)
    → (gap_if (wanted && not met) name ≡ []) ↔ (wanted ≡ true → P)
wanted-eq-nil false met name p = (λ _ h. absurd (cc), λ _. refl)
wanted-eq-nil true met name p =
    let gap = gap_if-eq-nil (not met) name in
    (λ h _. p.0 (let e = gap.0 h in ground arith), λ f. gap.1 (rw (p.1 (f refl))))

sequence-eq-nil :
    (values sequence : List String) (name : String)
    → (gap_if
          (not (is_nil sequence)
            && not (contains_ordered_subsequence (keep (λ m. contains m sequence) values) sequence))
          name
        ≡ [])
      ↔ Follows fits sequence values
sequence-eq-nil values [] name = (λ _. done, λ _. refl)
sequence-eq-nil values (m ∷ ms) name =
    let iff =
      wanted-eq-nil true
        (contains_ordered_subsequence (keep (λ x. contains x (m ∷ ms)) values) (m ∷ ms)) name
        (named_subsequence-Follows values (m ∷ ms)) in
    (λ h. iff.0 h refl, λ f. iff.1 λ _. f)

-- With the requirements enabled, no gap is reported exactly when all of them are met: ticks and
-- distinct observations, a decision for each required ticket, each required mode attempted and
-- each that must succeed passed, the modes attempted in the required order, containment, which is
-- that the rollout is paused and the bad digest quarantined at the end, since when does not matter,
-- and a snapshot before every irreversible action.
pub completion_gaps-IsReleasable :
    (d : Director) (r : ReleaseRequirements)
    → r.enabled ≡ true
    → (completion_gaps d r ≡ []) ↔ IsReleasable d r
unfolding completion_gaps
completion_gaps-IsReleasable d r on =
    let parts =
      progress-eq-nil "release logical ticks " d.tick r.min_logical_ticks
      and (progress-eq-nil "distinct release observations " (unique_observations d.observations)
            r.min_unique_observations
          and (missing-eq-nil "release decision " (submitted d) r.required_decisions
              and (missing-eq-nil "release verification mode " (attempted d)
                    r.required_verification_modes
                  and (missing-eq-nil "successful release verification " (successful d)
                        r.required_successful_verification_modes
                      and (sequence-eq-nil (attempted d) r.required_verification_sequence _
                          and (wanted-eq-nil r.require_containment d.paused _ (λ h. h, λ h. h)
                              and (wanted-eq-nil r.require_containment
                                    (contains d.plan.bad_digest d.quarantined) _
                                    (contains_iff d.plan.bad_digest d.quarantined)
                                  and wanted-eq-nil r.require_snapshot_before_irreversible
                                      (all is_protected d.actions) _
                                      (is_protected-Protected d.actions)))))))) in
    rw on (
      λ h.
          let (ticks, (seen, (tickets, (modes, (good, (order, (pause, (quarantine, safe)))))))) =
            parts.0 h in
          record {
            long_enough = ticks;
            observed = seen;
            decisions = tickets;
            attempts = modes;
            successes = good;
            ordered = order;
            paused = pause;
            quarantined = quarantine;
            protected = safe;
          },
      λ c. parts.1 (
        c.long_enough,
        (
          c.observed,
          (
            c.decisions,
            (c.attempts, (c.successes, (c.ordered, (c.paused, (c.quarantined, c.protected))))),
          ),
        ),
      ),
    )
