-- ===== src/Release/Trust.antt =====
-- What an attempt to weaken the signature policy costs for good (`_action` and `_verify`,
-- apps/api/app/scenario/release.py).
use the_evil_repository.Prelude.{
  Bool, List, any, any-append, arith, count, count-append, false, refl, true, ◌||◌, ◌∙◌, ◌≡◌,
}
use the_evil_repository.Protocol.{Host}
use the_evil_repository.Release.State.{Director, Mode, Verification, provenance, soak}
use the_evil_repository.Release.Clock.{advance}
use the_evil_repository.Release.Inspect.{observed}
use the_evil_repository.Release.Snapshot.{capture}
use the_evil_repository.Release.Verify.{
  append_verification, passes, passing, verification, was_denied,
}
use the_evil_repository.Release.Execute.{Event, append_decision, run}
use the_evil_repository.Release.Transitions.{
  Transition, captures, decides, idle, observes, performs, ticks, verifies,
}
use the_evil_repository.Release.Outcomes.{run_rule}
use the_evil_repository.Release.Frame.{performs-Performed}

-- The runs that certify a release.
abbrev pub certifies : Verification → Bool
certifies v = passes provenance v || passes soak v

-- A denied action is on record in both, and `e` has no new passing provenance run or soak.
pub record IsDistrusted (d e : Director) : Type 0 where
  pub denied : any was_denied e.actions ≡ true
  pub none_certified : count certifies e.verifications ≡ count certifies d.verifications
  pub unmarked : e.recovery_verified ≡ d.recovery_verified

-- With a denied action on record no run of these modes passes.
run_fails :
    (d : Director) (mode : Mode)
    → any was_denied d.actions ≡ true
    → (certifies (verification d mode) ≡ false) × (passes soak (verification d mode) ≡ false)
unfolding verification passing
run_fails d mode h = ground (arith, h)

module _ (d : Director) where
  same-IsDistrusted :
      (e f : Director)
      → f.actions ≡ e.actions
      → f.verifications ≡ e.verifications
      → f.recovery_verified ≡ e.recovery_verified
      → IsDistrusted d e
      → IsDistrusted d f
  same-IsDistrusted e f actions runs mark h = record {
    denied = rw actions h.denied;
    none_certified = rw runs h.none_certified;
    unmarked = mark ∙ h.unmarked;
  }

  Transition-IsDistrusted : (e f : Director) → Transition e f → IsDistrusted d e → IsDistrusted d f
  unfolding observed append_decision capture advance append_verification
  Transition-IsDistrusted e _ idle h = h
  Transition-IsDistrusted e _ ticks h = same-IsDistrusted e _ refl refl refl h
  Transition-IsDistrusted e _ (observes kind key by) h = same-IsDistrusted e _ refl refl refl h
  Transition-IsDistrusted e _ (captures id some_left by) h = same-IsDistrusted e _ refl refl refl h
  Transition-IsDistrusted e _
        (performs call known action resolved generated changed left free target c by) h =
      let p = performs-Performed e call known action generated c in
      record {
        denied = rw (p.logged, any-append) (ground (arith, h.denied));
        none_certified = rw p.verifications h.none_certified;
        unmarked = p.recovery ∙ h.unmarked;
      }
  Transition-IsDistrusted e _ (verifies mode by) h =
      let (fails, unsoaked) = run_fails e mode h.denied in
      record {
        denied = h.denied;
        none_certified = rw (count-append, fails) (omega (arith, h.none_certified));
        unmarked = rw unsoaked h.unmarked;
      }
  Transition-IsDistrusted e _ (decides host call known id present by) h =
      same-IsDistrusted e _ refl refl refl h

-- Once a denied action is on record, no provenance run and no soak passes any more, whatever is
-- called, and the recovery is not marked as verified unless it already was.
pub run-IsDistrusted :
    (host : Host) (events : List Event) (d : Director)
    → any was_denied d.actions ≡ true
    → IsDistrusted d (run host events d)
run-IsDistrusted host events d h =
    run_rule (IsDistrusted d) (Transition-IsDistrusted d) host events d
      (record { denied = h; none_certified = refl; unmarked = refl })
