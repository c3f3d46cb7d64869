-- ===== src/Release/Staging.antt =====
-- What a passing verification rests on (`_verify`, apps/api/app/scenario/release.py): soak on a
-- replay, replay on a canary, canary on a provenance run, each of an acceptable digest.
use the_evil_repository.Prelude.{
  All, All-append, All-map, List, Option-cases, Some, Some-and_All, Some-append_left, Some-map, [],
  any, any-append, arith, find_last-Some, inl, inr, is_some, leb→le, refl, subst, true, ℕ, ◌++◌,
  ◌+◌, ◌∙◌, ◌∷◌, ◌≡◌, ◌≤◌,
}
use the_evil_repository.Release.State.{
  Director, Mode, Plan, Verification, baseline, canary, provenance, quick, replay, soak,
}
use the_evil_repository.Release.Clock.{advance, init}
use the_evil_repository.Release.Inspect.{observed}
use the_evil_repository.Release.Snapshot.{capture}
use the_evil_repository.Release.Verify.{
  append_verification, canary_spacing, is_acceptable, latest_passing, matured, passes, passing,
  replay_spacing, same_mode, soak_floor, verification,
}
use the_evil_repository.Release.Execute.{Event, append_decision, run}
use the_evil_repository.Release.Transitions.{
  Transition, captures, decides, idle, observes, performs, ticks, verifies,
}
use the_evil_repository.Release.Frame.{performs-Performed}
use the_evil_repository.Protocol.{Host}
use the_evil_repository.Release.Outcomes.{run_rule}

-- A run of the mode passed at least `gap` ticks before `tick`.
abbrev IsPrior : Mode → ℕ → ℕ → Verification → Type 0
IsPrior mode gap tick w = (passes mode w ≡ true) × (w.tick + gap ≤ tick)

abbrev IsGood : Plan → Verification → Type 0
IsGood plan v = is_acceptable plan v.deployment_digest ≡ true

-- What a passing run of each mode rests on, among the runs `vs`.
abbrev Backing : Plan → List Verification → Verification → Mode → Type 0
Backing plan vs v baseline = ⊥
Backing plan vs v quick = Unit
Backing plan vs v provenance = IsGood plan v
Backing plan vs v canary = IsGood plan v × Some (λ w. passes provenance w ≡ true) vs
Backing plan vs v replay = IsGood plan v × Some (IsPrior canary (canary_spacing plan) v.tick) vs
Backing plan vs v soak =
    IsGood plan v
    × Some (IsPrior replay (replay_spacing plan) v.tick) vs
    × (soak_floor plan ≤ v.tick)

abbrev IsBacked : Plan → List Verification → Verification → Type 0
IsBacked plan vs v = v.passed ≡ true → Backing plan vs v v.mode

-- The mark of recovery is that of a passed soak.
pub record IsStaged (d : Director) : Type 0 where
  pub backed : All (IsBacked d.plan d.verifications) d.verifications
  pub marked : d.recovery_verified ≡ any (passes soak) d.verifications

latest-Some :
    (mode : Mode) (vs : List Verification)
    → is_some (latest_passing mode vs) ≡ true
    → Some (λ w. passes mode w ≡ true) vs
unfolding latest_passing
latest-Some mode vs h = elim (Option-cases (latest_passing mode vs)) [
  | inl none_yet ↦ absurd (ground arith)
  | inr (w, found) ↦
      find_last-Some (λ w. passes mode w ≡ true) (passes mode) vs {y = w} found λ e. e
]

matured-Some :
    (mode : Mode) (gap tick : ℕ) (vs : List Verification)
    → matured (latest_passing mode vs) gap tick ≡ true
    → Some (IsPrior mode gap tick) vs
unfolding latest_passing matured
matured-Some mode gap tick vs h = elim (Option-cases (latest_passing mode vs)) [
  | inl none_yet ↦ absurd (ground arith)
  | inr (w, found) ↦
      find_last-Some (IsPrior mode gap tick) (passes mode) vs {y = w} found
        λ e. (e, leb→le _ _ (rw (found, matured) at h))
]

Backing-append :
    (plan : Plan) (vs ws : List Verification) (v : Verification) (mode : Mode)
    → Backing plan vs v mode
    → Backing plan (vs ++ ws) v mode
Backing-append plan vs ws v baseline h = h
Backing-append plan vs ws v quick h = tt
Backing-append plan vs ws v provenance h = h
Backing-append plan vs ws v canary h = (h.0, Some-append_left ws h.1)
Backing-append plan vs ws v replay h = (h.0, Some-append_left ws h.1)
Backing-append plan vs ws v soak h = (h.0, Some-append_left ws h.1, h.2)

passing-Backing :
    (d : Director) (mode : Mode)
    → passing d mode ≡ true
    → Backing d.plan d.verifications (verification d mode) mode
unfolding passing verification
passing-Backing d baseline h = absurd (ground arith)
passing-Backing d quick h = tt
passing-Backing d provenance h = ground arith
passing-Backing d canary h = (ground arith, latest-Some provenance d.verifications (ground arith))
passing-Backing d replay h = (
  ground arith,
  matured-Some canary (canary_spacing d.plan) d.tick d.verifications (ground arith),
)
passing-Backing d soak h = (
  ground arith,
  matured-Some replay (replay_spacing d.plan) d.tick d.verifications (ground arith),
  ground arith,
)

append-IsStaged :
    (d : Director) (mode : Mode)
    → IsStaged d
    → IsStaged (append_verification d (verification d mode))
unfolding append_verification verification
append-IsStaged d mode h =
    let v = verification d mode in
    let later = d.verifications ++ v ∷ [] in
    record {
      backed =
          All-append (IsBacked d.plan later) d.verifications (v ∷ [])
            (All-map {Q = IsBacked d.plan later}
              (λ w k e. Backing-append d.plan d.verifications (v ∷ []) w w.mode (k e))
              d.verifications h.backed)
            (
              λ e. Backing-append d.plan d.verifications (v ∷ []) v mode (passing-Backing d mode e),
              tt,
            );
      marked = rw any-append (ground (arith, h.marked));
    }

same-IsStaged :
    (d e : Director)
    → e.plan ≡ d.plan
    → e.verifications ≡ d.verifications
    → e.recovery_verified ≡ d.recovery_verified
    → IsStaged d
    → IsStaged e
same-IsStaged d e plan runs mark h = record {
  backed = rw (plan, runs) h.backed;
  marked = rw (mark, runs) h.marked;
}

Transition-IsStaged : (d e : Director) → Transition d e → IsStaged d → IsStaged e
unfolding observed append_decision capture advance
Transition-IsStaged d _ idle h = h
Transition-IsStaged d _ ticks h = same-IsStaged d _ refl refl refl h
Transition-IsStaged d _ (observes kind key by) h = same-IsStaged d _ refl refl refl h
Transition-IsStaged d _ (captures id some_left by) h = same-IsStaged d _ refl refl refl h
Transition-IsStaged d _
      (performs call known action resolved generated changed left free target c by) h =
    let p = performs-Performed d call known action generated c in
    same-IsStaged d _ p.plan p.verifications p.recovery h
Transition-IsStaged d _ (verifies mode by) h = append-IsStaged d mode h
Transition-IsStaged d _ (decides host call known id present by) h =
    same-IsStaged d _ refl refl refl h

-- The passing runs below a soak, each of an acceptable digest.
abbrev pub RestsOnProvenance : Plan → List Verification → Type 0
RestsOnProvenance plan vs = Some (λ p. (passes provenance p ≡ true) × IsGood plan p) vs

abbrev pub RestsOnCanary : Plan → List Verification → ℕ → Type 0
RestsOnCanary plan vs tick =
    Some
      (λ c.
        ((passes canary c ≡ true) × (c.tick + canary_spacing plan ≤ tick))
        × IsGood plan c
        × RestsOnProvenance plan vs)
      vs

abbrev pub RestsOnReplay : Plan → List Verification → ℕ → Type 0
RestsOnReplay plan vs tick =
    Some
      (λ r.
        ((passes replay r ≡ true) × (r.tick + replay_spacing plan ≤ tick))
        × IsGood plan r
        × RestsOnCanary plan vs r.tick)
      vs

abbrev pub IsVetted : Plan → List Verification → Verification → Type 0
IsVetted plan vs v =
    passes soak v ≡ true → IsGood plan v × (soak_floor plan ≤ v.tick) × RestsOnReplay plan vs v.tick

same_mode→eq : (a b : Mode) → same_mode a b ≡ true → a ≡ b
same_mode→eq a b h = ground arith

at_mode :
    (plan : Plan) (vs : List Verification) (mode : Mode) (v : Verification)
    → passes mode v ≡ true
    → IsBacked plan vs v
    → Backing plan vs v mode
at_mode plan vs mode v h b =
    subst (Backing plan vs v) (same_mode→eq v.mode mode (ground arith)) (b (ground arith))

certify :
    (plan : Plan) (vs : List Verification) → All (IsBacked plan vs) vs → All (IsVetted plan vs) vs
certify plan vs every =
    All-map {P = IsBacked plan vs} {Q = IsVetted plan vs}
      (λ v b h.
        let (good, prior, late) = at_mode plan vs soak v h b in (good, late, on_replay prior))
      vs every
  where
    on_provenance : Some (λ w. passes provenance w ≡ true) vs → RestsOnProvenance plan vs
    on_provenance prior =
        Some-map (λ p k. (k.0, at_mode plan vs provenance p k.0 k.1))
          (Some-and_All {Q = IsBacked plan vs} prior every)

    on_canary :
        {tick : ℕ}
        → Some (IsPrior canary (canary_spacing plan) tick) vs
        → RestsOnCanary plan vs tick
    on_canary prior =
        Some-map
          (λ c k.
            let (good, rest) = at_mode plan vs canary c k.0.0 k.1 in
            (k.0, good, on_provenance rest))
          (Some-and_All {Q = IsBacked plan vs} prior every)

    on_replay :
        {tick : ℕ}
        → Some (IsPrior replay (replay_spacing plan) tick) vs
        → RestsOnReplay plan vs tick
    on_replay prior =
        Some-map
          (λ r k.
            let (good, rest) = at_mode plan vs replay r k.0.0 k.1 in (k.0, good, on_canary rest))
          (Some-and_All {Q = IsBacked plan vs} prior every)

keeps_plan : (d e : Director) → Transition d e → e.plan ≡ d.plan
unfolding observed append_verification append_decision capture advance
keeps_plan d _ idle = refl
keeps_plan d _ ticks = refl
keeps_plan d _ (observes kind key by) = refl
keeps_plan d _ (captures id some_left by) = refl
keeps_plan d _ (performs call known action resolved generated changed left free target c by) =
    (performs-Performed d call known action generated c).plan
keeps_plan d _ (verifies mode by) = refl
keeps_plan d _ (decides host call known id present by) = refl

-- After any sequence of calls and ticks the recovery is marked as verified exactly when a soak
-- passed. Of every soak that passed: its tick is at least the plan's minimum; a replay passed at
-- least the plan's interval before it; a canary passed at least its interval before that replay;
-- a provenance run passed; and each of the four was of an acceptable digest.
pub run-IsVetted :
    (host : Host) (events : List Event) (plan : Plan)
    → let d = run host events (init plan) in
      (d.recovery_verified ≡ any (passes soak) d.verifications)
      × All (IsVetted plan d.verifications) d.verifications
unfolding init
run-IsVetted host events plan =
    let (same, staged) =
      run_rule (λ d. (d.plan ≡ plan) × IsStaged d)
        (λ d e t k. (keeps_plan d e t ∙ k.0, Transition-IsStaged d e t k.1)) host events (init plan)
        (refl, record { backed = tt; marked = refl }) in
    let vs = (run host events (init plan)).verifications in
    (staged.marked, certify plan vs (subst (λ p. All (IsBacked p vs) vs) same staged.backed))
