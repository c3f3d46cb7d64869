-- ===== src/Incident/Staging.antt =====
-- What a passing verification rests on (`_verify`, apps/api/app/scenario/incident.py): soak on a
-- replay, replay on a canary, canary on a baseline, each far enough back in logical time.
use the_evil_repository.Prelude.{
  All, All-append, All-map, Bool, List, Option-cases, Some, Some-and_All, Some-append_left,
  Some-map, [], any→Some, arith, find_last-Some, if_rule, inl, inr, leb→le, min, refl, subst, true,
  ℕ, ◌++◌, ◌+◌, ◌==◌, ◌∙◌, ◌∷◌, ◌≡◌, ◌≤◌,
}
use the_evil_repository.Incident.State.{
  Director, Mode, Plan, Verification, baseline, canary, quick, replay, soak,
}
use the_evil_repository.Incident.Verify.{
  append_verification, canary_spacing, latest_passing, matured, outcome, passes, replay_spacing,
  same_mode, soak_floor, verification,
}
use the_evil_repository.Protocol.{Host}
use the_evil_repository.Incident.Clock.{advance, init, sample}
use the_evil_repository.Incident.Observe.{observed}
use the_evil_repository.Incident.Snapshots.{capture}
use the_evil_repository.Incident.Rollback.{restore}
use the_evil_repository.Incident.Actions.{perform}
use the_evil_repository.Incident.Execute.{Event, append_decision, run}
use the_evil_repository.Incident.Relation.{
  Transition, captures, decides, idle, observes, performs, restores, ticks, verifies,
}
use the_evil_repository.Incident.Transitions.{run_rule}

-- A run of the mode passed at least `gap` ticks before `tick`.
abbrev IsPrior : Mode → ℕ → ℕ → Verification → Type 0
IsPrior mode gap tick w = (passes mode w ≡ true) × (w.tick + gap ≤ tick)

abbrev IsBaseline : Verification → Type 0
IsBaseline w = same_mode w.mode baseline ≡ true

-- What a passing run of each mode rests on, among the runs `vs`.
abbrev Backing : Plan → List Verification → ℕ → Mode → Type 0
Backing plan vs tick baseline = ⊥
Backing plan vs tick quick = Unit
Backing plan vs tick canary = Some IsBaseline vs
Backing plan vs tick replay = Some (IsPrior canary (canary_spacing plan) tick) vs
Backing plan vs tick soak =
    Some (IsPrior replay (replay_spacing plan) tick) vs × (soak_floor plan ≤ tick)

abbrev IsBacked : Plan → List Verification → Verification → Type 0
IsBacked plan vs v = v.passed ≡ true → Backing plan vs v.tick v.mode

abbrev IsStaged : Director → Type 0
IsStaged d = All (IsBacked d.plan d.verifications) d.verifications

matured-Some :
    (mode : Mode) (gap tick : ℕ) (vs : List Verification)
    → matured (latest_passing mode vs) gap tick ≡ true
    → Some (IsPrior mode gap tick) vs
unfolding latest_passing matured
matured-Some mode gap tick vs h = elim (Option-cases (latest_passing mode vs)) [
  | inl none_yet ↦ absurd (ground arith)
  | inr (w, found) ↦
      find_last-Some (IsPrior mode gap tick) (passes mode) vs {y = w} found
        λ e. (e, leb→le _ _ (rw (found, matured) at h))
]

Backing-append :
    (plan : Plan) (vs ws : List Verification) (tick : ℕ) (mode : Mode)
    → Backing plan vs tick mode
    → Backing plan (vs ++ ws) tick mode
Backing-append plan vs ws tick baseline h = h
Backing-append plan vs ws tick quick h = tt
Backing-append plan vs ws tick canary h = Some-append_left ws h
Backing-append plan vs ws tick replay h = Some-append_left ws h
Backing-append plan vs ws tick soak h = (Some-append_left ws h.0, h.1)

outcome-Backing :
    (d : Director) (mode : Mode) (valid scoped : Bool)
    → (outcome d mode valid scoped).2 ≡ true
    → Backing d.plan d.verifications d.tick mode
unfolding outcome
outcome-Backing d baseline valid scoped h = absurd (ground arith)
outcome-Backing d quick valid scoped h = tt
outcome-Backing d canary valid scoped h =
    any→Some (λ (v : Verification). same_mode v.mode baseline) d.verifications (ground arith)
outcome-Backing d replay valid scoped h =
    matured-Some canary (canary_spacing d.plan) d.tick d.verifications (ground arith)
outcome-Backing d soak valid scoped h = (
  matured-Some replay (replay_spacing d.plan) d.tick d.verifications (ground arith),
  ground arith,
)

append-IsStaged :
    (d : Director) (mode : Mode) (valid scoped : Bool)
    → IsStaged d
    → IsStaged (append_verification d (verification d mode valid scoped))
unfolding append_verification verification
append-IsStaged d mode valid scoped h =
    let v = verification d mode valid scoped in
    let later = d.verifications ++ v ∷ [] in
    All-append (IsBacked d.plan later) d.verifications (v ∷ [])
      (All-map {Q = IsBacked d.plan later}
        (λ w k e. Backing-append d.plan d.verifications (v ∷ []) w.tick w.mode (k e))
        d.verifications h)
      (
        λ e.
            Backing-append d.plan d.verifications (v ∷ []) d.tick mode
              (outcome-Backing d mode valid scoped e),
        tt,
      )

advance-IsStaged : (d : Director) → IsStaged d → IsStaged (advance d).0
unfolding advance sample
advance-IsStaged d h =
    let next = min d.horizon (d.tick + 1) in
    if_rule (λ e. IsStaged (record e { activated = (advance d).0.activated })) (next == d.tick)
      {x = d} {y = sample d next} (λ _. h) (λ _. h)

Transition-IsStaged : (d e : Director) → Transition d e → IsStaged d → IsStaged e
unfolding observed append_decision capture perform restore
Transition-IsStaged d _ idle h = h
Transition-IsStaged d _ ticks h = advance-IsStaged d h
Transition-IsStaged d _ (observes service signal window by) h = h
Transition-IsStaged d _ (captures id some_left by) h = h
Transition-IsStaged d _ (performs call known action some_left free by) h = h
Transition-IsStaged d _ (restores id reason s found by) h = h
Transition-IsStaged d _ (verifies mode valid scoped by) h = append-IsStaged d mode valid scoped h
Transition-IsStaged d _ (decides host call known id present by) h = h

-- The passing runs below a soak.
abbrev pub RestsOnReplay : Plan → List Verification → ℕ → Type 0
RestsOnReplay plan vs tick =
    Some
      (λ r.
        ((passes replay r ≡ true) × (r.tick + replay_spacing plan ≤ tick))
        × Some
            (λ c.
              ((passes canary c ≡ true) × (c.tick + canary_spacing plan ≤ r.tick))
              × Some (λ b. same_mode b.mode baseline ≡ true) vs)
            vs)
      vs

abbrev pub IsCertified : Plan → List Verification → Verification → Type 0
IsCertified plan vs v =
    passes soak v ≡ true → (soak_floor plan ≤ v.tick) × RestsOnReplay plan vs v.tick

same_mode→eq : (a b : Mode) → same_mode a b ≡ true → a ≡ b
same_mode→eq a b h = ground arith

at_mode :
    (plan : Plan) (vs : List Verification) (mode : Mode) (v : Verification)
    → passes mode v ≡ true
    → IsBacked plan vs v
    → Backing plan vs v.tick mode
at_mode plan vs mode v h b =
    subst (Backing plan vs v.tick) (same_mode→eq v.mode mode (ground arith)) (b (ground arith))

certify :
    (plan : Plan) (vs : List Verification)
    → All (IsBacked plan vs) vs
    → All (IsCertified plan vs) vs
certify plan vs every =
    All-map {P = IsBacked plan vs} {Q = IsCertified plan vs}
      (λ v b h. let (prior, late) = at_mode plan vs soak v h b in (late, on_replay prior)) vs every
  where
    on_canary :
        (r : Verification)
        → (passes replay r ≡ true)
        → IsBacked plan vs r
        → Some
            (λ c.
              ((passes canary c ≡ true) × (c.tick + canary_spacing plan ≤ r.tick))
              × Some (λ b. same_mode b.mode baseline ≡ true) vs)
            vs
    on_canary r h b =
        Some-map (λ c k. (k.0, at_mode plan vs canary c k.0.0 k.1))
          (Some-and_All {Q = IsBacked plan vs} (at_mode plan vs replay r h b) every)

    on_replay :
        {tick : ℕ}
        → Some (IsPrior replay (replay_spacing plan) tick) vs
        → RestsOnReplay plan vs tick
    on_replay prior =
        Some-map (λ r k. (k.0, on_canary r k.0.0 k.1))
          (Some-and_All {Q = IsBacked plan vs} prior every)

keeps_plan : (d e : Director) → Transition d e → e.plan ≡ d.plan
unfolding observed append_verification append_decision capture perform restore advance sample
keeps_plan d _ idle = refl
keeps_plan d _ ticks = ground arith
keeps_plan d _ (observes service signal window by) = refl
keeps_plan d _ (captures id some_left by) = refl
keeps_plan d _ (performs call known action some_left free by) = refl
keeps_plan d _ (restores id reason s found by) = refl
keeps_plan d _ (verifies mode valid scoped by) = refl
keeps_plan d _ (decides host call known id present by) = refl

-- Of every soak that passed in a run: its tick is at least the plan's minimum; a replay passed
-- at least the plan's interval before it; a canary passed at least its interval before that
-- replay; and a baseline is on record.
pub run-IsCertified :
    (host : Host) (events : List Event) (plan : Plan)
    → let vs = (run host events (init plan)).verifications in All (IsCertified plan vs) vs
unfolding init
run-IsCertified host events plan =
    let (same, staged) =
      run_rule (λ d. (d.plan ≡ plan) × IsStaged d)
        (λ d e t k. (keeps_plan d e t ∙ k.0, Transition-IsStaged d e t k.1)) host events (init plan)
        (refl, tt) in
    let vs = (run host events (init plan)).verifications in
    certify plan vs (subst (λ p. All (IsBacked p vs) vs) same staged)
