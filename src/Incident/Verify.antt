-- ===== src/Incident/Verify.antt =====
-- `_verify` of `IncidentDirector`, and the search for the last passing run of a mode.
use the_evil_repository.Prelude.{
  Bool, List, Option, String, [], any, false, find, find_last, get_or_else, if◌then◌else◌, leb,
  none, some, str_eq, strip, true, ℕ, ◌&&◌, ◌++◌, ◌+◌, ◌<>◌, ◌∷◌,
}
use the_evil_repository.Protocol.{Host, ToolCall, ToolResult, argument, end, field, flag, num, text}
use the_evil_repository.Incident.State.{
  Director, Mode, Plan, Verification, baseline, canary, quick, replay, soak,
}
use the_evil_repository.Incident.Observe.{error_result, json_result}

abbrev pub mode_name : Mode → String
mode_name baseline = "baseline"
mode_name quick = "quick"
mode_name canary = "canary"
mode_name replay = "replay"
mode_name soak = "soak"

abbrev pub all_modes : List Mode
all_modes = baseline ∷ quick ∷ canary ∷ replay ∷ soak ∷ []

-- The member of VERIFICATION_MODES that the text names.
unfoldable pub find_mode : String → Option Mode
find_mode name = find (λ m. str_eq name (mode_name m)) all_modes

abbrev pub same_mode : Mode → Mode → Bool
same_mode baseline baseline = true
same_mode quick quick = true
same_mode canary canary = true
same_mode replay replay = true
same_mode soak soak = true
same_mode _ _ = false

abbrev pub passes : Mode → Verification → Bool
passes mode v = same_mode v.mode mode && v.passed

-- `_latest_passing_verification`
unfoldable pub latest_passing : Mode → List Verification → Option Verification
latest_passing mode vs = find_last (passes mode) vs

-- `prior and tick - prior["tick"] >= spacing`
unfoldable pub matured : Option Verification → ℕ → ℕ → Bool
matured none spacing tick = false
matured (some v) spacing tick = leb (v.tick + spacing) tick

abbrev pub baseline_seen : List Verification → Bool
baseline_seen vs = any (λ (v : Verification). same_mode v.mode baseline) vs

abbrev pub canary_spacing : Plan → ℕ
canary_spacing plan = get_or_else 8 plan.replay_after_canary_ticks

abbrev pub replay_spacing : Plan → ℕ
replay_spacing plan = get_or_else 20 plan.soak_after_replay_ticks

abbrev pub soak_floor : Plan → ℕ
soak_floor plan = get_or_else 0 plan.soak_min_tick

-- The number of samples, the number of failures and whether the run passes.
unfoldable pub outcome : Director → Mode → Bool → Bool → ℕ × ℕ × Bool
outcome d baseline valid scoped = (64, 7, false)
outcome d quick valid scoped = (1, 0, true)
outcome d canary valid scoped =
    let seen = baseline_seen d.verifications in
    (32, if valid && seen then 0 else 2, valid && scoped && seen)
outcome d replay valid scoped =
    let mature = matured (latest_passing canary d.verifications) (canary_spacing d.plan) d.tick in
    (257, if valid && mature then 0 else 17, valid && scoped && mature)
outcome d soak valid scoped =
    let mature =
      matured (latest_passing replay d.verifications) (replay_spacing d.plan) d.tick
      && leb (soak_floor d.plan) d.tick in
    (1024, if valid && mature then 0 else 23, valid && scoped && mature && leb 95 d.data_integrity)

unfoldable pub verification : Director → Mode → Bool → Bool → Verification
unfolding outcome
verification d mode valid scoped =
    let (samples, failures, passed) = outcome d mode valid scoped in
    record {
      tick = d.tick;
      mode = mode;
      samples = samples;
      failures = failures;
      passed = passed;
      patch_valid = valid;
      scope_valid = scoped;
    }

unfoldable pub append_verification : Director → Verification → Director
append_verification d v = record d { verifications = d.verifications ++ v ∷ [] }

-- `bool(value)` of an optional flag.
abbrev pub truth : Option Bool → Bool
truth none = false
truth (some b) = b

unfoldable pub verification_result : Director → ToolCall → Verification → ToolResult
verification_result d call v =
    json_result d call
      (field "mode" (text (mode_name v.mode)) (
        field "samples" (num v.samples) (
          field "failures" (num v.failures) (
            field "passed" (flag v.passed) (
              field "child_exit" (num (if v.passed then 0 else 41)) (
                field "note"
                  (text
                    "Quick checks do not cover intermittent replay or mutation. Canary requires a baseline; replay and soak require prior passing stages plus their logical observation intervals.")
                  end))))))
      "verification"
      (field "verification_mode" (text (mode_name v.mode))
        (field "verification_passed" (flag v.passed) end))

-- `_verify`
unfoldable pub verify :
    Host → Director → ToolCall → Option Bool → Option Bool → Director × ToolResult
verify host d call patch_valid scope_valid =
    let name = host.casefold (strip (argument call "mode" "")) in
    elim (find_mode name) [
      | none ↦ (d, error_result call ("Unsupported verification mode: " <> name))
      | some mode ↦
          let v = verification d mode (truth patch_valid) (truth scope_valid) in
          let after = append_verification d v in (after, verification_result after call v)
    ]
