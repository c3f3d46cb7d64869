-- ===== src/Timeline.antt =====
-- Logical time, which both directors keep in the same way: the phases of a plan and the clock's text
-- (`_phase_at` and `logical_time` of apps/api/app/scenario/incident.py, `_phase` and
-- `logical_time` of apps/api/app/scenario/release.py).
use the_evil_repository.Prelude.{
  List, String, [], if◌then◌else◌, leb, padded, ℕ, ◌%◌, ◌/◌, ◌<>◌, ◌∷◌,
}

pub record Phase : Type 0 where
  pub name : String
  pub start_tick : ℕ

-- The name of the last phase in the list that has started, or else the one selected before.
abbrev pub phase_from : String → ℕ → List Phase → String
phase_from selected tick [] = selected
phase_from selected tick (p ∷ rest) =
    phase_from (if leb p.start_tick tick then p.name else selected) tick rest

-- Hours, minutes and seconds.
unfoldable pub clock_parts : ℕ → ℕ × ℕ × ℕ
clock_parts total =
    let hours = total / 3600 in
    let remainder = total % 3600 in (hours, remainder / 60, remainder % 60)

-- `logical_time`
unfoldable pub clock_text : ℕ → String
unfolding clock_parts padded
clock_text total =
    let (hours, minutes, seconds) = clock_parts total in
    "T+" <> padded 2 hours <> ":" <> padded 2 minutes <> ":" <> padded 2 seconds
