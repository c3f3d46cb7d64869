-- ===== src/Engine/Ends.antt =====
-- The main loop ends, within the hard budget, and drives the directors
-- (apps/api/app/runner/engine.py).
use the_evil_repository.Prelude.{
  All, Bool, Bool-cases, arith, false, inl, inr, refl, some, subst, suc, true, zero, ℕ, ◌+◌, ◌-◌,
  ◌<◌, ◌≡◌, ◌≤◌,
}
use the_evil_repository.Engine.State.{Engine}
use the_evil_repository.Engine.Overrides.{IsBounded}
use the_evil_repository.Engine.Session.{Driver, Round, Session, again, breaks, raises}
use the_evil_repository.Engine.Loop.{exhausted, loop, may_go_on, round}
use the_evil_repository.Engine.Keeping.{Advances, Reached, measure}
use the_evil_repository.Engine.Rounds.{round-Advances}
use the_evil_repository.Engine.Directed.{Directed, untouched}

-- The session at the end of the run.
abbrev pub session_of : {W : Type 0} → Round W → Session W
session_of (again s) = s
session_of (breaks s) = s
session_of (raises reason s) = s

abbrev pub is_over : {W : Type 0} → Round W → Bool
is_over (again s) = false
is_over (breaks s) = true
is_over (raises reason s) = true

module _ {W : Type 0} (driver : Driver W) (bound : ℕ) (e : Engine W) where
  -- The end that the loop comes to, whatever the fuel above the rounds that are left.
  record Ended (fuel : ℕ) (s : Session W) : Type 0 where
    last : Round W
    comes : loop driver fuel s ≡ some last
    over : is_over last ≡ true
    reached : Reached driver.config.tools.host bound e (session_of last)

  exhausted-Reached :
      (s : Session W)
      → Reached driver.config.tools.host bound e s
      → Reached driver.config.tools.host bound e (exhausted driver s)
  unfolding exhausted
  exhausted-Reached s h = record {
    hard = h.hard;
    capped = h.capped;
    calls = h.calls;
    drives = h.drives;
  }

  exhausted-Ended :
      (fuel : ℕ) (s : Session W)
      → may_go_on driver s ≡ false
      → Reached driver.config.tools.host bound e s
      → Ended (suc fuel) s
  unfolding loop
  exhausted-Ended fuel s stop h = record {
    last = breaks (exhausted driver s);
    comes = rw stop refl;
    over = refl;
    reached = exhausted-Reached s h;
  }

  -- With a budget that is not exhausted some round is left.
  some_left :
      (s : Session W)
      → may_go_on driver s ≡ true
      → Reached driver.config.tools.host bound e s
      → 0 < measure bound s
  unfolding may_go_on
  some_left s go h =
      let room : s.engine.tool_calls < s.budget.hard_tool_calls = ground (arith, go) in
      omega (arith, room, h.hard)

  next-Ended :
      (fuel : ℕ) (s t : Session W)
      → may_go_on driver s ≡ true
      → round driver s ≡ again t
      → Ended fuel t
      → Ended (suc fuel) s
  unfolding loop
  next-Ended fuel s t go e x = record {
    last = x.last;
    comes = rw (go, e) x.comes;
    over = x.over;
    reached = x.reached;
  }

  stopped-Ended :
      (fuel : ℕ) (t : Session W)
      → may_go_on driver t ≡ false
      → Reached driver.config.tools.host bound e t
      → 0 < fuel
      → Ended fuel t
  stopped-Ended zero t stop h more = absurd (omega arith)
  stopped-Ended (suc fuel) t stop h more = exhausted-Ended fuel t stop h

  round-Ended :
      (fuel : ℕ) (s : Session W)
      → measure bound s < suc fuel
      → Reached driver.config.tools.host bound e s
      → may_go_on driver s ≡ true
      → ((t : Session W)
          → measure bound t < fuel
          → Reached driver.config.tools.host bound e t
          → Ended fuel t)
      → (r : Round W) → round driver s ≡ r
      → Advances driver bound e (measure bound s) r
      → Ended (suc fuel) s
  unfolding loop
  round-Ended fuel s m h go later (breaks t) same adv = record {
    last = breaks t;
    comes = rw (go, same) refl;
    over = refl;
    reached = adv;
  }
  round-Ended fuel s m h go later (raises reason t) same adv = record {
    last = raises reason t;
    comes = rw (go, same) refl;
    over = refl;
    reached = adv;
  }
  round-Ended fuel s m h go later (again t) same adv =
      let left = some_left s go h in
      next-Ended fuel s t go same (elim adv.1 [
        | inl less ↦ later t (omega (arith, m, less)) adv.0
        | inr stop ↦ stopped-Ended fuel t stop adv.0 (omega (arith, left, m))
      ])

  loop-Ended :
      ((w : W) → All (IsBounded bound) (driver.overrides w))
      → (fuel : ℕ) (s : Session W) → measure bound s < fuel
      → Reached driver.config.tools.host bound e s
      → Ended fuel s
  loop-Ended bounded zero s m h = absurd (omega arith)
  loop-Ended bounded (suc fuel) s m h = elim (Bool-cases (may_go_on driver s)) [
    | inr stop ↦ exhausted-Ended fuel s stop h
    | inl go ↦
        round-Ended fuel s m h go (λ t. loop-Ended bounded fuel t) (round driver s) refl
          (round-Advances driver bound e bounded s h)
  ]

  -- More fuel does not change an end.
  loop-more :
      (fuel : ℕ) (s : Session W) (r : Round W)
      → loop driver fuel s ≡ some r
      → loop driver (suc fuel) s ≡ some r
  unfolding loop
  loop-more zero s r h = absurd (cc)
  loop-more (suc fuel) s r h = elim (Bool-cases (may_go_on driver s)) [
    | inr stop ↦
        rw stop (let same : some (breaks (exhausted driver s)) ≡ some r = rw stop at h in same)
    | inl go ↦ rw go (of_round (round driver s) (λ t. loop-more fuel t r) (rw go at h))
  ]
    where
      of_round :
          (x : Round W)
          → ((t : Session W) → loop driver fuel t ≡ some r → loop driver (suc fuel) t ≡ some r)
          → (elim x [
            | again t ↦ loop driver fuel t
            | breaks t ↦ some (breaks t)
            | raises reason t ↦ some (raises reason t)
          ])
            ≡ some r
          → (elim x [
            | again t ↦ loop driver (suc fuel) t
            | breaks t ↦ some (breaks t)
            | raises reason t ↦ some (raises reason t)
          ])
            ≡ some r
      of_round (again t) more k = more t k
      of_round (breaks t) more k = k
      of_round (raises reason t) more k = k

  loop-enough :
      (extra fuel : ℕ) (s : Session W) (r : Round W)
      → loop driver fuel s ≡ some r
      → loop driver (extra + fuel) s ≡ some r
  loop-enough zero fuel s r h = subst (λ n. loop driver n s ≡ some r) (omega arith) h
  loop-enough (suc extra) fuel s r h =
      subst (λ n. loop driver n s ≡ some r) (omega arith)
        (loop-more (extra + fuel) s r (loop-enough extra fuel s r h))

-- The run comes to an end, the same for any fuel above the rounds that are left, within the bound.
pub record LoopEnds {W : Type 0} (driver : Driver W) (bound : ℕ) (s : Session W) : Type 0 where
  pub last : Round W
  pub comes : (fuel : ℕ) → measure bound s < fuel → loop driver fuel s ≡ some last
  pub over : is_over last ≡ true
  pub within : (session_of last).engine.tool_calls ≤ bound

module _ {W : Type 0} (driver : Driver W) (bound : ℕ) where
  start-Reached :
      (s : Session W)
      → s.budget.hard_tool_calls ≤ bound
      → s.engine.tool_calls ≤ bound
      → Reached driver.config.tools.host bound s.engine s
  start-Reached s hard capped = record {
    hard = hard;
    capped = capped;
    calls = 0;
    drives = untouched driver.config.tools.host s.engine s.engine refl refl refl;
  }

  -- If neither the first budget nor an override asks for a limit on tool calls beyond a bound, and
  -- no more calls than the bound are counted yet, the main loop breaks or raises, at the same end
  -- with any fuel above the rounds left: the bound less the calls counted, and what is left of
  -- eight rejected finishes and of eight invalid batches. The calls counted stay within the bound.
  pub loop-Ends :
      ((w : W) → All (IsBounded bound) (driver.overrides w))
      → (s : Session W) → s.budget.hard_tool_calls ≤ bound
      → s.engine.tool_calls ≤ bound
      → LoopEnds driver bound s
  loop-Ends bounded s hard capped =
      let enough = suc (measure bound s) in
      let x =
        loop-Ended driver bound s.engine bounded enough s (omega arith)
          (start-Reached s hard capped) in
      record {
        last = x.last;
        comes = λ fuel m.
            subst (λ n. loop driver n s ≡ some x.last) (omega arith)
              (loop-enough driver bound s.engine (fuel - enough) enough s x.last x.comes);
        over = x.over;
        within = x.reached.capped;
      }

  -- If neither the first budget nor an override asks for a limit on tool calls beyond a bound, and
  -- no more calls than the bound are counted yet, then with more fuel than there are rounds left
  -- the main loop ends, and there is a number of tool calls such that the run counted that many,
  -- and what it did to each director is some sequence of calls of that director and that many
  -- ticks: one tick for each tool call, whatever its tool, batch, fault or failure.
  pub loop-Drives :
      ((w : W) → All (IsBounded bound) (driver.overrides w))
      → (s : Session W) → s.budget.hard_tool_calls ≤ bound
      → s.engine.tool_calls ≤ bound
      → (fuel : ℕ) → measure bound s < fuel
      → (last : Round W) × (loop driver fuel s ≡ some last)
        × (n : ℕ) × Directed driver.config.tools.host n n s.engine (session_of last).engine
  loop-Drives bounded s hard capped fuel m =
      let x = loop-Ended driver bound s.engine bounded fuel s m (start-Reached s hard capped) in
      (x.last, x.comes, x.reached.calls, x.reached.drives)
