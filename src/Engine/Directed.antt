-- ===== src/Engine/Directed.antt =====
-- The engine as a driver of the directors: what it does to each is a sequence of calls and ticks
-- of that director (apps/api/app/runner/engine.py).
use the_evil_repository.Prelude.{
  Bool, List, Option, [], ap, arith, count, count-append, false, none, refl, some, sym, true, ℕ,
  ◌++◌, ◌+◌, ◌∙◌, ◌∷◌, ◌≡◌,
}
use the_evil_repository.Protocol.{Host}
use the_evil_repository.Faults.Controller.{after}
use the_evil_repository.Engine.State.{Engine}
use the_evil_repository.Incident.State as IncidentState
use the_evil_repository.Release.State as ReleaseState
use the_evil_repository.Incident.Execute as IncidentExecute
use the_evil_repository.Release.Execute as ReleaseExecute

abbrev pub mapped {ℓ} : {A : Type ℓ} → (A → A) → Option A → Option A
mapped f none = none
mapped f (some a) = some (f a)

abbrev pub is_incident_tick : IncidentExecute.Event → Bool
is_incident_tick (IncidentExecute.called call context) = false
is_incident_tick IncidentExecute.ticked = true

abbrev pub is_release_tick : ReleaseExecute.Event → Bool
is_release_tick (ReleaseExecute.called call known) = false
is_release_tick ReleaseExecute.ticked = true

incident_run-append :
    (host : Host) (xs ys : List IncidentExecute.Event) (d : IncidentState.Director)
    → IncidentExecute.run host (xs ++ ys) d
      ≡ IncidentExecute.run host ys (IncidentExecute.run host xs d)
unfolding IncidentExecute.run
incident_run-append host [] ys d = refl
incident_run-append host (x ∷ xs) ys d =
    incident_run-append host xs ys (IncidentExecute.step host x d)

release_run-append :
    (host : Host) (xs ys : List ReleaseExecute.Event) (d : ReleaseState.Director)
    → ReleaseExecute.run host (xs ++ ys) d
      ≡ ReleaseExecute.run host ys (ReleaseExecute.run host xs d)
unfolding ReleaseExecute.run
release_run-append host [] ys d = refl
release_run-append host (x ∷ xs) ys d = release_run-append host xs ys (ReleaseExecute.step host x d)

mapped-compose :
    {A : Type 0} (f g h : A → A) (o : Option A)
    → ((a : A) → h a ≡ g (f a))
    → mapped g (mapped f o) ≡ mapped h o
mapped-compose f g h none e = refl
mapped-compose f g h (some a) e = ap some (sym (e a))

pub mapped-same : {A : Type 0} (f : A → A) (o : Option A) → ((a : A) → f a ≡ a) → o ≡ mapped f o
mapped-same f none e = refl
mapped-same f (some a) e = ap some (sym (e a))

-- From `e` to `after`, each director went through calls and `n` ticks, and `k` calls were counted.
pub record Directed {W : Type 0} (host : Host) (n k : ℕ) (e after : Engine W) : Type 0 where
  pub incident_events : List IncidentExecute.Event
  pub release_events : List ReleaseExecute.Event
  pub incident_ticks : count is_incident_tick incident_events ≡ n
  pub release_ticks : count is_release_tick release_events ≡ n
  pub counted : after.tool_calls ≡ k + e.tool_calls
  pub incident_runs : after.incident ≡ mapped (IncidentExecute.run host incident_events) e.incident
  pub release_runs : after.release ≡ mapped (ReleaseExecute.run host release_events) e.release

module _ {W : Type 0} (host : Host) where
  pub untouched :
      (e after : Engine W)
      → after.incident ≡ e.incident
      → after.release ≡ e.release
      → after.tool_calls ≡ e.tool_calls
      → Directed host 0 0 e after
  unfolding IncidentExecute.run ReleaseExecute.run
  untouched e after i r c = record {
    incident_events = [];
    release_events = [];
    incident_ticks = refl;
    release_ticks = refl;
    counted = omega (arith, c);
    incident_runs = i ∙ mapped-same (IncidentExecute.run host []) e.incident (λ a. refl);
    release_runs = r ∙ mapped-same (ReleaseExecute.run host []) e.release (λ a. refl);
  }

  pub recount :
      {m n j k : ℕ} {e f : Engine W} → m ≡ n → j ≡ k → Directed host m j e f → Directed host n k e f
  recount p q a = record {
    incident_events = a.incident_events;
    release_events = a.release_events;
    incident_ticks = a.incident_ticks ∙ p;
    release_ticks = a.release_ticks ∙ p;
    counted = omega (arith, a.counted, q);
    incident_runs = a.incident_runs;
    release_runs = a.release_runs;
  }

  pub then-Directed :
      (m n j k : ℕ) {e f g : Engine W}
      → Directed host m j e f
      → Directed host n k f g
      → Directed host (m + n) (k + j) e g
  then-Directed m n j k {e} {f} {g} a b = record {
    incident_events = a.incident_events ++ b.incident_events;
    release_events = a.release_events ++ b.release_events;
    incident_ticks = omega (
      arith,
      count-append is_incident_tick a.incident_events b.incident_events,
      a.incident_ticks,
      b.incident_ticks,
    );
    release_ticks = omega (
      arith,
      count-append is_release_tick a.release_events b.release_events,
      a.release_ticks,
      b.release_ticks,
    );
    counted = omega (arith, a.counted, b.counted);
    incident_runs =
        b.incident_runs
        ∙ ap (mapped (IncidentExecute.run host b.incident_events)) a.incident_runs
        ∙ mapped-compose _ _ _ e.incident
            (incident_run-append host a.incident_events b.incident_events);
    release_runs =
        b.release_runs
        ∙ ap (mapped (ReleaseExecute.run host b.release_events)) a.release_runs
        ∙ mapped-compose _ _ _ e.release
            (release_run-append host a.release_events b.release_events);
  }
