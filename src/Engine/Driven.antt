-- ===== src/Engine/Driven.antt =====
-- The engine's steps against the directors' own runs (apps/api/app/runner/engine.py).
use the_evil_repository.Prelude.{
  Bool, String, [], arith, if_rule, lookup, option_rule, refl, str_eq, ℕ, ◌∙◌, ◌∷◌, ◌≡◌,
}
use the_evil_repository.Protocol.{Host, ToolCall, ToolResult}
use the_evil_repository.Investigation.Store.{Attempt, stored, value_error}
use the_evil_repository.Engine.State.{Config, Engine, Outcome, Outside, answered, raised}
use the_evil_repository.Engine.Sandboxed.{
  after_sandbox, count_access, guard, use_browser, use_sandbox,
}
use the_evil_repository.Engine.Handlers.{
  bound_call, commit, evidence_call, hypothesis_call, incident_call, incident_context, link_call,
  next_action_call, release_call, release_keys,
}
use the_evil_repository.Engine.Directed.{Directed, mapped-same, then-Directed, untouched}
use the_evil_repository.Faults.Controller.{before}
use the_evil_repository.Engine.Execute.{
  Route, dispatch, execute, route, to_browser, to_evidence, to_hypothesis, to_incident, to_link,
  to_next_action, to_nothing, to_release, to_sandbox, with_fault,
}
use the_evil_repository.Incident.Execute as IncidentExecute
use the_evil_repository.Release.Execute as ReleaseExecute

module _ {W : Type 0} (outside : Outside W) (config : Config) where
  abbrev host : Host
  host = config.tools.host

  -- A change of the other fields.
  pub refit :
      (n k : ℕ) {e f : Engine W} (g : Engine W)
      → Directed host n k e f
      → g.incident ≡ f.incident
      → g.release ≡ f.release
      → g.tool_calls ≡ f.tool_calls
      → Directed host n k e g
  refit n k {e} {f} g a i r c = record {
    incident_events = a.incident_events;
    release_events = a.release_events;
    incident_ticks = a.incident_ticks;
    release_ticks = a.release_ticks;
    counted = c ∙ a.counted;
    incident_runs = i ∙ a.incident_runs;
    release_runs = r ∙ a.release_runs;
  }

  count_access-Directed :
      (e : Engine W) (call : ToolCall) (r : ToolResult)
      → Directed host 0 0 e (count_access e call r).0
  unfolding count_access
  count_access-Directed e call r =
      if_rule (λ (x : Engine W × Outcome). Directed host 0 0 e x.0) (str_eq call.name "read_file")
        (λ p. untouched host e _ refl refl refl)
        (λ p.
          if_rule (λ (x : Engine W × Outcome). Directed host 0 0 e x.0)
            (str_eq call.name "write_file") (λ q. untouched host e _ refl refl refl)
            (λ q. untouched host e _ refl refl refl))

  after_sandbox-Directed :
      (e : Engine W) (call : ToolCall) (o : Outcome)
      → Directed host 0 0 e (after_sandbox e call o).0
  unfolding after_sandbox
  after_sandbox-Directed e call (answered r) = count_access-Directed e call r
  after_sandbox-Directed e call (raised reason) = untouched host e e refl refl refl

  use_sandbox-Directed :
      (e : Engine W) (call : ToolCall) → Directed host 0 0 e (use_sandbox outside config e call).0
  unfolding use_sandbox
  use_sandbox-Directed e call =
      option_rule (λ (x : Engine W × Outcome). Directed host 0 0 e x.0) (guard config call)
        (λ p.
          let made = outside.sandbox e.world call in
          let moved : Engine W = record e { world = made.0 } in
          then-Directed host 0 0 0 0 (untouched host e moved refl refl refl)
            (after_sandbox-Directed moved call made.1))
        (λ r p. untouched host e e refl refl refl)

  commit-Directed :
      (e : Engine W) (call : ToolCall) (line : String) (a : Attempt)
      → Directed host 0 0 e (commit e call line a).0
  unfolding commit
  commit-Directed e call line (stored s) = untouched host e _ refl refl refl
  commit-Directed e call line (value_error reason) = untouched host e _ refl refl refl

  incident_call-Directed :
      (e : Engine W) (call : ToolCall) → Directed host 0 0 e (incident_call outside config e call).0
  unfolding incident_call IncidentExecute.run IncidentExecute.step ReleaseExecute.run
  incident_call-Directed e call =
      option_rule (λ (x : Engine W × Outcome). Directed host 0 0 e x.0) e.incident
        (λ p. untouched host e e refl refl refl)
        (λ d found. record {
          incident_events = IncidentExecute.called call (incident_context outside e call) ∷ [];
          release_events = [];
          incident_ticks = refl;
          release_ticks = refl;
          counted = omega arith;
          incident_runs = rw found refl;
          release_runs = mapped-same _ e.release (λ a. refl);
        })

  release_call-Directed :
      (e : Engine W) (call : ToolCall) → Directed host 0 0 e (release_call config e call).0
  unfolding release_call IncidentExecute.run ReleaseExecute.run ReleaseExecute.step
  release_call-Directed e call =
      option_rule (λ (x : Engine W × Outcome). Directed host 0 0 e x.0) e.release
        (λ p. untouched host e e refl refl refl)
        (λ d found. record {
          incident_events = [];
          release_events = ReleaseExecute.called call (release_keys e call) ∷ [];
          incident_ticks = refl;
          release_ticks = refl;
          counted = omega arith;
          incident_runs = mapped-same _ e.incident (λ a. refl);
          release_runs = rw found refl;
        })

  next_action_call-Directed :
      (e : Engine W) (call : ToolCall) → Directed host 0 0 e (next_action_call e call).0
  unfolding next_action_call
  next_action_call-Directed e call =
      let leads = λ (x : Engine W × Outcome). Directed host 0 0 e x.0 in
      option_rule leads (lookup "hypothesis_key" call.arguments)
        (λ p. untouched host e e refl refl refl)
        (λ key p.
          option_rule leads (lookup key e.store.hypotheses) (λ q. untouched host e e refl refl refl)
            (λ h q.
              option_rule leads (lookup "next_action" call.arguments)
                (λ r. untouched host e e refl refl refl) (λ next r. commit-Directed e call _ _)))

  bound_call-Directed :
      (e : Engine W) (call : ToolCall) (bound : Bool) (line : String) (a : Attempt)
      → Directed host 0 0 e (bound_call outside e call bound line a).0
  unfolding bound_call
  bound_call-Directed e call bound line a =
      if_rule (λ (x : Engine W × Outcome). Directed host 0 0 e x.0) bound
        (λ p. commit-Directed e call line a) (λ p. untouched host e e refl refl refl)

  dispatch-Directed :
      (r : Route) (e : Engine W) (call : ToolCall)
      → Directed host 0 0 e (dispatch outside config r e call).0
  unfolding dispatch use_browser hypothesis_call evidence_call link_call
  dispatch-Directed to_sandbox e call = use_sandbox-Directed e call
  dispatch-Directed to_browser e call = untouched host e _ refl refl refl
  dispatch-Directed to_hypothesis e call = bound_call-Directed e call _ _ _
  dispatch-Directed to_evidence e call = bound_call-Directed e call _ _ _
  dispatch-Directed to_link e call = bound_call-Directed e call _ _ _
  dispatch-Directed to_next_action e call = next_action_call-Directed e call
  dispatch-Directed to_incident e call = incident_call-Directed e call
  dispatch-Directed to_release e call = release_call-Directed e call
  dispatch-Directed to_nothing e call = untouched host e e refl refl refl

  -- A call makes no tick.
  pub execute-Directed :
      (e : Engine W) (call : ToolCall) → Directed host 0 0 e (execute outside config e call).0
  unfolding execute with_fault
  execute-Directed e call =
      let waiting : Engine W = record e { faults = (before config.tools e.faults call).0 } in
      option_rule (λ (x : Engine W × ToolResult). Directed host 0 0 e x.0)
        (before config.tools e.faults call).1
        (λ p.
          refit 0 0 _
            (then-Directed host 0 0 0 0 (untouched host e waiting refl refl refl)
              (dispatch-Directed (route call.name) waiting call))
            refl refl refl)
        (λ r p. untouched host e waiting refl refl refl)
