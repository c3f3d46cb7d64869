-- ===== src/Incident/Handled.antt =====
-- Where a call of the director leads, and the handlers that read or take a snapshot
-- (apps/api/app/scenario/incident.py).
use the_evil_repository.Prelude.{
  Dict, String, String-comparable, arith, contains, denies, false, has_key, holds, if_rule, inl,
  inr, is_empty, lookup, none, not, not_absent, option_rule, refl, some, strip, true, ◌==◌, ◌||◌,
  ◌≡◌,
}
use the_evil_repository.Protocol.{Host, ToolCall, ToolResult, argument, error, is_error}
use the_evil_repository.Incident.State.{Director}
use the_evil_repository.Incident.Observe.{
  error_result, json_result, observation_signals, observation_windows, observe, status,
}
use the_evil_repository.Incident.Snapshots.{snapshot}
use the_evil_repository.Incident.Execute.{
  Context, Handler, find_handler, observability_handler, observe_handler, snapshot_handler,
  status_handler, unknown_operation,
}
use the_evil_repository.Incident.Admission.{
  Admits, CanObserve, CanProbe, CanSnapshot, Request, service_of, signal_of, window_of,
}
use the_evil_repository.Incident.Probes.{observability}
use the_evil_repository.Incident.Relation.{Transition, captures, idle, observes, request_of}

listed : {V : Type 0} (k : String) (d : Dict V) {v : V} → lookup k d ≡ some v → has_key k d ≡ true
listed k d h = rw h refl

module _ (host : Host) (d : Director) (call : ToolCall) (context : Context) where
  -- How a call is answered beside the transition: an operation that is not in the table and a
  -- status change nothing; an error is given exactly if the guards of the handler do not let the
  -- call through; and if they do, the transition comes from this call.
  pub data Answer : (e : Director) → Transition d e → ToolResult → Type 0 where
    unknown : find_handler call.name ≡ none → Answer d idle (unknown_operation call)
    reads : find_handler call.name ≡ some status_handler → Answer d idle (status d call)
    refuses :
        {h : Handler} {r : ToolResult}
        → find_handler call.name ≡ some h
        → ¬ Admits host d call h
        → is_error r.status ≡ true
        → Answer d idle r
    makes :
        {e : Director} {t : Transition d e} {r : ToolResult} (q : Request d)
        → request_of t ≡ some q
        → (q.host ≡ host) × (q.call ≡ call) × (q.context ≡ context)
        → is_error r.status ≡ false
        → Answer e t r

  -- Where a call leads: to a state that a transition reaches, and to the old state on an error.
  pub record Outcome (r : Director × ToolResult) : Type 0 where
    pub moves : Transition d r.0
    pub answer : Answer r.0 moves r.1
    pub fails : r.1.status ≡ error → r.0 ≡ d

  pub refused :
      {h : Handler} (reason : String)
      → find_handler call.name ≡ some h
      → ¬ Admits host d call h
      → Outcome (d, error_result call reason)
  unfolding error_result
  refused reason found shut = record {
    moves = idle;
    answer = refuses found shut refl;
    fails = λ _. refl;
  }

  abbrev pub asked :
      {h : Handler} → find_handler call.name ≡ some h → Admits host d call h → Request d
  asked {h} found admitted = record {
    host = host;
    call = call;
    context = context;
    handler = h;
    found = found;
    admitted = admitted;
  }

  pub made :
      {h : Handler} (found : find_handler call.name ≡ some h) (admitted : Admits host d call h)
      {after : Director} {r : ToolResult} (t : Transition d after)
      → request_of t ≡ some (asked found admitted)
      → is_error r.status ≡ false
      → Outcome (after, r)
  made found admitted t same right = record {
    moves = t;
    answer = makes (asked found admitted) same (refl, refl, refl) right;
    fails = λ e. absurd (ground arith);
  }

  pub observe-Outcome :
      find_handler call.name ≡ some observe_handler → Outcome (observe host d call)
  unfolding observe json_result
  observe-Outcome found =
      option_rule Outcome (lookup (service_of call) d.plan.services)
        (λ lost. refused _ found (λ g. not_absent _ d.plan.services g.service lost))
        λ spec present.
          if_rule Outcome (not (contains (signal_of host call) observation_signals))
            (λ p. refused _ found (λ g. denies g.signal p))
            λ signal.
              if_rule Outcome (not (contains (window_of host call) observation_windows))
                (λ p. refused _ found (λ g. denies g.window p))
                λ window.
                  let g : CanObserve host d call = record {
                    service = listed _ d.plan.services present;
                    signal = holds signal;
                    window = holds window;
                  } in
                  made found g
                    (observes _ _ _ (record {
                      request = asked found g;
                      named = refl;
                      read = inl (refl, refl);
                      over = refl;
                    }))
                    refl refl

  pub observability-Outcome :
      find_handler call.name ≡ some observability_handler → Outcome (observability host d call)
  unfolding observability json_result
  observability-Outcome found =
      option_rule Outcome (lookup (service_of call) d.plan.services)
        (λ lost. refused _ found (λ g. not_absent _ d.plan.services g.service lost))
        λ spec present.
          if_rule Outcome (not (contains (window_of host call) observation_windows))
            (λ p. refused _ found (λ g. denies g.window p))
            λ window.
              let g : CanProbe host d call = record {
                service = listed _ d.plan.services present;
                window = holds window;
              } in
              made found g
                (observes _ _ _ (record {
                  request = asked found g;
                  named = refl;
                  read = inr (refl, refl);
                  over = refl;
                }))
                refl refl

  pub snapshot-Outcome :
      find_handler call.name ≡ some snapshot_handler → Outcome (snapshot host d call)
  unfolding snapshot json_result
  snapshot-Outcome found =
      let scope = strip (argument call "scope" "") in
      let reason = strip (argument call "reason" "") in
      if_rule Outcome (d.snapshot_budget == 0)
        (λ p. refused _ found (λ g. (let left = g.left in ground arith)))
        λ some_left.
          if_rule Outcome (is_empty scope || is_empty reason)
            (λ p. refused _ found (λ g. ground (arith, g.scope, g.reason, p)))
            λ given.
              let g : CanSnapshot d call = record {
                left = ground arith;
                scope = ground arith;
                reason = ground arith;
              } in
              made found g
                (captures _ g.left
                  (record { request = asked found g; handled = refl; numbered = refl }))
                refl refl
