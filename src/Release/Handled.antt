-- ===== src/Release/Handled.antt =====
-- Where a call of the release director leads, and the handlers that read or take a snapshot
-- (apps/api/app/scenario/release.py).
use the_evil_repository.Prelude.{
  Bool, List, String, String-comparable, arith, contains, denies, false, has_key, holds, if_rule,
  is_empty, is_some_lem, lookup, no_some, none, not, not_absent, option_rule, refl, some, str_eq,
  true, ◌==◌, ◌||◌, ◌≡◌,
}
use the_evil_repository.Protocol.{Fields, Host, ToolCall, is_error}
use the_evil_repository.Release.State.{Director}
use the_evil_repository.Release.Clock.{error_result, json_result, status}
use the_evil_repository.Release.Attest.{attestation_policies, attestation_verify}
use the_evil_repository.Release.Probe.{
  runtime_probe, runtime_signals, runtime_windows, window_digest,
}
use the_evil_repository.Release.Inspect.{
  Reply, failed, key_error, observation_result, registry_inspect, registry_views, replied, resolve,
}
use the_evil_repository.Release.Snapshot.{snapshot}
use the_evil_repository.Release.Execute.{
  Handler, attestation_handler, find_handler, registry_handler, runtime_handler, snapshot_handler,
  status_handler,
}
use the_evil_repository.Release.Admission.{
  Admits, CanAttest, CanProbe, CanSnapshot, ReadBy, Request, attests, inspects, lowered, probes,
  stripped, target_of, window_of,
}
use the_evil_repository.Release.Transitions.{Transition, captures, idle, observes, request_of}

abbrev pub is_failure : Reply → Bool
is_failure (replied r) = is_error r.status
is_failure (key_error key) = true

abbrev pub is_raised : Reply → Bool
is_raised (replied r) = false
is_raised (key_error key) = true

-- What a call may look up in vain: the verifier version of a policy, or the artifact of a window.
pub data Missing (d : Director) : Type 0 where
  version :
      (policy : String)
      → contains policy attestation_policies ≡ true
      → lookup policy d.plan.verifier_versions ≡ none
      → Missing d
  window_artifact :
      (window : String) → lookup (window_digest d window) d.artifacts ≡ none → Missing d

raised_fails : (r : Reply) → is_raised r ≡ true → is_failure r ≡ false → ⊥
raised_fails (replied x) e k = ground arith
raised_fails (key_error key) e k = ground arith

-- A reference is resolved to a known artifact.
pub resolve_known :
    (d : Director) (reference : String) {digest : String}
    → resolve d reference ≡ some digest
    → has_key digest d.artifacts ≡ true
unfolding resolve
resolve_known d reference {digest} h = ground arith

module _ (host : Host) (d : Director) (call : ToolCall) (known : List String) where
  -- How a call is answered beside the transition: an operation that is not in the table and a
  -- status change nothing; an error is given exactly if the guards of the handler do not let the
  -- call through; and if they do, a key is missing or the transition comes from this call.
  pub data Answer : (e : Director) → Transition d e → Reply → Type 0 where
    unknown :
        find_handler call.name ≡ none
        → Answer d idle (replied (error_result call "Unknown release-control operation."))
    reads : find_handler call.name ≡ some status_handler → Answer d idle (replied (status d call))
    refuses :
        {h : Handler} {r : Reply}
        → find_handler call.name ≡ some h
        → ¬ Admits host d call h
        → is_failure r ≡ true
        → is_raised r ≡ false
        → Answer d idle r
    lacks :
        {h : Handler} {key : String}
        → find_handler call.name ≡ some h
        → Admits host d call h
        → Missing d
        → Answer d idle (key_error key)
    makes :
        {e : Director} {t : Transition d e} {r : Reply} (q : Request d)
        → request_of t ≡ some q
        → (q.host ≡ host) × (q.call ≡ call) × (q.known ≡ known)
        → is_failure r ≡ false
        → Answer e t r

  -- Where a call leads: to a state that a transition reaches, and to the old state on a failure.
  -- An exception has a cause.
  pub record Handled (r : Director × Reply) : Type 0 where
    pub moves : Transition d r.0
    pub answer : Answer r.0 moves r.1
    pub fails : is_failure r.1 ≡ true → r.0 ≡ d
    pub raises : is_raised r.1 ≡ true → Missing d

  pub refused :
      {h : Handler} (reason : String)
      → find_handler call.name ≡ some h
      → ¬ Admits host d call h
      → Handled (failed d call reason)
  unfolding error_result
  refused reason found shut = record {
    moves = idle;
    answer = refuses found shut refl refl;
    fails = λ _. refl;
    raises = λ e. absurd (ground arith);
  }

  pub raised :
      {h : Handler} (key : String)
      → find_handler call.name ≡ some h
      → Admits host d call h
      → Missing d
      → Handled (d, key_error key)
  raised key found admitted missing = record {
    moves = idle;
    answer = lacks found admitted missing;
    fails = λ _. refl;
    raises = λ _. missing;
  }

  abbrev pub asked :
      {h : Handler} → find_handler call.name ≡ some h → Admits host d call h → Request d
  asked {h} found admitted = record {
    host = host;
    call = call;
    known = known;
    handler = h;
    found = found;
    admitted = admitted;
  }

  pub made :
      {h : Handler} (found : find_handler call.name ≡ some h) (admitted : Admits host d call h)
      {after : Director} {r : Reply} (t : Transition d after)
      → request_of t ≡ some (asked found admitted)
      → is_failure r ≡ false
      → Handled (after, r)
  made found admitted {r = r} t same right = record {
    moves = t;
    answer = makes (asked found admitted) same (refl, refl, refl) right;
    fails = λ e. absurd (ground arith);
    raises = λ e. absurd (raised_fails r e right);
  }

  pub observation-Handled :
      {h : Handler} (found : find_handler call.name ≡ some h) (admitted : Admits host d call h)
      (kind key : String) (payload : Fields)
      → ReadBy d (asked found admitted) kind key
      → Handled (observation_result d call kind key payload)
  unfolding observation_result json_result
  observation-Handled found admitted kind key payload by =
      made found admitted (observes kind key (record { request = asked found admitted; read = by }))
        refl refl

  pub registry-Handled :
      find_handler call.name ≡ some registry_handler → Handled (registry_inspect host d call)
  unfolding registry_inspect
  registry-Handled found =
      if_rule Handled (not (contains (lowered host call "view") registry_views))
        (λ p. refused _ found (λ g. denies g.view p))
        λ view.
          option_rule Handled (resolve d (stripped call "reference"))
            (λ lost. refused _ found (λ g. no_some lost g.reference))
            λ digest is.
              option_rule Handled (lookup digest d.artifacts)
                (λ lost. absurd (not_absent digest d.artifacts (resolve_known d _ is) lost))
                λ a _.
                  observation-Handled found
                    (record { view = holds view; reference = is_some_lem is }) _ _ _
                    (inspects refl refl refl)

  pub attestation-Handled :
      find_handler call.name ≡ some attestation_handler → Handled (attestation_verify host d call)
  unfolding attestation_verify
  attestation-Handled found =
      let name : String = lowered host call "policy" in
      if_rule Handled (not (contains name attestation_policies))
        (λ p. refused _ found (λ g. denies g.policy p))
        λ p.
          option_rule Handled (resolve d (stripped call "digest"))
            (λ lost. refused _ found (λ g. no_some lost g.artifact))
            λ digest is.
              let g : CanAttest host d call = record {
                policy = holds p;
                artifact = is_some_lem is;
              } in
              option_rule Handled (lookup digest d.artifacts)
                (λ lost. absurd (not_absent digest d.artifacts (resolve_known d _ is) lost))
                λ a _.
                  option_rule Handled (lookup name d.plan.verifier_versions)
                    (λ lost. raised name found g (version name g.policy lost))
                    λ v _. observation-Handled found g _ _ _ (attests digest refl is refl refl)

  pub runtime-Handled :
      find_handler call.name ≡ some runtime_handler → Handled (runtime_probe host d call)
  unfolding runtime_probe
  runtime-Handled found =
      if_rule Handled (not (contains (lowered host call "signal") runtime_signals))
        (λ p. refused _ found (λ g. denies g.signal p))
        λ signal.
          if_rule Handled (not (contains (window_of host call) runtime_windows))
            (λ p. refused _ found (λ g. denies g.window p))
            λ window.
              if_rule Handled (not (str_eq (target_of call) "production"))
                (λ p. refused _ found (λ g. denies g.target p))
                λ target.
                  let g : CanProbe host call = record {
                    signal = holds signal;
                    window = holds window;
                    target = holds target;
                  } in
                  option_rule Handled (lookup (window_digest d (window_of host call)) d.artifacts)
                    (λ lost. raised _ found g (window_artifact _ lost))
                    λ a _. observation-Handled found g _ _ _ (probes refl refl refl)

  pub snapshot-Handled :
      find_handler call.name ≡ some snapshot_handler → Handled (snapshot host d call)
  unfolding snapshot json_result
  snapshot-Handled found =
      let scope : String = stripped call "scope" in
      let reason : String = stripped call "reason" in
      if_rule Handled (d.snapshot_budget == 0)
        (λ p. refused _ found (λ g. (let left = g.left in ground arith)))
        λ some_left.
          if_rule Handled (is_empty scope || is_empty reason)
            (λ p. refused _ found (λ g. ground (arith, g.scope, g.reason, p)))
            λ given.
              let g : CanSnapshot d call = record {
                left = ground arith;
                scope = ground arith;
                reason = ground arith;
              } in
              made found g
                (captures _ g.left
                  (record { request = asked found g; handled = refl; numbered = refl }))
                refl refl
