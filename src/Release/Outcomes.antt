-- ===== src/Release/Outcomes.antt =====
-- Every call of the release director makes one of its transitions, or is refused and changes
-- nothing
-- (apps/api/app/scenario/release.py).
use the_evil_repository.Prelude.{
  List, String, [], arith, denies, has_key, holds, if_rule, length, ltb, not, option_rule, refl,
  some, ◌∷◌, ◌≡◌,
}
use the_evil_repository.Protocol.{Host, ToolCall, cited_keys, within_unit}
use the_evil_repository.Release.State.{Director}
use the_evil_repository.Release.Clock.{error_result, json_result, status}
use the_evil_repository.Release.Inspect.{provenance_query}
use the_evil_repository.Release.Verify.{find_mode, verify}
use the_evil_repository.Release.Admission.{CanDecide, CanVerify, lowered, queries, stripped}
use the_evil_repository.Release.Execute.{
  Event, Handler, action_handler, attestation_handler, called, decide, decision_handler, execute,
  find_handler, handle, provenance_handler, registry_handler, run, runtime_handler,
  snapshot_handler, status_handler, step, ticked, verify_handler,
}
use the_evil_repository.Release.Handled.{
  Handled, asked, attestation-Handled, made, observation-Handled, reads, refused, registry-Handled,
  runtime-Handled, snapshot-Handled, unknown,
}
use the_evil_repository.Release.Transitions.{Transition, decides, idle, ticks, verifies}
use the_evil_repository.Release.Acting.{act-Handled}

module _ (host : Host) (d : Director) (call : ToolCall) (known : List String) where
  verify-Handled :
      find_handler call.name ≡ some verify_handler → Handled host d call known (verify host d call)
  unfolding verify json_result
  verify-Handled found =
      option_rule (Handled host d call known) (find_mode (lowered host call "mode"))
        (λ lost. refused host d call known _ found (λ g. (let named = g.named in cc)))
        λ mode named.
          let g : CanVerify host call = record { mode = mode; named = named } in
          made host d call known found g
            (verifies mode
              (record { request = asked host d call known found g; handled = refl; named = named }))
            refl refl

  decide-Handled :
      find_handler call.name ≡ some decision_handler
      → Handled host d call known (decide host d call known)
  unfolding decide json_result
  decide-Handled found =
      if_rule (Handled host d call known) (not (has_key (stripped call "ticket_id") d.plan.tickets))
        (λ p. refused host d call known _ found (λ g. denies g.ticket p))
        λ present.
          if_rule (Handled host d call known) (not (within_unit call.confidence))
            (λ p. refused host d call known _ found (λ g. denies g.confidence p))
            λ sure.
              if_rule (Handled host d call known) (ltb (length (cited_keys call)) 2)
                (λ p.
                  refused host d call known _ found
                    (λ g. (let two = g.evidence in ground (arith, two, p))))
                λ cited.
                  let g : CanDecide d call = record {
                    ticket = holds present;
                    confidence = holds sure;
                    evidence = ground (arith, cited);
                  } in
                  made host d call known found g
                    (decides host call known _ g.ticket (record {
                      request = asked host d call known found g;
                      handled = refl;
                      same_host = refl;
                      same_call = refl;
                      same_evidence = refl;
                      named = refl;
                    }))
                    refl refl

  handle-Handled :
      (h : Handler)
      → find_handler call.name ≡ some h
      → Handled host d call known (handle host h d call known)
  unfolding handle status json_result provenance_query
  handle-Handled status_handler found = record {
    moves = idle;
    answer = reads found;
    fails = λ e. absurd (ground arith);
    raises = λ e. absurd (ground arith);
  }
  handle-Handled registry_handler found = registry-Handled host d call known found
  handle-Handled provenance_handler found =
      observation-Handled host d call known found tt _ _ _ (queries refl refl refl)
  handle-Handled attestation_handler found = attestation-Handled host d call known found
  handle-Handled runtime_handler found = runtime-Handled host d call known found
  handle-Handled snapshot_handler found = snapshot-Handled host d call known found
  handle-Handled action_handler found = act-Handled host d call known found
  handle-Handled verify_handler found = verify-Handled found
  handle-Handled decision_handler found = decide-Handled found

pub execute-Handled :
    (host : Host) (d : Director) (call : ToolCall) (known : List String)
    → Handled host d call known (execute host d call known)
unfolding execute error_result
execute-Handled host d call known =
    option_rule (Handled host d call known) (find_handler call.name)
      (λ lost. record {
        moves = idle;
        answer = unknown lost;
        fails = λ _. refl;
        raises = λ e. absurd (ground arith);
      })
      λ h found. handle-Handled host d call known h found

step-Transition : (host : Host) (e : Event) (d : Director) → Transition d (step host e d)
unfolding step
step-Transition host (called call known) d = (execute-Handled host d call known).moves
step-Transition host ticked d = ticks

-- What the transitions keep holds at the end of every run.
pub run_rule {ℓ} :
    (P : Director → Type ℓ)
    → ((d e : Director) → Transition d e → P d → P e)
    → (host : Host) (events : List Event) (d : Director) → P d
    → P (run host events d)
unfolding run
run_rule P keeps host [] d h = h
run_rule P keeps host (e ∷ events) d h =
    run_rule P keeps host events (step host e d) (keeps d _ (step-Transition host e d) h)
