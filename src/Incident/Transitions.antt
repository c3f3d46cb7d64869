-- ===== src/Incident/Transitions.antt =====
-- Every call of the director makes one of its transitions, or is refused and changes nothing
-- (apps/api/app/scenario/incident.py).
use the_evil_repository.Prelude.{
  List, Option, [], arith, denies, false, has_key, holds, if_rule, if◌then◌else◌, length, lookup,
  ltb, not, option_rule, refl, same_some, some, strip, subst, true, ◌&&◌, ◌==◌, ◌∷◌, ◌≡◌,
}
use the_evil_repository.Protocol.{
  Host, ToolCall, ToolResult, argument, cited_keys, is_error, within_unit,
}
use the_evil_repository.Incident.State.{Action, ActionRecord, Director}
use the_evil_repository.Incident.Observe.{json_result, status}
use the_evil_repository.Incident.Rollback.{roll_back}
use the_evil_repository.Incident.Actions.{
  accepted_result, act, action_record, denied_result, find_action, policy,
}
use the_evil_repository.Incident.Verify.{find_mode, verification_result, verify}
use the_evil_repository.Incident.Execute.{
  Context, Event, Handler, action_handler, called, decide, decision_handler, decision_result,
  execute, find_handler, handle, observability_handler, observe_handler, rollback_handler, run,
  snapshot_handler, status_handler, step, ticked, unknown_operation, verify_handler,
}
use the_evil_repository.Incident.Admission.{CanAct, CanDecide, CanRollBack, CanVerify}
use the_evil_repository.Incident.Relation.{
  Transition, decides, idle, performs, restores, ticks, verifies,
}
use the_evil_repository.Incident.Handled.{
  Outcome, asked, made, observability-Outcome, observe-Outcome, reads, refused, snapshot-Outcome,
  unknown,
}

-- The answer to an action that was carried out is no error.
act_answer :
    (d : Director) (call : ToolCall) (action : Action) (entry : ActionRecord)
    → is_error
        (if entry.denied
          then denied_result d call action
          else accepted_result d call action entry).status
      ≡ false
unfolding denied_result accepted_result json_result
act_answer d call action entry =
    if_rule (λ (r : ToolResult). is_error r.status ≡ false) entry.denied (λ _. refl) (λ _. refl)

spent :
    (d : Director) {o : Option Action} {a b : Action}
    → o ≡ some a
    → o ≡ some b
    → ((policy a).irreversible && d.irreversible_used) ≡ true
    → ((policy b).irreversible && d.irreversible_used) ≡ false
    → ⊥
spent d {a = a} x y used free =
    let still =
      subst (λ c. ((policy c).irreversible && d.irreversible_used) ≡ true) (same_some x y) used in
    ground (arith, still, free)

module _ (host : Host) (d : Director) (call : ToolCall) (context : Context) where
  act-Outcome :
      find_handler call.name ≡ some action_handler
      → Outcome host d call context (act host d call context.known_evidence_keys)
  unfolding act action_record
  act-Outcome found =
      if_rule (Outcome host d call context) (d.action_budget == 0)
        (λ p. refused host d call context _ found (λ g. (let left = g.left in ground arith)))
        λ some_left.
          option_rule (Outcome host d call context)
            (find_action (host.casefold (strip (argument call "action" ""))))
            (λ lost. refused host d call context _ found (λ g. (let named = g.named in cc)))
            λ action named.
              if_rule (Outcome host d call context)
                ((policy action).irreversible && d.irreversible_used)
                (λ p. refused host d call context _ found (λ g. spent d named g.named p g.free))
                λ free.
                  let g : CanAct host d call = record {
                    action = action;
                    left = ground arith;
                    named = named;
                    free = free;
                  } in
                  made host d call context found g
                    (performs call _ action g.left free (record {
                      request = asked host d call context found g;
                      handled = refl;
                      same_call = refl;
                      same_evidence = refl;
                      named = named;
                    }))
                    refl (act_answer _ call action _)

  roll_back-Outcome :
      find_handler call.name ≡ some rollback_handler
      → Outcome host d call context (roll_back d call)
  unfolding roll_back json_result
  roll_back-Outcome found =
      option_rule (Outcome host d call context)
        (lookup (strip (argument call "snapshot_id" "")) d.snapshots)
        (λ lost. refused host d call context _ found (λ g. (let there_is = g.found in cc)))
        λ s present.
          let g : CanRollBack d call = record { stored = s; found = present } in
          made host d call context found g
            (restores _ _ s present (record {
              request = asked host d call context found g;
              handled = refl;
              named = refl;
              given = refl;
            }))
            refl refl

  verify-Outcome :
      find_handler call.name ≡ some verify_handler
      → Outcome host d call context (verify host d call context.patch_valid context.scope_valid)
  unfolding verify verification_result json_result
  verify-Outcome found =
      option_rule (Outcome host d call context)
        (find_mode (host.casefold (strip (argument call "mode" ""))))
        (λ lost. refused host d call context _ found (λ g. (let named = g.named in cc)))
        λ mode named.
          let g : CanVerify host call = record { mode = mode; named = named } in
          made host d call context found g
            (verifies mode _ _ (record {
              request = asked host d call context found g;
              handled = refl;
              named = named;
              patch = refl;
              scope = refl;
            }))
            refl refl

  decide-Outcome :
      find_handler call.name ≡ some decision_handler
      → Outcome host d call context (decide host d call context.known_evidence_keys)
  unfolding decide decision_result json_result
  decide-Outcome found =
      if_rule (Outcome host d call context)
        (not (has_key (strip (argument call "ticket_id" "")) d.plan.tickets))
        (λ p. refused host d call context _ found (λ g. denies g.ticket p))
        λ present.
          if_rule (Outcome host d call context) (not (within_unit call.confidence))
            (λ p. refused host d call context _ found (λ g. denies g.confidence p))
            λ sure.
              if_rule (Outcome host d call context) (ltb (length (cited_keys call)) 2)
                (λ p.
                  refused host d call context _ found
                    (λ g. (let two = g.evidence in ground (arith, two, p))))
                λ cited.
                  let g : CanDecide d call = record {
                    ticket = holds present;
                    confidence = holds sure;
                    evidence = ground (arith, cited);
                  } in
                  made host d call context found g
                    (decides host call _ _ g.ticket (record {
                      request = asked host d call context found g;
                      handled = refl;
                      same_host = refl;
                      same_call = refl;
                      same_evidence = refl;
                      named = refl;
                    }))
                    refl refl

  handle-Outcome :
      (h : Handler)
      → find_handler call.name ≡ some h
      → Outcome host d call context (handle host h d call context)
  unfolding handle status json_result
  handle-Outcome status_handler found = record {
    moves = idle;
    answer = reads found;
    fails = λ e. absurd (ground arith);
  }
  handle-Outcome observe_handler found = observe-Outcome host d call context found
  handle-Outcome observability_handler found = observability-Outcome host d call context found
  handle-Outcome snapshot_handler found = snapshot-Outcome host d call context found
  handle-Outcome action_handler found = act-Outcome found
  handle-Outcome rollback_handler found = roll_back-Outcome found
  handle-Outcome verify_handler found = verify-Outcome found
  handle-Outcome decision_handler found = decide-Outcome found

-- Every call is answered in one of four ways. An operation that is not in the table, and a status,
-- change nothing. If the guards of the call's handler fail, the call gets an error and changes
-- nothing. If they hold, it gets no error and makes the transition of its handler, with the values
-- that it names. The guards ask for a known service and window, and for `observe_service` a known
-- signal; for a snapshot, some budget, a scope and a reason; for an action, some budget, a known
-- name and, if it is irreversible, the token; for a rollback, a stored snapshot; for a
-- verification, a known mode; and for a decision, a known ticket, a confidence from 0 to 1 and two
-- evidence keys.
pub execute-Outcome :
    (host : Host) (d : Director) (call : ToolCall) (context : Context)
    → Outcome host d call context (execute host d call context)
unfolding execute unknown_operation
execute-Outcome host d call context =
    option_rule (Outcome host d call context) (find_handler call.name)
      (λ lost. record { moves = idle; answer = unknown lost; fails = λ e. absurd (ground arith) })
      λ h found. handle-Outcome host d call context h found

pub step-Transition : (host : Host) (e : Event) (d : Director) → Transition d (step host e d)
unfolding step
step-Transition host (called call context) d = (execute-Outcome host d call context).moves
step-Transition host ticked d = ticks

-- What the transitions keep holds at the end of every run.
pub run_rule {ℓ} :
    (P : Director → Type ℓ)
    → ((d e : Director) → Transition d e → P d → P e)
    → (host : Host) (events : List Event) (d : Director) → P d
    → P (run host events d)
unfolding run
run_rule P keeps host [] d h = h
run_rule P keeps host (e ∷ events) d h =
    run_rule P keeps host events (step host e d) (keeps d _ (step-Transition host e d) h)
