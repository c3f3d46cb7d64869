-- ===== src/Release/Acting.antt =====
-- Where an action of the release director leads: to its effect and the charge for it, if its guards
-- hold (apps/api/app/scenario/release.py).
use the_evil_repository.Prelude.{
  Bool, Bool-cases, Dict, List, Option, String, arith, false, if_rule, if◌then◌else◌, inl, inr,
  is_some_lem, no_some, none, option_rule, refl, same_some, some, subst, true, ◌&&◌, ◌<◌, ◌==◌, ◌≡◌,
}
use the_evil_repository.Protocol.{Host, ToolCall, ToolResult}
use the_evil_repository.Release.State.{
  Action, ActionRecord, Director, clean_rebuild, clear_shared_cache, disable_signature_policy,
  patch_source, pause_rollout, preserve_evidence, promote_digest, quarantine_digest, retag_in_place,
  rollback_to_digest,
}
use the_evil_repository.Release.Clock.{json_result}
use the_evil_repository.Release.Inspect.{replied, resolve}
use the_evil_repository.Release.Policy.{find_action, is_rebuild, policy, takes_target}
use the_evil_repository.Release.Rebuild.{rebuild}
use the_evil_repository.Release.Actions.{
  accepted_result, act, action_record, charge, denied_result, effect, perform,
}
use the_evil_repository.Release.Admission.{CanAct, lowered, stripped}
use the_evil_repository.Release.Execute.{action_handler, find_handler}
use the_evil_repository.Release.Handled.{Handled, asked, is_failure, made, refused, resolve_known}
use the_evil_repository.Release.Transitions.{
  Change, clears, disables, falls_back, patches, pauses, performs, preserves, promotes, quarantines,
  rebuilds, retags,
}

-- The only action without an effect is a rebuild with no capacity.
Changes : Director → String → Action → Option (Option String × Director) → Type 0
Changes d resolved action none = (is_rebuild action && d.rebuild_budget == 0) ≡ true
Changes d resolved action (some (generated, changed)) = Change d resolved action changed

effect-Changes :
    (host : Host) (d : Director) (parameters : Dict String) (resolved : String) (action : Action)
    → Changes d resolved action (effect host d parameters resolved action)
unfolding Changes effect rebuild
effect-Changes host d parameters resolved preserve_evidence = preserves
effect-Changes host d parameters resolved pause_rollout = pauses
effect-Changes host d parameters resolved quarantine_digest = quarantines
effect-Changes host d parameters resolved clean_rebuild =
    elim (Bool-cases (d.rebuild_budget == 0)) [
      | inl e ↦ rw (e, Changes) e
      | inr e ↦ rw (e, Changes) (rebuilds _ _ (ground arith))
    ]
effect-Changes host d parameters resolved promote_digest = promotes
effect-Changes host d parameters resolved rollback_to_digest = falls_back
effect-Changes host d parameters resolved retag_in_place = retags
effect-Changes host d parameters resolved clear_shared_cache = clears
effect-Changes host d parameters resolved disable_signature_policy = disables
effect-Changes host d parameters resolved patch_source = patches

-- The answer to an action that was carried out is no failure.
act_answer :
    (d : Director) (call : ToolCall) (action : Action) (entry : ActionRecord)
    → is_failure (
        replied (
          if entry.denied
          then denied_result d call action
          else accepted_result d call action entry))
      ≡ false
unfolding denied_result accepted_result json_result
act_answer d call action entry =
    if_rule (λ (r : ToolResult). is_failure (replied r) ≡ false) entry.denied (λ _. refl)
      (λ _. refl)

clash : {b : Bool} → b ≡ true → b ≡ false → ⊥
clash h k = ground (arith, h, k)

module _ (host : Host) (d : Director) (call : ToolCall) (known : List String) where
  perform-Handled :
      (action : Action) (resolved : String)
      → find_handler call.name ≡ some action_handler
      → 0 < d.action_budget
      → find_action (lowered host call "action") ≡ some action
      → (takes_target action ≡ true → resolve d (stripped call "target") ≡ some resolved)
      → Handled host d call known (perform host d call known action resolved)
  unfolding perform action_record Changes charge
  perform-Handled action resolved found left named target =
      let charged : Director = charge d (action_record d call known none action) in
      let changes : Changes charged resolved action
          (effect host charged call.parameters resolved action) =
        effect-Changes host charged call.parameters resolved action in
      if_rule (Handled host d call known) (is_rebuild action && d.rebuild_budget == 0)
        (λ p. refused host d call known _ found (λ g. clash p (
          subst (λ a. (is_rebuild a && d.rebuild_budget == 0) ≡ false) (same_some g.named named)
            g.capacity)))
        λ capacity.
          if_rule (Handled host d call known) ((policy action).irreversible && d.irreversible_used)
            (λ p. refused host d call known _ found (λ g. clash p (
              subst (λ a. ((policy a).irreversible && d.irreversible_used) ≡ false)
                (same_some g.named named) g.free)))
            λ free.
              let g : CanAct host d call = record {
                action = action;
                left = left;
                named = named;
                target = λ t. is_some_lem (target t);
                capacity = capacity;
                free = free;
              } in
              option_rule (Handled host d call known)
                (effect host charged call.parameters resolved action)
                (λ stuck.
                  absurd (clash (subst (Changes charged resolved action) stuck changes) capacity))
                λ (generated, changed) is.
                  made host d call known found g
                    (performs call known action resolved generated changed left free
                      (λ t. resolve_known d _ (target t))
                      (subst (Changes charged resolved action) is changes)
                      (record {
                        request = asked host d call known found g;
                        handled = refl;
                        same_call = refl;
                        same_evidence = refl;
                        named = named;
                        target = target;
                      }))
                    refl (act_answer _ call action _)

  pub act-Handled :
      find_handler call.name ≡ some action_handler
      → Handled host d call known (act host d call known)
  unfolding act
  act-Handled found =
      if_rule (Handled host d call known) (d.action_budget == 0)
        (λ p. refused host d call known _ found (λ g. (let left = g.left in ground arith)))
        λ some_left.
          option_rule (Handled host d call known) (find_action (lowered host call "action"))
            (λ lost. refused host d call known _ found (λ g. (let named = g.named in cc)))
            λ action named.
              if_rule (Handled host d call known) (takes_target action)
                (λ taken.
                  option_rule (Handled host d call known) (resolve d (stripped call "target"))
                    (λ lost. refused host d call known _ found (λ g. no_some lost (
                      g.target
                        (subst (λ a. takes_target a ≡ true) (same_some named g.named) taken))))
                    λ resolved is.
                      perform-Handled action resolved found (ground arith) named λ _. is)
                λ none_taken.
                  perform-Handled action "" found (ground arith) named
                    λ h. absurd (clash h none_taken)
