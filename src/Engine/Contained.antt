-- ===== src/Engine/Contained.antt =====
-- A call that a guard refuses reaches nothing outside (apps/api/app/runner/engine.py).
use the_evil_repository.Prelude.{
  Bool, Option, Option-cases, String, ap, arith, eq_iff, false, get_or_else, if_rule, inl, inr,
  is_some, occurs_in, option_rule, refl, str_eq, subst, sym, true, ◌&&◌, ◌||◌, ◌↔◌, ◌≡◌, ◌⊎◌,
}
use the_evil_repository.Engine.Guards.{
  Lexer, boundary_violation, database_mutation, permission_escalation, scan_tokens,
  scenario_protected_write_path,
}
use the_evil_repository.Engine.Commands.{Launches, scan_tokens_iff}
use the_evil_repository.Protocol.{ToolCall, ToolResult, argument}
use the_evil_repository.Engine.State.{Config, Engine, Outside}
use the_evil_repository.Engine.Sandboxed.{guard, use_sandbox}
use the_evil_repository.Faults.Controller.{Controller, after, before}
use the_evil_repository.Engine.Execute.{dispatch, execute, route, settled, to_sandbox, with_fault}

-- The command names a container socket, or runs one of the forbidden programs.
pub data IsProbe (lexer : Lexer) (command : String) : Type 0 where
  socket : occurs_in "/var/run/docker.sock" (lexer.casefold command) ≡ true → IsProbe lexer command
  user_socket :
      occurs_in "/run/user/" (lexer.casefold command) ≡ true
      → occurs_in "docker.sock" (lexer.casefold command) ≡ true
      → IsProbe lexer command
  launch :
      Launches lexer true (get_or_else (lexer.plain_tokens command) (lexer.tokens command))
      → IsProbe lexer command

or-eq-true :
    (a b c d : Bool)
    → ((a || (b && c) || d) ≡ true) ↔ ((a ≡ true) ⊎ ((b ≡ true) × (c ≡ true)) ⊎ (d ≡ true))
or-eq-true a b c d = ground arith

-- A command is a boundary violation exactly when it names a container socket or, by its tokens,
-- runs a forbidden program: at the beginning or behind an operator variables may be set, and the
-- next token, without its directory, is one of eight names.
pub boundary_violation-IsProbe :
    (lexer : Lexer) (command : String)
    → (boundary_violation lexer command ≡ true) ↔ IsProbe lexer command
unfolding boundary_violation
boundary_violation-IsProbe lexer command =
    let lowered = lexer.casefold command in
    let scanned =
      scan_tokens_iff lexer true
        (get_or_else (lexer.plain_tokens command) (lexer.tokens command)) in
    let either =
      or-eq-true (occurs_in "/var/run/docker.sock" lowered) (occurs_in "/run/user/" lowered)
        (occurs_in "docker.sock" lowered)
        (scan_tokens lexer true
          (get_or_else (lexer.plain_tokens command) (lexer.tokens command))) in
    (
      λ h. elim (either.0 h) [
        | inl a ↦ socket a
        | inr (inl (b, c)) ↦ user_socket b c
        | inr (inr d) ↦ launch (scanned.0 d)
      ],
      λ probe. either.1 (elim probe [
        | socket a ↦ inl a
        | user_socket b c ↦ inr (inl (b, c))
        | launch l ↦ inr (inr (scanned.1 l))
      ]),
    )

-- What the guards refuse.
pub data IsBarred (config : Config) (call : ToolCall) : Type 0 where
  protected_write :
      call.name ≡ "write_file"
      → scenario_protected_write_path config.lexer config.writes (argument call "path" "") ≡ true
      → IsBarred config call
  escalation :
      call.name ≡ "exec_command"
      → permission_escalation config.lexer (argument call "command" "") ≡ true
      → IsBarred config call
  mutation :
      call.name ≡ "exec_command"
      → database_mutation config.lexer (argument call "command" "") ≡ true
      → IsBarred config call
  probe :
      call.name ≡ "exec_command"
      → IsProbe config.lexer (argument call "command" "")
      → IsBarred config call

refuted :
    {name wanted : String} {b : Bool}
    → name ≡ wanted
    → b ≡ true
    → (str_eq name wanted && b) ≡ false
    → ⊥
refuted {name} {wanted} n h f = let same = (eq_iff name wanted).1 n in ground (arith, same, h, f)

guard-IsBarred :
    (config : Config) (call : ToolCall) → IsBarred config call → is_some (guard config call) ≡ true
unfolding guard
guard-IsBarred config call barred =
    let command = argument call "command" "" in
    let runs_command = str_eq call.name "exec_command" in
    let writes =
      str_eq call.name "write_file"
      && scenario_protected_write_path config.lexer config.writes (argument call "path" "") in
    let refused = λ (o : Option ToolResult). is_some o ≡ true in
    if_rule refused writes (λ p. refl)
      (λ w.
        if_rule refused (runs_command && permission_escalation config.lexer command) (λ p. refl)
          (λ x.
            if_rule refused (runs_command && database_mutation config.lexer command) (λ p. refl)
              (λ m.
                if_rule refused (runs_command && boundary_violation config.lexer command)
                  (λ p. refl)
                  (λ b. elim barred [
                    | protected_write n h ↦ absurd (refuted n h w)
                    | escalation n h ↦ absurd (refuted n h x)
                    | mutation n h ↦ absurd (refuted n h m)
                    | probe n h ↦
                        absurd (refuted n ((boundary_violation-IsProbe config.lexer command).1 h) b)
                  ]))))

route-IsBarred :
    (config : Config) (call : ToolCall) → IsBarred config call → route call.name ≡ to_sandbox
unfolding route
route-IsBarred config call (protected_write n h) = rw n refl
route-IsBarred config call (escalation n h) = rw n refl
route-IsBarred config call (mutation n h) = rw n refl
route-IsBarred config call (probe n h) = rw n refl

use_sandbox-IsBarred :
    {W : Type 0} (outside : Outside W) (config : Config) (e : Engine W) (call : ToolCall)
    → IsBarred config call
    → (use_sandbox outside config e call).0 ≡ e
unfolding use_sandbox
use_sandbox-IsBarred outside config e call barred = elim (Option-cases (guard config call)) [
  | inl unguarded ↦ absurd (let shut = guard-IsBarred config call barred in cc)
  | inr (r, shut) ↦ rw (use_sandbox, shut) refl
]

dispatch-IsBarred :
    {W : Type 0} (outside : Outside W) (config : Config) (e : Engine W) (call : ToolCall)
    → IsBarred config call
    → (dispatch outside config (route call.name) e call).0 ≡ e
unfolding dispatch
dispatch-IsBarred outside config e call barred =
    subst (λ r. (dispatch outside config r e call).0 ≡ e) (sym (route-IsBarred config call barred))
      (use_sandbox-IsBarred outside config e call barred)

-- A call that a guard refuses - a write to a protected path, or a command that escalates
-- privileges, changes a database, names a container socket or runs a forbidden program - changes
-- nothing but the faults that are scripted: neither the world of the sandbox, nor a director, the
-- record of the investigation, a count or the events.
pub execute-IsBarred :
    {W : Type 0} (outside : Outside W) (config : Config) (e : Engine W) (call : ToolCall)
    → IsBarred config call
    → (f : Controller) × ((execute outside config e call).0 ≡ record e { faults = f })
unfolding execute with_fault
execute-IsBarred {W} outside config e call barred =
    let asked = before config.tools e.faults call in
    let waiting : Engine W = record e { faults = asked.0 } in
    option_rule (λ (x : Engine W × ToolResult). (f : Controller) × (x.0 ≡ record e { faults = f }))
      asked.1
      (λ p.
        let made = dispatch outside config (route call.name) waiting call in
        let f = (after config.tools made.0.faults call (settled call made.1)).0 in
        (
          f,
          ap (λ (x : Engine W). record x { faults = f })
              (dispatch-IsBarred outside config waiting call barred),
        ))
      (λ r p. (asked.0, refl))
