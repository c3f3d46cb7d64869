-- ===== src/Faults/Rules.antt =====
-- `FaultRule` of apps/api/app/runner/faults.py: which calls a rule is for, and its steps.
use the_evil_repository.Prelude.{
  Bool, List, Option, String, [], false, if◌then◌else◌, length, lookup, none, occurs_in, some,
  str_eq, suc, true, zero, ℕ, ◌&&◌, ◌+◌, ◌==◌, ◌∷◌,
}
use the_evil_repository.Protocol.{Fields, Host, Items, Json, ToolCall, argument}

-- `match`: the keys that are present.
pub record Match : Type 0 where
  pub tool : Option String
  pub path : Option String
  pub path_glob : Option String
  pub command_contains : Option String
  pub query_contains : Option String

-- A step of a sequence, its keys read as the types that they have, and the dict that it is.
pub record FaultStep : Type 0 where
  pub result : Option String
  pub message : Option String
  pub code : Option Json
  pub seconds : Option ℕ
  pub bytes : Option ℕ
  pub count : Option ℕ
  pub source : Option String
  pub raw : Fields

pub record FaultRule : Type 0 where
  pub rule_id : String
  pub match : Match
  pub sequence : List FaultStep
  pub cursor : ℕ

-- `fnmatch.fnmatch`, the `json.loads` of a text that is JSON, and the two ways of `json.dumps`
-- that the controller reads and writes tool output with.
pub record Tools : Type 0 where
  pub host : Host
  pub fnmatch : String → String → Bool
  pub loads : String → Option Json
  pub dumps_indented : Items → String

-- A condition that holds when its key is absent.
abbrev pub absent_or : Option String → (String → Bool) → Bool
absent_or none test = true
absent_or (some s) test = test s

abbrev pub equals : Option String → String → Bool
equals none wanted = false
equals (some s) wanted = str_eq s wanted

-- `matches`
unfoldable pub matches : Tools → FaultRule → ToolCall → Bool
matches tools rule call =
    let m = rule.match in
    equals m.tool call.name
    && absent_or m.path (λ p. equals (lookup "path" call.arguments) p)
    && absent_or m.path_glob (λ p. tools.fnmatch (argument call "path" "") p)
    && absent_or m.command_contains (λ s. occurs_in s (argument call "command" ""))
    && absent_or m.query_contains
        (λ s. occurs_in (tools.host.casefold s) (tools.host.casefold (argument call "query" "")))

-- `sequence[min(cursor, len(sequence) - 1)]`
abbrev pub step_at : ℕ → FaultStep → List FaultStep → FaultStep
step_at n s [] = s
step_at zero s (t ∷ rest) = s
step_at (suc n) s (t ∷ rest) = step_at n t rest

-- A step that lets the call pass gives nothing.
abbrev pub effective : FaultStep → Option FaultStep
effective step = if equals step.result "passthrough" then none else some step

-- The step that the cursor points at.
unfoldable pub current_step : ℕ → List FaultStep → Option FaultStep
current_step cursor [] = none
current_step cursor (s ∷ rest) = effective (step_at cursor s rest)

-- A rule without steps does not count.
abbrev pub moved_by : ℕ → FaultRule → FaultRule
moved_by n rule = record rule {
  cursor = if length rule.sequence == 0 then rule.cursor else n + rule.cursor;
}

-- `next_step`
unfoldable pub next_step : FaultRule → FaultRule × Option FaultStep
next_step rule = (moved_by 1 rule, current_step rule.cursor rule.sequence)
