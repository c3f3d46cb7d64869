-- ===== src/Engine/Guards.antt =====
-- The guards on commands and on paths (apps/api/app/runner/engine.py).
use the_evil_repository.Prelude.{
  Bool, List, Option, String, String-comparable, [], after_last, all_chars, any, before_first,
  contains, drop_leading, drop_trailing, false, get_or_else, if◌then◌else◌, is_empty, join, map,
  not, occurs_in, starts_with, str_eq, true, without_char, words, ℕ, ◌&&◌, ◌<>◌, ◌==◌, ◌||◌, ◌∷◌,
}

-- `casefold`, `bool(re.search(pattern, text))`, the tokens of `shlex` or nothing where it raises
-- ValueError, `re.findall(r"[\w./:-]+", text)`, and `str.isalnum`.
pub record Lexer : Type 0 where
  pub casefold : String → String
  pub search : String → String → Bool
  pub tokens : String → Option (List String)
  pub plain_tokens : String → List String
  pub is_alnum : String → Bool

abbrev pub is_slash : ℕ → Bool
is_slash c = c == 47

abbrev pub is_dot_or_slash : ℕ → Bool
is_dot_or_slash c = c == 46 || c == 47

-- `;&|()`
abbrev pub is_punctuation : ℕ → Bool
is_punctuation c = c == 59 || c == 38 || c == 124 || c == 40 || c == 41

abbrev pub occurs_any : List String → String → Bool
occurs_any needles s = any (λ needle. occurs_in needle s) needles

unfoldable pub forbidden_commands : List String
forbidden_commands =
    "docker" ∷ "podman" ∷ "nerdctl" ∷ "curl" ∷ "wget" ∷ "nc" ∷ "ncat" ∷ "socat" ∷ []

unfoldable pub is_operator : String → Bool
is_operator token = not (is_empty token) && all_chars is_punctuation token

-- A variable's assignment before a command.
unfoldable pub is_assignment : Lexer → String → Bool
is_assignment lexer token =
    occurs_in "=" token
    && not (starts_with token "/" || starts_with token "./" || starts_with token "../")
    && lexer.is_alnum (without_char 95 (before_first (λ c. c == 61) token))

unfoldable pub is_forbidden : String → Bool
unfolding forbidden_commands
is_forbidden token = contains (after_last is_slash token) forbidden_commands

-- The loop over the tokens; the flag says whether a command may start here.
unfoldable pub scan_tokens : Lexer → Bool → List String → Bool
unfolding is_operator is_assignment is_forbidden
scan_tokens lexer boundary [] = false
scan_tokens lexer boundary (token ∷ tokens) =
    let starts = boundary && not (is_operator token) in
    let later =
      scan_tokens lexer (is_operator token || (boundary && is_assignment lexer token)) tokens in
    if starts && not (is_assignment lexer token) && is_forbidden token then true else later

-- `boundary_violation`
unfoldable pub boundary_violation : Lexer → String → Bool
unfolding scan_tokens
boundary_violation lexer command =
    let lowered = lexer.casefold command in
    occurs_in "/var/run/docker.sock" lowered
    || (occurs_in "/run/user/" lowered && occurs_in "docker.sock" lowered)
    || scan_tokens lexer true (get_or_else (lexer.plain_tokens command) (lexer.tokens command))

unfoldable pub protected_fragments : List String
protected_fragments =
    "palimpsest/" ∷ "/ci/" ∷ "/scripts/" ∷ "/generated/" ∷ "/vendor/" ∷ "/performance/"
    ∷ "/evidence/" ∷ "/reasoning-gates/" ∷ "package.json" ∷ "package-lock.json" ∷ "pnpm-lock.yaml"
    ∷ "pyproject.toml" ∷ "poetry.lock" ∷ "uv.lock" ∷ "requirements.txt" ∷ ".nvmrc"
    ∷ ".python-version" ∷ ".tool-versions" ∷ ".cache/" ∷ ".runtime" ∷ []

-- `path.casefold().lstrip("./")`
unfoldable pub normalized_path : Lexer → String → String
normalized_path lexer path = drop_leading is_dot_or_slash (lexer.casefold path)

-- `protected_write_path`
unfoldable pub protected_write_path : Lexer → String → Bool
unfolding normalized_path protected_fragments
protected_write_path lexer path =
    let normalized = normalized_path lexer path in
    not (contains normalized ("investigation.md" ∷ "dead-letter/investigation.md" ∷ []))
    && occurs_any protected_fragments normalized

-- What the guards read of a scenario's metadata.
pub record WritePolicy : Type 0 where
  pub candidate_report_paths : List String
  pub read_only_repositories : List String

unfoldable pub is_within : Lexer → String → String → Bool
is_within lexer normalized repository =
    let root = drop_leading is_slash (drop_trailing is_slash (lexer.casefold repository)) in
    str_eq normalized root || starts_with normalized (root <> "/")

-- `scenario_protected_write_path`
unfoldable pub scenario_protected_write_path : Lexer → WritePolicy → String → Bool
unfolding normalized_path is_within protected_write_path
scenario_protected_write_path lexer writes path =
    let normalized = normalized_path lexer path in
    not (contains normalized (map (normalized_path lexer) writes.candidate_report_paths))
    && (any (is_within lexer normalized) writes.read_only_repositories
        || protected_write_path lexer path)

unfoldable pub escalation_patterns : List String
escalation_patterns =
    "(?:^|[;&|()\\s])sudo(?:\\s|$)" ∷ "(?:^|[;&|()\\s])su(?:\\s|$)"
    ∷ "(?:^|[;&|()\\s])chown(?:\\s|$)" ∷ "(?:^|[;&|()\\s])setfacl(?:\\s|$)"
    ∷ "(?:^|[;&|()\\s])chmod\\s+(?:-[^\\s]*r[^\\s]*\\s+)?(?:777|666|a\\+w|-r)" ∷ []

-- `permission_escalation`
unfoldable pub permission_escalation : Lexer → String → Bool
unfolding escalation_patterns
permission_escalation lexer command =
    any (λ pattern. lexer.search pattern (join " " (words (lexer.casefold command))))
      escalation_patterns

unfoldable pub mutation_pattern : String
mutation_pattern =
    "\\b(insert|update|delete|truncate|alter|drop|create|grant|revoke|replace|vacuum|reindex|refresh\\s+materialized|copy\\s+[^()]+\\s+from)\\b"

-- `database_mutation`
unfoldable pub database_mutation : Lexer → String → Bool
unfolding mutation_pattern
database_mutation lexer command =
    let lowered = lexer.casefold command in
    (occurs_in "psql" lowered || occurs_in "sqlite3" lowered)
    && lexer.search mutation_pattern lowered
