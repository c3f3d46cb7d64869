-- ===== src/Protocol.antt =====
-- The messages between the runner and a scenario's director (apps/api/app/runner/protocol.py),
-- and the JSON values they carry. A float with few decimals is held as a scaled whole number.
use the_evil_repository.Prelude.{
  Bool, Dict, List, Option, String, [], false, get_or_else, if◌then◌else◌, is_empty, keep, leb,
  lookup, none, not, some, str_eq, true, ℕ, ◌==◌, ◌∷◌,
}

mutual
  pub data Json : Type 0 where
    null : Json
    flag : Bool → Json
    num : ℕ → Json
    -- `minus n` is -n.
    minus : ℕ → Json
    -- `fraction n k` is n / 10^k.
    fraction : ℕ → ℕ → Json
    text : String → Json
    array : Items → Json
    object : Fields → Json

  pub data Items : Type 0 where
    nil : Items
    item : Json → Items → Items

  pub data Fields : Type 0 where
    end : Fields
    field : String → Json → Fields → Fields

abbrev pub texts : List String → Items
texts [] = nil
texts (s ∷ rest) = item (text s) (texts rest)

abbrev pub objects : List Fields → Items
objects [] = nil
objects (f ∷ rest) = item (object f) (objects rest)

-- `{**a, **b}`, for dicts with no key in common.
abbrev pub merge : Fields → Fields → Fields
merge end b = b
merge (field k v a) b = field k v (merge a b)

-- A float, in millionths; `below n` is -(n + 1) millionths.
pub data Number : Type 0 where
  millionths : ℕ → Number
  below : ℕ → Number

-- `0 <= x <= 1`
abbrev pub within_unit : Number → Bool
within_unit (millionths n) = leb n 1000000
within_unit (below n) = false

-- A tool call. `arguments` holds each argument as the text that `str` makes of it;
-- the arguments that are no text stand in fields of their own, the two integers as whole numbers
-- from 0 on, as the tool table asks. `confidence` holds the one float of a call: a confidence, a
-- trust or a weight.
pub record ToolCall : Type 0 where
  pub call_id : String
  pub name : String
  pub arguments : Dict String
  pub evidence_keys : List String
  pub parameters : Dict String
  pub confidence : Number
  pub limit : Option ℕ
  pub sample_seconds : Option ℕ

-- `str(call.arguments.get(key, default))`
abbrev pub argument : ToolCall → String → String → String
argument call key default = get_or_else default (lookup key call.arguments)

pub data Status : Type 0 where
  ok error timeout denied : Status

-- `[str(value) for value in call.arguments.get("evidence_keys", []) if str(value)]`
abbrev pub cited_keys : ToolCall → List String
cited_keys call = keep (λ k. not (is_empty k)) call.evidence_keys

-- What a tool answers: a message, or the text of a JSON document.
pub data Output : Type 0 where
  message : String → Output
  document : Fields → Output

pub record ToolResult : Type 0 where
  pub call_id : String
  pub name : String
  pub status : Status
  pub output : Output
  pub exit_code : Option ℕ
  pub truncated : Bool
  pub metadata : Fields

-- What the interpreter's own libraries compute for the directors: the hexadecimal SHA-256 of a
-- text, full Unicode case folding, and the text of a JSON object with its keys sorted.
pub record Host : Type 0 where
  pub sha256 : String → String
  pub casefold : String → String
  pub dumps : Fields → String

abbrev pub is_error : Status → Bool
is_error error = true
is_error _ = false

-- `d.get(key)`
abbrev pub get_field : String → Fields → Option Json
get_field key end = none
get_field key (field j v rest) =
    let later = get_field key rest in if str_eq j key then some v else later

-- `d[key] = value`
abbrev pub set_field : String → Json → Fields → Fields
set_field key v end = field key v end
set_field key v (field j w rest) =
    let later = set_field key v rest in if str_eq j key then field j v rest else field j w later

-- `bool(value)`
abbrev pub is_truthy : Json → Bool
is_truthy null = false
is_truthy (flag b) = b
is_truthy (num n) = not (n == 0)
is_truthy (minus n) = not (n == 0)
is_truthy (fraction n k) = not (n == 0)
is_truthy (text s) = not (is_empty s)
is_truthy (array items) = elim items [ nil ↦ false | item v rest ↦ true ]
is_truthy (object fields) = elim fields [ end ↦ false | field k v rest ↦ true ]
