-- ===== src/Engine/Visible.antt =====
-- `_model_visible_result` and `_truncate_output` (apps/api/app/runner/engine.py): the text of a tool
-- result that is fed back to the model. The cache of what was shown is kept here, apart from the
-- rest of the engine.
use Prim.Native.Char.{code}
use the_evil_repository.Prelude.{
  Bool, Dict, List, String, String-comparable, [], characters, contains, decimal, false,
  first_chars, if◌then◌else◌, leb, lookup, ltb, none, not, one_if, put, some, str_eq, suc, true,
  zero, ℕ, ◌*◌, ◌+◌, ◌-◌, ◌/◌, ◌<>◌, ◌==◌, ◌∷◌,
}
use the_evil_repository.Context.Codec.{utf8_size}
use the_evil_repository.Engine.Process.{parallel_safe_tools}

abbrev pub is_newline : ℕ → Bool
is_newline c = c == 10

-- `text.count("\n")`
abbrev pub newlines : String → ℕ
newlines String.[] = 0
newlines (String.◌∷◌ c s) = one_if (is_newline (code c)) + newlines s

-- `s[n:]`
abbrev pub drop_chars : ℕ → String → String
drop_chars zero s = s
drop_chars (suc n) String.[] = String.[]
drop_chars (suc n) (String.◌∷◌ c s) = drop_chars n s

-- `s[-n:]`, or nothing for 0; n is at most the length.
abbrev pub last_chars : ℕ → String → String
last_chars n s = drop_chars (characters s - n) s

-- `text[head_size : len(text) - tail_size]`
abbrev pub omitted : String → ℕ → ℕ → String
omitted s head tail = first_chars (characters s - tail - head) (drop_chars head s)

unfoldable pub truncation_marker : String → String
truncation_marker left_out = "\n[truncated " <> decimal (utf8_size left_out) <> " bytes]\n"

-- The loop that shortens the tail until the text fits.
unfoldable pub shrink_tail : String → ℕ → ℕ → ℕ → ℕ
shrink_tail s limit head zero = zero
shrink_tail s limit head (suc tail) =
    let rest = shrink_tail s limit head tail in
    let size =
      characters (first_chars head s)
      + characters (truncation_marker (omitted s head (suc tail)))
      + characters (last_chars (suc tail) s) in
    if ltb limit size then rest else suc tail

-- The text, whether it was truncated, and the bytes and the line ends that are left out.
pub record Truncation : Type 0 where
  pub text : String
  pub truncated : Bool
  pub truncated_bytes : ℕ
  pub truncated_lines : ℕ

-- `int(limit * 0.6)`
abbrev pub head_size : ℕ → ℕ
head_size limit = limit * 6 / 10

unfoldable pub truncate_output : String → ℕ → Truncation
truncate_output s limit =
    let head = head_size limit in
    let tail = shrink_tail s limit head (limit - head) in
    let left_out = omitted s head tail in
    if leb (characters s) limit
    then record { text = s; truncated = false; truncated_bytes = 0; truncated_lines = 0 }
    else record {
      text = first_chars head s <> truncation_marker left_out <> last_chars tail s;
      truncated = true;
      truncated_bytes = utf8_size left_out;
      truncated_lines = newlines left_out;
    }

-- What is read of a result, with the signature and the ordinal of its call.
pub record Answer : Type 0 where
  pub name : String
  pub output : String
  pub truncated : Bool
  pub signature : String
  pub ordinal : ℕ

pub record VisibleResult : Type 0 where
  pub output : String
  pub truncated : Bool
  pub deduplicated : Bool
  pub display_truncated : Bool
  pub display_truncated_bytes : ℕ
  pub display_truncated_lines : ℕ

abbrev pub whole_output : Answer → VisibleResult
whole_output a = record {
  output = a.output;
  truncated = a.truncated;
  deduplicated = false;
  display_truncated = false;
  display_truncated_bytes = 0;
  display_truncated_lines = 0;
}

unfoldable pub repeat_summary : ℕ → String → String
repeat_summary ordinal output =
    "[Runner] Identical to tool call #"
    <> decimal ordinal
    <> " ("
    <> decimal (characters output)
    <> " bytes). Repeating the full output would waste budget.\nPreview: "
    <> first_chars 200 output

abbrev pub repeated_output : ℕ → Answer → VisibleResult
repeated_output ordinal a = record {
  output = repeat_summary ordinal a.output;
  truncated = true;
  deduplicated = true;
  display_truncated = false;
  display_truncated_bytes = 0;
  display_truncated_lines = 0;
}

unfoldable pub limited_output : ℕ → Answer → VisibleResult
limited_output limit a =
    let t = truncate_output a.output limit in
    if t.truncated
    then record {
      output = t.text;
      truncated = true;
      deduplicated = false;
      display_truncated = true;
      display_truncated_bytes = t.truncated_bytes;
      display_truncated_lines = t.truncated_lines;
    }
    else whole_output a

abbrev pub Cache : Type 0
Cache = Dict (ℕ × String)

unfoldable pub model_visible_result : ℕ → Cache → Answer → Cache × VisibleResult
model_visible_result limit cache a =
    if not (contains a.name parallel_safe_tools)
    then (cache, whole_output a)
    else (elim (lookup a.signature cache) [
      | none ↦ (put a.signature (a.ordinal, a.output) cache, limited_output limit a)
      | some (ordinal, cached_output) ↦
          if str_eq cached_output a.output
          then (cache, repeated_output ordinal a)
          else (cache, limited_output limit a)
    ])

-- The cache after a sequence of results.
unfoldable pub cache_after : ℕ → Cache → List Answer → Cache
cache_after limit cache [] = cache
cache_after limit cache (a ∷ rest) = cache_after limit (model_visible_result limit cache a).0 rest
