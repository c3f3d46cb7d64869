-- ===== src/Context/Shorten.antt =====
-- `bounded_text` and `compact_tool_result_content` of apps/api/app/runner/engine.py.
use the_evil_repository.Prelude.{
  Bool, Option, String, arith, decimal, false, first_chars, get_or_else, if_rule, if◌then◌else◌,
  leb, leb→le, ltb, max, none, option_rule, refl, some, true, ℕ, ◌-◌, ◌<>◌, ◌<◌, ◌==◌, ◌↔◌, ◌≡◌,
  ◌≤◌,
}
use the_evil_repository.Protocol.{
  Fields, Json, end, field, flag, get_field, null, num, object, text,
}
use the_evil_repository.Context.Codec.{
  Codec, IsRounding, first_bytes, last_bytes, utf8_size, utf8_size-append, utf8_size-first_bytes,
  utf8_size-last_bytes,
}

unfoldable pub marker : Codec → String → String
marker codec value =
    "\n...[Runner context compaction: "
    <> decimal (utf8_size value)
    <> " bytes; sha256="
    <> first_chars 16 (codec.sha256 value)
    <> "]...\n"

-- The bytes that `bounded_text` leaves to the start of the text.
unfoldable pub head_budget : Codec → ℕ → ℕ
head_budget codec remaining = max 1 (codec.seven_tenths remaining)

unfoldable pub bounded_text : Codec → String → ℕ → String
bounded_text codec value maximum =
    if maximum == 0
    then ""
    else (if leb (utf8_size value) maximum
        then value
        else (if leb maximum (utf8_size (marker codec value))
            then first_bytes maximum (marker codec value)
            else (let remaining = maximum - utf8_size (marker codec value) in
                let head = head_budget codec remaining in
                let tail = remaining - head in
                first_bytes head value
                <> marker codec value
                <> (if tail == 0 then "" else last_bytes tail value))))

-- `str(value)`
unfoldable pub text_of : Codec → Json → String
text_of codec (text s) = s
text_of codec v = codec.shown v

abbrev pub member : String → Fields → Json
member key fields = get_or_else null (get_field key fields)

-- The shortened payload, its output bounded.
unfoldable pub short_payload : Codec → String → Fields → ℕ → Json
short_payload codec raw payload bound =
    let output = text_of codec (get_or_else (text "") (get_field "output" payload)) in
    object (
      field "call_id" (member "call_id" payload) (
        field "name" (member "name" payload) (
          field "status" (member "status" payload) (
            field "output" (text (bounded_text codec output bound)) (
              field "exit_code" (member "exit_code" payload) (
                field "truncated" (flag true) (
                  field "context_compaction"
                    (object (
                      field "original_message_bytes" (num (utf8_size raw)) (
                        field "sha256" (text (codec.sha256 raw)) (
                          field "recover" (text "re-run a focused tool query for exact output")
                            end))))
                    end)))))))

unfoldable pub shortened : Codec → String → Fields → ℕ → String
shortened codec raw payload maximum =
    let long = codec.dumps_compact (short_payload codec raw payload (max 256 (maximum - 800))) in
    let short = codec.dumps_compact (short_payload codec raw payload (max 128 (maximum - 1200))) in
    bounded_text codec (if ltb maximum (utf8_size long) then short else long) maximum

-- What `json.loads` makes of the text, where that is a dict.
abbrev pub payload_of : Option Json → Option Fields
payload_of (some (object payload)) = some payload
payload_of _ = none

-- `compact_tool_result_content`; the flag says whether the content was shortened.
unfoldable pub compact_tool_result_content : Codec → String → ℕ → String × Bool
compact_tool_result_content codec raw maximum =
    if leb (utf8_size raw) maximum then (raw, false) else (elim (payload_of (codec.loads raw)) [
      | some payload ↦ (shortened codec raw payload maximum, true)
      | none ↦ (bounded_text codec raw maximum, true)
    ])

head_budget-le : (codec : Codec) → IsRounding codec → (n : ℕ) → 0 < n → head_budget codec n ≤ n
unfolding head_budget
head_budget-le codec rounds n h = omega (arith, rounds n)

utf8_size-tail : (n : ℕ) (s : String) → utf8_size (if n == 0 then "" else last_bytes n s) ≤ n
utf8_size-tail n s =
    if_rule (λ x. utf8_size x ≤ n) (n == 0) (λ e. omega arith) (λ e. utf8_size-last_bytes n s)

-- The text, whole or cut, has at most the bytes it was allowed.
pub utf8_size-bounded_text :
    (codec : Codec)
    → IsRounding codec
    → (value : String) (maximum : ℕ) → utf8_size (bounded_text codec value maximum) ≤ maximum
unfolding bounded_text
utf8_size-bounded_text codec rounds value maximum =
    let mark = marker codec value in
    let fits = λ (s : String). utf8_size s ≤ maximum in
    if_rule fits (maximum == 0) (λ e. omega arith)
      (λ positive.
        if_rule fits (leb (utf8_size value) maximum) (λ e. leb→le (utf8_size value) maximum e)
          (λ long.
            if_rule fits (leb maximum (utf8_size mark)) (λ e. utf8_size-first_bytes maximum mark)
              (λ room.
                let remaining = maximum - utf8_size mark in
                let some_left : utf8_size mark < maximum = ground arith in
                let head = head_budget codec remaining in
                let end =
                  if remaining - head == 0 then "" else last_bytes (remaining - head) value in
                omega (
                  arith,
                  some_left,
                  head_budget-le codec rounds remaining (omega arith),
                  utf8_size-append (first_bytes head value) (mark <> end),
                  utf8_size-append mark end,
                  utf8_size-first_bytes head value,
                  utf8_size-tail (remaining - head) value,
                ))))

-- The flag tells whether the content was too long; a content that fits is left as it is.
pub record IsShort (raw : String) (maximum : ℕ) (r : String × Bool) : Type 0 where
  pub fits : utf8_size r.0 ≤ maximum
  pub kept : r.1 ≡ false → r.0 ≡ raw
  pub flags : (r.1 ≡ false) ↔ (utf8_size raw ≤ maximum)

cut-IsShort :
    (codec : Codec)
    → IsRounding codec
    → (raw cut : String) (maximum : ℕ) → leb (utf8_size raw) maximum ≡ false
    → IsShort raw maximum (bounded_text codec cut maximum, true)
cut-IsShort codec rounds raw cut maximum long = record {
  fits = utf8_size-bounded_text codec rounds cut maximum;
  kept = λ e. absurd (cc);
  flags = ground arith;
}

-- Whether the result parses or not, it is within the limit.
pub compact_tool_result_content-IsShort :
    (codec : Codec)
    → IsRounding codec
    → (raw : String) (maximum : ℕ)
    → IsShort raw maximum (compact_tool_result_content codec raw maximum)
unfolding compact_tool_result_content shortened
compact_tool_result_content-IsShort codec rounds raw maximum =
    if_rule (IsShort raw maximum) (leb (utf8_size raw) maximum)
      (λ e. record {
        fits = leb→le (utf8_size raw) maximum e;
        kept = λ _. refl;
        flags = ground arith;
      })
      (λ long.
        option_rule (IsShort raw maximum) (payload_of (codec.loads raw))
          (λ e. cut-IsShort codec rounds raw raw maximum long)
          (λ payload e. cut-IsShort codec rounds raw _ maximum long))
