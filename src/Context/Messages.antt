-- ===== src/Context/Messages.antt =====
-- The messages of a conversation (apps/api/app/runner/engine.py), their size as JSON, and
-- `compact_history_message`.
use the_evil_repository.Prelude.{
  List, Option, String, [], count, get_or_else, if◌then◌else◌, ltb, map, none, one_if, some, str_eq,
  suc, true, ℕ, ◌+◌, ◌∷◌,
}
use the_evil_repository.Protocol.{
  Fields, Json, array, end, field, flag, merge, null, num, object, objects, text,
}
use the_evil_repository.Context.Codec.{Codec, utf8_size}
use the_evil_repository.Context.Shorten.{bounded_text, compact_tool_result_content}

-- An entry of `tool_calls`; `metadata` holds the provider's fields, which are only copied.
pub record ToolRequest : Type 0 where
  pub id : String
  pub name : String
  pub arguments : String
  pub metadata : Fields

-- A message. The content is None beside tool calls alone; only an answer of a tool has the id of
-- its call.
pub record Message : Type 0 where
  pub role : String
  pub content : Option String
  pub tool_calls : List ToolRequest
  pub tool_call_id : Option String

unfoldable pub request_fields : ToolRequest → Fields
request_fields r = field "id" (text r.id) (
    field "type" (text "function") (
      field "function"
        (object (field "name" (text r.name) (field "arguments" (text r.arguments) end)))
        r.metadata))

abbrev pub requests : List ToolRequest → List Fields
unfolding request_fields
requests [] = []
requests (r ∷ rest) = request_fields r ∷ requests rest

abbrev pub text_or_null : Option String → Json
text_or_null none = null
text_or_null (some s) = text s

unfoldable pub message_fields : Message → Fields
unfolding request_fields
message_fields m = field "role" (text m.role) (
    field "content" (text_or_null m.content) (
      merge
        (elim m.tool_calls [
          | [] ↦ end
          | r ∷ rest ↦ field "tool_calls" (array (objects (requests (r ∷ rest)))) end
        ])
        (elim m.tool_call_id [ none ↦ end | some id ↦ field "tool_call_id" (text id) end ])))

abbrev pub messages_json : List Message → List Fields
unfolding message_fields
messages_json [] = []
messages_json (m ∷ rest) = message_fields m ∷ messages_json rest

-- `json_size`
unfoldable pub json_size : Codec → List Message → ℕ
unfolding message_fields
json_size codec ms = utf8_size (codec.dumps (array (objects (messages_json ms))))

-- `str(message.get("content") or "")`
abbrev pub content_text : Message → String
content_text m = get_or_else "" m.content

-- What was shortened: the counters of a compaction.
pub record Counts : Type 0 where
  pub tool_results_truncated : ℕ
  pub assistant_content_truncated : ℕ
  pub tool_arguments_truncated : ℕ

abbrev pub no_counts : Counts
no_counts = record {
  tool_results_truncated = 0;
  assistant_content_truncated = 0;
  tool_arguments_truncated = 0;
}

pub record Limits : Type 0 where
  pub tool_content_limit : ℕ
  pub assistant_content_limit : ℕ
  pub tool_argument_limit : ℕ

-- What stands in place of arguments that are too long.
unfoldable pub compacted_arguments : Codec → String → String
compacted_arguments codec arguments = codec.dumps_compact (
    object (
      field "_runner_context_compacted" (flag true) (
        field "original_bytes" (num (utf8_size arguments))
          (field "sha256" (text (codec.sha256 arguments)) end))))

unfoldable pub compact_request : Codec → ℕ → ToolRequest → ToolRequest
compact_request codec limit r =
    if ltb limit (utf8_size r.arguments)
    then record r { arguments = compacted_arguments codec r.arguments }
    else r

-- A tool's answer, and an assistant's message, made short, with the counters after.
unfoldable pub compact_answer : Codec → ℕ → Message → Counts → Message × Counts
compact_answer codec limit m counts =
    let short = compact_tool_result_content codec (content_text m) limit in
    (
      record m { content = some short.0 },
      if short.1
          then record counts { tool_results_truncated = suc counts.tool_results_truncated }
          else counts,
    )

unfoldable pub compact_assistant : Codec → Limits → Message → Counts → Message × Counts
unfolding compact_request
compact_assistant codec limits m counts =
    let is_long = ltb limits.assistant_content_limit (utf8_size (content_text m)) in
    let long_calls =
      count (λ (r : ToolRequest). ltb limits.tool_argument_limit (utf8_size r.arguments))
        m.tool_calls in
    (
      record m {
        content =
            if is_long
            then some (bounded_text codec (content_text m) limits.assistant_content_limit)
            else m.content;
        tool_calls = map (compact_request codec limits.tool_argument_limit) m.tool_calls;
      },
      record counts {
        assistant_content_truncated = one_if is_long + counts.assistant_content_truncated;
        tool_arguments_truncated = long_calls + counts.tool_arguments_truncated;
      },
    )

-- `compact_history_message`
unfoldable pub compact_history_message : Codec → Limits → Message → Counts → Message × Counts
compact_history_message codec limits m counts =
    if str_eq m.role "tool"
    then compact_answer codec limits.tool_content_limit m counts
    else (if str_eq m.role "assistant"
        then compact_assistant codec limits m counts
        else (m, counts))
