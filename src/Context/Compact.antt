-- ===== src/Context/Compact.antt =====
-- `compact_message_history` of apps/api/app/runner/engine.py.
use the_evil_repository.Prelude.{
  Bool, List, String, [], count, false, if◌then◌else◌, last_or, leb, length, ltb, max, not,
  occurs_in, one_if, str_eq, true, ℕ, ◌&&◌, ◌++◌, ◌+◌, ◌-◌, ◌||◌, ◌∷◌,
}
use the_evil_repository.Context.Codec.{Codec}
use the_evil_repository.Context.Messages.{
  Counts, Limits, Message, ToolRequest, compact_history_message, content_text, json_size, no_counts,
}
use the_evil_repository.Context.Blocks.{concat, protocol_message_blocks}

abbrev pub checkpoint_marker : String
checkpoint_marker = "RUNNER_CONTEXT_CHECKPOINT_V1"

-- Where a message goes: an earlier checkpoint is dropped, the system's messages and the first
-- message of the user are pinned, and the others are history.
pub data Place : Type 0 where
  retired pinned_system pinned_user past : Place

unfoldable pub place : Bool → Message → Place
place pinned m =
    if occurs_in checkpoint_marker (content_text m)
    then retired
    else (if str_eq m.role "system"
        then pinned_system
        else (if str_eq m.role "user" && not pinned then pinned_user else past))

abbrev pub pins_user : Place → Bool
pins_user pinned_user = true
pins_user _ = false

-- The base and the history, from the messages in order.
unfoldable pub split_base : Bool → List Message → List Message × List Message
split_base pinned [] = ([], [])
split_base pinned (m ∷ ms) =
    let rest = split_base (pinned || pins_user (place pinned m)) ms in
    elim (place pinned m) [
      | retired ↦ rest
      | pinned_system ↦ (m ∷ rest.0, rest.1)
      | pinned_user ↦ (m ∷ rest.0, rest.1)
      | past ↦ (rest.0, m ∷ rest.1)
    ]

-- `compact_history_message` on each message, with the shared counters.
unfoldable pub compact_each : Codec → Limits → List Message → Counts → List Message × Counts
compact_each codec limits [] counts = ([], counts)
compact_each codec limits (m ∷ ms) counts =
    let first = compact_history_message codec limits m counts in
    let rest = compact_each codec limits ms first.1 in (first.0 ∷ rest.0, rest.1)

-- The loop over the blocks, the latest first, up to the first that no longer fits.
unfoldable pub select_blocks :
    Codec → List Message → ℕ → List (List Message) → List (List Message) → List (List Message)
select_blocks codec prefix target [] selected = selected
select_blocks codec prefix target (block ∷ earlier) selected =
    let longer = select_blocks codec prefix target earlier (block ∷ selected) in
    if ltb target (json_size codec (prefix ++ concat (block ∷ selected))) then selected else longer

abbrev pub reversed {ℓ} : {A : Type ℓ} → List A → List A
reversed [] = []
reversed (x ∷ xs) = reversed xs ++ x ∷ []

abbrev pub usual_limits : ℕ → Limits
usual_limits tool_content_limit = record {
  tool_content_limit = tool_content_limit;
  assistant_content_limit = max 2000 tool_content_limit;
  tool_argument_limit = max 2000 tool_content_limit;
}

abbrev pub aggressive_limits : Limits
aggressive_limits = record {
  tool_content_limit = 512;
  assistant_content_limit = 1000;
  tool_argument_limit = 1000;
}

-- When no block fits, the last one alone, made shorter, if that fits.
unfoldable pub last_resort : Codec → List Message → ℕ → List (List Message) → List (List Message)
last_resort codec prefix target [] = []
last_resort codec prefix target (b ∷ blocks) =
    let short = (compact_each codec aggressive_limits (last_or b blocks) no_counts).0 in
    if leb (json_size codec (prefix ++ short)) target then short ∷ [] else []

unfoldable pub retained_blocks :
    Codec → List Message → ℕ → List (List Message) → List (List Message)
retained_blocks codec prefix target blocks =
    elim (select_blocks codec prefix target (reversed blocks) []) [
      | [] ↦ last_resort codec prefix target blocks
      | b ∷ selected ↦ b ∷ selected
    ]

-- `retained_compaction_counts`
unfoldable pub is_shortened_answer : Message → Bool
is_shortened_answer m =
    str_eq m.role "tool"
    && (occurs_in "context_compaction" (content_text m)
        || occurs_in "Runner context compaction" (content_text m))

unfoldable pub is_shortened_assistant : Message → Bool
is_shortened_assistant m =
    str_eq m.role "assistant" && occurs_in "Runner context compaction" (content_text m)

unfoldable pub shortened_requests : Message → ℕ
shortened_requests m =
    if str_eq m.role "assistant"
    then count (λ (r : ToolRequest). occurs_in "_runner_context_compacted" r.arguments) m.tool_calls
    else 0

unfoldable pub retained_compaction_counts : List Message → Counts
unfolding is_shortened_answer is_shortened_assistant shortened_requests
retained_compaction_counts [] = no_counts
retained_compaction_counts (m ∷ ms) =
    let rest = retained_compaction_counts ms in
    record {
      tool_results_truncated = one_if (is_shortened_answer m) + rest.tool_results_truncated;
      assistant_content_truncated =
          one_if (is_shortened_assistant m) + rest.assistant_content_truncated;
      tool_arguments_truncated = shortened_requests m + rest.tool_arguments_truncated;
    }

pub record Report : Type 0 where
  pub original_characters : ℕ
  pub compacted_characters : ℕ
  pub original_messages : ℕ
  pub compacted_messages : ℕ
  pub messages_removed : ℕ
  pub recent_messages_retained : ℕ
  pub counts : Counts

-- The pinned messages and the checkpoint that open the new history.
unfoldable pub prefix_of : List Message → Message → List Message
prefix_of messages checkpoint = (split_base false messages).0 ++ checkpoint ∷ []

-- The blocks of the shortened history. Its counters are counted again on what is retained.
unfoldable pub history_blocks : Codec → ℕ → List Message → List (List Message)
history_blocks codec tool_content_limit messages =
    protocol_message_blocks
      (compact_each codec (usual_limits tool_content_limit) (split_base false messages).1
        no_counts).0

unfoldable pub retained_history : Codec → List Message → Message → ℕ → ℕ → Bool → List Message
retained_history codec messages checkpoint target tool_content_limit retain_recent_history =
    concat (
      if retain_recent_history
      then retained_blocks codec (prefix_of messages checkpoint) target
          (history_blocks codec tool_content_limit messages)
      else [])

-- `compact_message_history`
unfoldable pub compact_message_history :
    Codec → List Message → Message → ℕ → ℕ → Bool → List Message × Report
compact_message_history codec messages checkpoint target tool_content_limit retain_recent_history =
    let retained =
      retained_history codec messages checkpoint target tool_content_limit retain_recent_history in
    let compacted = prefix_of messages checkpoint ++ retained in
    (
      compacted,
      record {
        original_characters = json_size codec messages;
        compacted_characters = json_size codec compacted;
        original_messages = length messages;
        compacted_messages = length compacted;
        messages_removed = length messages - length (split_base false messages).0 - length retained;
        recent_messages_retained = length retained;
        counts = retained_compaction_counts retained;
      },
    )
