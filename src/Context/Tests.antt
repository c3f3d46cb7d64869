-- ===== src/Context/Tests.antt =====
-- A short conversation, its compaction, and the theorems at this input
-- (apps/api/app/runner/engine.py).
use the_evil_repository.Prelude.{
  List, String, [], arith, decimal, length, map, none, refl, some, true, ◌*◌, ◌/◌, ◌<>◌, ◌∷◌, ◌≡◌,
}
use the_evil_repository.Protocol.{
  Fields, Items, Json, array, end, field, item, nil, num, object, text,
}
use the_evil_repository.Context.Codec.{Codec, IsRounding, utf8_size}
use the_evil_repository.Context.Shorten.{
  IsShort, bounded_text, compact_tool_result_content, compact_tool_result_content-IsShort,
  head_budget, marker, short_payload, shortened, text_of,
}
use the_evil_repository.Context.Messages.{
  Message, compact_answer, compact_assistant, compact_history_message, compact_request,
  compacted_arguments, json_size, message_fields, request_fields,
}
use the_evil_repository.Context.Blocks.{
  answers, asks, blocks_from, concat, next_block, protocol_message_blocks, take_answers,
}
use the_evil_repository.Context.Grouping.{Grouped, protocol_message_blocks-Grouped}
use the_evil_repository.Context.Compact.{
  compact_each, compact_message_history, history_blocks, is_shortened_answer,
  is_shortened_assistant, last_resort, place, prefix_of, retained_blocks,
  retained_compaction_counts, retained_history, reversed, select_blocks, shortened_requests,
  split_base,
}
use the_evil_repository.Context.Window.{IsWindow, select_blocks-IsWindow}
use the_evil_repository.Context.Compaction.{IsCompacted, compact_message_history-IsCompacted}

mutual
  render : Json → String
  render (text s) = "'" <> s <> "'"
  render (num n) = decimal n
  render (array items) = "[" <> render_items items
  render (object fields) = "{" <> render_fields fields
  render _ = "-"

  render_items : Items → String
  render_items nil = "]"
  render_items (item v rest) = render v <> "," <> render_items rest

  render_fields : Fields → String
  render_fields end = "}"
  render_fields (field k v rest) = k <> ":" <> render v <> "," <> render_fields rest

abbrev plain : Codec
plain = record {
  sha256 = λ s. "0123456789abcdef0123";
  dumps = render;
  dumps_compact = render;
  loads = λ s. none;
  shown = render;
  seven_tenths = λ n. n * 7 / 10;
}

plain-IsRounding : IsRounding plain
plain-IsRounding n = omega arith

abbrev says : String → String → Message
says role content = record {
  role = role;
  content = some content;
  tool_calls = [];
  tool_call_id = none;
}

abbrev asking : Message
asking = record {
  role = "assistant";
  content = none;
  tool_calls = record { id = "a"; name = "read_file"; arguments = "{}"; metadata = end } ∷ [];
  tool_call_id = none;
}

abbrev answering : Message
answering = record {
  role = "tool";
  content = some "text of the file";
  tool_calls = [];
  tool_call_id = some "a";
}

abbrev talk : List Message
talk =
    says "system" "rules"
    ∷ says "user" "go"
    ∷ asking
    ∷ answering
    ∷ says "user" "RUNNER_CONTEXT_CHECKPOINT_V1 old"
    ∷ says "assistant" "done"
    ∷ []

abbrev checkpoint : Message
checkpoint = says "user" "RUNNER_CONTEXT_CHECKPOINT_V1 new"

-- What the tests compute with.
runs : Unit {0}
unfolding compact_message_history retained_history history_blocks prefix_of retained_blocks
    last_resort select_blocks compact_each split_base place compact_history_message compact_answer
    compact_assistant compact_request compacted_arguments compact_tool_result_content shortened
    short_payload bounded_text marker head_budget text_of protocol_message_blocks blocks_from
    next_block take_answers answers asks json_size message_fields request_fields
    retained_compaction_counts is_shortened_answer is_shortened_assistant shortened_requests decimal
    render render_items render_fields
runs = tt

talk-blocks :
    map (λ (b : List Message). length b) (protocol_message_blocks talk) ≡ 1 ∷ 1 ∷ 2 ∷ 1 ∷ 1 ∷ []
unfolding runs
talk-blocks = refl

-- With room for all, the old checkpoint alone goes; with little room, only the last message stays.
talk-compacted :
    let wide = compact_message_history plain talk checkpoint 1000 12000 true in
    let narrow = compact_message_history plain talk checkpoint 230 12000 true in
    let none_left = compact_message_history plain talk checkpoint 100 12000 true in
    (length wide.0 ≡ 6)
    × (wide.1.messages_removed ≡ 1)
    × (length narrow.0 ≡ 4)
    × (narrow.1.messages_removed ≡ 3)
    × (length none_left.0 ≡ 3)
unfolding runs
talk-compacted = (refl, refl, refl, refl, refl)

cut :
    utf8_size (
      bounded_text plain
        "0123456789 0123456789 0123456789 0123456789 0123456789 0123456789 0123456789 0123456789 0123456789"
        90)
    ≡ 90
unfolding runs
cut = refl

protocol_message_blocks-Grouped_example :
    Grouped talk (protocol_message_blocks talk)
    × (concat (protocol_message_blocks talk) ≡ talk)
    × (blocks_from 9 talk ≡ protocol_message_blocks talk)
protocol_message_blocks-Grouped_example = protocol_message_blocks-Grouped talk 9 (omega arith)

select_blocks-IsWindow_example :
    IsWindow plain talk 300
      (protocol_message_blocks talk)
      (select_blocks plain talk 300 (reversed (protocol_message_blocks talk)) [])
select_blocks-IsWindow_example =
    select_blocks-IsWindow plain talk 300 (protocol_message_blocks talk)

compact_message_history-IsCompacted_example :
    IsCompacted plain talk checkpoint 230
      (compact_message_history plain talk checkpoint 230 12000 true)
compact_message_history-IsCompacted_example =
    compact_message_history-IsCompacted plain talk checkpoint 230 12000 true

compact_tool_result_content-IsShort_example :
    IsShort "a long answer of a tool" 12
      (compact_tool_result_content plain "a long answer of a tool" 12)
compact_tool_result_content-IsShort_example =
    compact_tool_result_content-IsShort plain plain-IsRounding "a long answer of a tool" 12
