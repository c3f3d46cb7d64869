-- ===== src/Context/Blocks.antt =====
-- `protocol_message_blocks` of apps/api/app/runner/engine.py: an assistant's tool calls and the
-- answers that follow them stand in one block. The fuel is the number of messages.
use the_evil_repository.Prelude.{
  Bool, List, String, String-comparable, [], contains, get_or_else, if◌then◌else◌, length, not,
  str_eq, suc, zero, ℕ, ◌&&◌, ◌++◌, ◌==◌, ◌∷◌,
}
use the_evil_repository.Context.Messages.{Message, ToolRequest}

abbrev pub call_ids : List ToolRequest → List String
call_ids [] = []
call_ids (r ∷ rest) = r.id ∷ call_ids rest

-- `message.get("role") == "assistant" and message.get("tool_calls")`
unfoldable pub asks : Message → Bool
asks m = str_eq m.role "assistant" && not (length m.tool_calls == 0)

-- The message is a tool's answer to one of the calls.
unfoldable pub answers : List ToolRequest → Message → Bool
answers calls m = str_eq m.role "tool" && contains (get_or_else "" m.tool_call_id) (call_ids calls)

-- The inner loop: the answers that follow, and what comes after them.
unfoldable pub take_answers : List ToolRequest → List Message → List Message × List Message
take_answers calls [] = ([], [])
take_answers calls (m ∷ ms) =
    let rest = take_answers calls ms in
    if answers calls m then (m ∷ rest.0, rest.1) else ([], m ∷ ms)

-- A block and the messages after it.
unfoldable pub next_block : Message → List Message → List Message × List Message
next_block m ms =
    if asks m
    then (m ∷ (take_answers m.tool_calls ms).0, (take_answers m.tool_calls ms).1)
    else (m ∷ [], ms)

unfoldable pub blocks_from : ℕ → List Message → List (List Message)
blocks_from zero ms = []
blocks_from (suc fuel) [] = []
blocks_from (suc fuel) (m ∷ ms) = (next_block m ms).0 ∷ blocks_from fuel (next_block m ms).1

unfoldable pub protocol_message_blocks : List Message → List (List Message)
protocol_message_blocks ms = blocks_from (length ms) ms

abbrev pub concat {ℓ} : {A : Type ℓ} → List (List A) → List A
concat [] = []
concat (xs ∷ rest) = xs ++ concat rest
