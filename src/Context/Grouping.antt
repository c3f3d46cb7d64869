-- ===== src/Context/Grouping.antt =====
-- The blocks against an independent account of them (apps/api/app/runner/engine.py).
use the_evil_repository.Prelude.{
  All, Bool-cases, List, [], ap, arith, false, if_rule, inl, inr, length, refl, subst, suc, true,
  zero, ℕ, ◌++◌, ◌∷◌, ◌≡◌, ◌≤◌,
}
use the_evil_repository.Context.Messages.{Message, ToolRequest}
use the_evil_repository.Context.Blocks.{
  answers, asks, blocks_from, concat, next_block, protocol_message_blocks, take_answers,
}

-- The next message, if there is one, is no answer to the calls.
pub data Stops (calls : List ToolRequest) : List Message → Type 0 where
  at_end : Stops calls []
  at_other : {m : Message} {ms : List Message} → answers calls m ≡ false → Stops calls (m ∷ ms)

-- A message without calls stands alone; one with calls stands with the answers that follow it,
-- up to the first message that is none.
pub data Grouped : List Message → List (List Message) → Type 0 where
  nothing : Grouped [] []
  alone :
      {m : Message} {ms : List Message} {blocks : List (List Message)}
      → asks m ≡ false
      → Grouped ms blocks
      → Grouped (m ∷ ms) ((m ∷ []) ∷ blocks)
  exchange :
      {m : Message} (replies : List Message) {ms : List Message} {blocks : List (List Message)}
      → asks m ≡ true
      → All (λ x. answers m.tool_calls x ≡ true) replies
      → Stops m.tool_calls ms
      → Grouped ms blocks
      → Grouped (m ∷ replies ++ ms) ((m ∷ replies) ∷ blocks)

-- The inner loop, as a description of its two results.
record IsTaken (calls : List ToolRequest) (ms : List Message) (r : List Message × List Message)
    : Type 0 where
  whole : r.0 ++ r.1 ≡ ms
  taken : All (λ x. answers calls x ≡ true) r.0
  stops : Stops calls r.1
  shorter : length r.1 ≤ length ms

take_answers-IsTaken :
    (calls : List ToolRequest) (ms : List Message) → IsTaken calls ms (take_answers calls ms)
unfolding take_answers
take_answers-IsTaken calls [] = record {
  whole = refl;
  taken = tt;
  stops = at_end;
  shorter = omega arith;
}
take_answers-IsTaken calls (m ∷ ms) =
    let rest = take_answers-IsTaken calls ms in
    if_rule (IsTaken calls (m ∷ ms)) (answers calls m)
      (λ e. record {
        whole = ap (λ x. m ∷ x) rest.whole;
        taken = (e, rest.taken);
        stops = rest.stops;
        shorter = omega (arith, rest.shorter);
      })
      (λ e. record { whole = refl; taken = tt; stops = at_other e; shorter = omega arith })

-- Fuel for every message is enough: the blocks are those that the account describes.
pub blocks_from-Grouped :
    (fuel : ℕ) (ms : List Message) → length ms ≤ fuel → Grouped ms (blocks_from fuel ms)
unfolding blocks_from next_block
blocks_from-Grouped zero [] h = nothing
blocks_from-Grouped zero (m ∷ ms) h = absurd (omega arith)
blocks_from-Grouped (suc fuel) [] h = nothing
blocks_from-Grouped (suc fuel) (m ∷ ms) h = elim (Bool-cases (asks m)) [
  | inl e ↦
      let taken = take_answers-IsTaken m.tool_calls ms in
      let later =
        blocks_from-Grouped fuel (take_answers m.tool_calls ms).1 (omega (arith, taken.shorter)) in
      let split = take_answers m.tool_calls ms in
      rw e (
        subst (λ x. Grouped (m ∷ x) ((m ∷ split.0) ∷ blocks_from fuel split.1)) taken.whole
          (exchange split.0 e taken.taken taken.stops later))
  | inr e ↦ rw e (alone e (blocks_from-Grouped fuel ms (omega arith)))
]

pub concat-Grouped :
    {ms : List Message} {blocks : List (List Message)} → Grouped ms blocks → concat blocks ≡ ms
concat-Grouped nothing = refl
concat-Grouped (alone {m = m} e g) = ap (λ x. m ∷ x) (concat-Grouped g)
concat-Grouped (exchange {m = m} replies e every s g) =
    ap (λ x. m ∷ replies ++ x) (concat-Grouped g)

next_block-shorter : (m : Message) (ms : List Message) → length (next_block m ms).1 ≤ length ms
unfolding next_block
next_block-shorter m ms =
    let taken = take_answers-IsTaken m.tool_calls ms in
    if_rule (λ (x : List Message × List Message). length x.1 ≤ length ms) (asks m)
      (λ e. taken.shorter) (λ e. omega arith)

-- More fuel than messages changes nothing.
blocks_from-enough :
    (a b : ℕ) (ms : List Message)
    → length ms ≤ a
    → length ms ≤ b
    → blocks_from a ms ≡ blocks_from b ms
unfolding blocks_from
blocks_from-enough zero zero ms ha hb = refl
blocks_from-enough zero (suc b) [] ha hb = refl
blocks_from-enough zero (suc b) (m ∷ ms) ha hb = absurd (omega arith)
blocks_from-enough (suc a) zero [] ha hb = refl
blocks_from-enough (suc a) zero (m ∷ ms) ha hb = absurd (omega arith)
blocks_from-enough (suc a) (suc b) [] ha hb = refl
blocks_from-enough (suc a) (suc b) (m ∷ ms) ha hb =
    let shorter = next_block-shorter m ms in
    ap (λ x. (next_block m ms).0 ∷ x)
      (blocks_from-enough a b (next_block m ms).1 (omega arith) (omega arith))

-- The loop ends with every message in a block, and however long it is allowed to run.
pub protocol_message_blocks-Grouped :
    (ms : List Message) (fuel : ℕ)
    → length ms ≤ fuel
    → Grouped ms (protocol_message_blocks ms)
      × (concat (protocol_message_blocks ms) ≡ ms)
      × (blocks_from fuel ms ≡ protocol_message_blocks ms)
unfolding protocol_message_blocks
protocol_message_blocks-Grouped ms fuel h =
    let grouped = blocks_from-Grouped (length ms) ms (omega arith) in
    (grouped, concat-Grouped grouped, blocks_from-enough fuel (length ms) ms h (omega arith))
