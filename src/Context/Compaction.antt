-- ===== src/Context/Compaction.antt =====
-- The whole of `compact_message_history` (apps/api/app/runner/engine.py): what the new history
-- opens with, its size, and the count of its messages.
use mathlib.Core.List.{append-nil}
use the_evil_repository.Prelude.{
  Bool, List, [], ap, arith, false, if_rule, inl, inr, keep, last_or, leb, leb→le, length,
  length-append, not, occurs_in, refl, str_eq, subst, suc, sym, true, ℕ, ◌&&◌, ◌++◌, ◌+◌, ◌||◌, ◌∙◌,
  ◌∷◌, ◌≡◌, ◌≤◌, ◌⊎◌,
}
use the_evil_repository.Context.Codec.{Codec}
use the_evil_repository.Context.Messages.{
  Counts, Limits, Message, compact_history_message, content_text, json_size, no_counts,
}
use the_evil_repository.Context.Blocks.{concat, protocol_message_blocks}
use the_evil_repository.Context.Compact.{
  Report, aggressive_limits, checkpoint_marker, compact_each, compact_message_history,
  history_blocks, last_resort, pins_user, place, prefix_of, retained_blocks, retained_history,
  reversed, select_blocks, split_base, usual_limits,
}
use the_evil_repository.Context.Window.{select_blocks-IsWindow}
use the_evil_repository.Context.Grouping.{protocol_message_blocks-Grouped}

-- A message of the system that is no earlier checkpoint.
abbrev pub is_system_message : Message → Bool
is_system_message m = not (occurs_in checkpoint_marker (content_text m)) && str_eq m.role "system"

split_base-system :
    (pinned : Bool) (ms : List Message)
    → keep is_system_message (split_base pinned ms).0 ≡ keep is_system_message ms
unfolding split_base place
split_base-system pinned [] = refl
split_base-system pinned (m ∷ ms) =
    ground (arith, split_base-system (pinned || pins_user (place pinned m)) ms)

split_base-length :
    (pinned : Bool) (ms : List Message)
    → length (split_base pinned ms).0 + length (split_base pinned ms).1 ≤ length ms
unfolding split_base
split_base-length pinned [] = omega arith
split_base-length pinned (m ∷ ms) =
    ground (arith, split_base-length (pinned || pins_user (place pinned m)) ms)

length-compact_each :
    (codec : Codec) (limits : Limits) (ms : List Message) (counts : Counts)
    → length (compact_each codec limits ms counts).0 ≡ length ms
unfolding compact_each
length-compact_each codec limits [] counts = refl
length-compact_each codec limits (m ∷ ms) counts =
    ap suc (length-compact_each codec limits ms (compact_history_message codec limits m counts).1)

length-concat_append :
    (xs ys : List (List Message))
    → length (concat (xs ++ ys)) ≡ length (concat xs) + length (concat ys)
length-concat_append [] ys = omega arith
length-concat_append (x ∷ xs) ys = omega (
  arith,
  length-append x (concat (xs ++ ys)),
  length-append x (concat xs),
  length-concat_append xs ys,
)

length-last_or :
    (b : List Message) (blocks : List (List Message))
    → length (last_or b blocks) ≤ length (concat (b ∷ blocks))
length-last_or b [] = omega (arith, length-append b [])
length-last_or b (c ∷ blocks) =
    omega (arith, length-last_or c blocks, length-append b (concat (c ∷ blocks)))

-- The blocks that are kept: none, or as many as fit; in all no more messages than there were.
record IsKept (codec : Codec) (prefix : List Message) (target : ℕ)
    (blocks kept : List (List Message)) : Type 0 where
  fits : (kept ≡ []) ⊎ (json_size codec (prefix ++ concat kept) ≤ target)
  fewer : length (concat kept) ≤ length (concat blocks)

last_resort-IsKept :
    (codec : Codec) (prefix : List Message) (target : ℕ) (blocks : List (List Message))
    → IsKept codec prefix target blocks (last_resort codec prefix target blocks)
unfolding last_resort
last_resort-IsKept codec prefix target [] = record { fits = inl refl; fewer = omega arith }
last_resort-IsKept codec prefix target (b ∷ blocks) =
    let short = (compact_each codec aggressive_limits (last_or b blocks) no_counts).0 in
    if_rule (IsKept codec prefix target (b ∷ blocks))
      (leb (json_size codec (prefix ++ short)) target)
      (λ e. record {
        fits = inr (
            subst (λ x. json_size codec (prefix ++ x) ≤ target) (sym (append-nil short))
              (leb→le (json_size codec (prefix ++ short)) target e));
        fewer = omega (
          arith,
          length-append short [],
          length-last_or b blocks,
          length-compact_each codec aggressive_limits (last_or b blocks) no_counts,
        );
      })
      (λ e. record { fits = inl refl; fewer = omega arith })

retained_blocks-IsKept :
    (codec : Codec) (prefix : List Message) (target : ℕ) (blocks : List (List Message))
    → IsKept codec prefix target blocks (retained_blocks codec prefix target blocks)
unfolding retained_blocks
retained_blocks-IsKept codec prefix target blocks =
    let window = select_blocks-IsWindow codec prefix target blocks in
    let kept = select_blocks codec prefix target (reversed blocks) [] in
    let resort = last_resort codec prefix target blocks in
    chosen kept window.fits (
      omega
        (arith, length-concat_append window.dropped kept, ap (λ x. length (concat x)) window.whole))
  where
    chosen :
        (kept : List (List Message))
        → (kept ≡ []) ⊎ (json_size codec (prefix ++ concat kept) ≤ target)
        → length (concat kept) ≤ length (concat blocks)
        → IsKept codec prefix target blocks
            (elim kept [ [] ↦ last_resort codec prefix target blocks | b ∷ rest ↦ b ∷ rest ])
    chosen [] fits fewer = last_resort-IsKept codec prefix target blocks
    chosen (b ∷ rest) fits fewer = record { fits = fits; fewer = fewer }

-- The retained messages: none, or they fit; they are no more than the history.
record IsRetained (codec : Codec) (messages : List Message) (checkpoint : Message) (target : ℕ)
    (retained : List Message) : Type 0 where
  fits : (retained ≡ []) ⊎ (json_size codec (prefix_of messages checkpoint ++ retained) ≤ target)
  fewer : length retained ≤ length (split_base false messages).1

retained_history-IsRetained :
    (codec : Codec) (messages : List Message) (checkpoint : Message) (target limit : ℕ)
    (retain : Bool)
    → IsRetained codec messages checkpoint target
        (retained_history codec messages checkpoint target limit retain)
unfolding retained_history history_blocks
retained_history-IsRetained codec messages checkpoint target limit false = record {
  fits = inl refl;
  fewer = omega arith;
}
retained_history-IsRetained codec messages checkpoint target limit true =
    let history = (split_base false messages).1 in
    let short = (compact_each codec (usual_limits limit) history no_counts).0 in
    let kept =
      retained_blocks-IsKept codec (prefix_of messages checkpoint) target
        (protocol_message_blocks short) in
    record {
      fits = elim kept.fits [ inl e ↦ inl (ap concat e) | inr h ↦ inr h ];
      fewer = omega (
        arith,
        kept.fewer,
        ap (λ x. length x) (protocol_message_blocks-Grouped short (length short) (omega arith)).1,
        length-compact_each codec (usual_limits limit) history no_counts,
      );
    }

-- What the compaction gives: the pinned messages and the checkpoint, then what is retained. It
-- fits, unless nothing is retained. No message is lost from the count.
pub record IsCompacted (codec : Codec) (messages : List Message) (checkpoint : Message) (target : ℕ)
    (r : List Message × Report) : Type 0 where
  pub retained : List Message
  pub opens : r.0 ≡ prefix_of messages checkpoint ++ retained
  pub fits : (r.0 ≡ prefix_of messages checkpoint) ⊎ (r.1.compacted_characters ≤ target)
  pub measured : r.1.compacted_characters ≡ json_size codec r.0
  pub pinned :
      keep is_system_message (split_base false messages).0 ≡ keep is_system_message messages
  pub accounted : r.1.compacted_messages + r.1.messages_removed ≡ suc (length messages)
  pub counted : length r.0 ≡ r.1.compacted_messages
  pub retains : r.1.recent_messages_retained ≤ length (split_base false messages).1

pub compact_message_history-IsCompacted :
    (codec : Codec) (messages : List Message) (checkpoint : Message) (target limit : ℕ)
    (retain : Bool)
    → IsCompacted codec messages checkpoint target
        (compact_message_history codec messages checkpoint target limit retain)
unfolding compact_message_history prefix_of
compact_message_history-IsCompacted codec messages checkpoint target limit retain =
    let retained = retained_history codec messages checkpoint target limit retain in
    let kept = retained_history-IsRetained codec messages checkpoint target limit retain in
    let base = (split_base false messages).0 in
    let bounded = split_base-length false messages in
    record {
      retained = retained;
      opens = refl;
      fits = elim kept.fits [
        | inl e ↦ inl (
            ap (λ x. prefix_of messages checkpoint ++ x) e
            ∙ append-nil (prefix_of messages checkpoint))
        | inr h ↦ inr h
      ];
      measured = refl;
      pinned = split_base-system false messages;
      accounted = omega (
        arith,
        bounded,
        kept.fewer,
        length-append (prefix_of messages checkpoint) retained,
        length-append base (checkpoint ∷ []),
      );
      counted = refl;
      retains = kept.fewer;
    }
