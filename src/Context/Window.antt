-- ===== src/Context/Window.antt =====
-- What `compact_message_history` keeps (apps/api/app/runner/engine.py).
use mathlib.Core.List.{append_assoc, append-nil}
use the_evil_repository.Prelude.{
  List, [], ap, arith, if_rule, inl, inr, ltb, ltb→lt, refl, subst, sym, ℕ, ◌++◌, ◌<◌, ◌∙◌, ◌∷◌,
  ◌≡◌, ◌≤◌, ◌⊎◌,
}
use the_evil_repository.Context.Codec.{Codec}
use the_evil_repository.Context.Messages.{Message, json_size}
use the_evil_repository.Context.Blocks.{concat}
use the_evil_repository.Context.Compact.{reversed, select_blocks}

reversed-append : {A : Type 0} (xs : List A) (y : A) → reversed (xs ++ y ∷ []) ≡ y ∷ reversed xs
reversed-append [] y = refl
reversed-append (x ∷ xs) y = ap (λ r. r ++ x ∷ []) (reversed-append xs y)

reversed_twice : {A : Type 0} (xs : List A) → reversed (reversed xs) ≡ xs
reversed_twice [] = refl
reversed_twice (x ∷ xs) = reversed-append (reversed xs) x ∙ ap (λ r. x ∷ r) (reversed_twice xs)

module _ (codec : Codec) (prefix : List Message) (target : ℕ) where
  abbrev pub window_size : List (List Message) → ℕ
  window_size blocks = json_size codec (prefix ++ concat blocks)

  -- A window of the latest blocks that fits, unless it is empty, and that no earlier block fits
  -- into.
  pub record IsWindow (blocks kept : List (List Message)) : Type 0 where
    pub dropped : List (List Message)
    pub whole : dropped ++ kept ≡ blocks
    pub fits : (kept ≡ []) ⊎ (window_size kept ≤ target)
    pub longest :
        (dropped ≡ [])
        ⊎ (front : List (List Message)) × (b : List Message) × (dropped ≡ front ++ b ∷ [])
          × (target < window_size (b ∷ kept))

  select_blocks-IsWindow_from :
      (earlier selected : List (List Message))
      → (selected ≡ []) ⊎ (window_size selected ≤ target)
      → IsWindow (reversed earlier ++ selected) (select_blocks codec prefix target earlier selected)
  unfolding select_blocks
  select_blocks-IsWindow_from [] selected h = record {
    dropped = [];
    whole = refl;
    fits = h;
    longest = inl refl;
  }
  select_blocks-IsWindow_from (b ∷ earlier) selected h =
      if_rule (IsWindow (reversed (b ∷ earlier) ++ selected))
        (ltb target (window_size (b ∷ selected)))
        (λ e. record {
          dropped = reversed earlier ++ b ∷ [];
          whole = refl;
          fits = h;
          longest = inr (reversed earlier, b, refl, ltb→lt target (window_size (b ∷ selected)) e);
        })
        (λ e.
          subst (λ x. IsWindow x (select_blocks codec prefix target earlier (b ∷ selected)))
            (sym (append_assoc (reversed earlier) (b ∷ []) selected))
            (select_blocks-IsWindow_from earlier (b ∷ selected) (inr (ground arith))))

  -- The loop selects such a window of all blocks.
  pub select_blocks-IsWindow :
      (blocks : List (List Message))
      → IsWindow blocks (select_blocks codec prefix target (reversed blocks) [])
  select_blocks-IsWindow blocks =
      subst (λ x. IsWindow x (select_blocks codec prefix target (reversed blocks) []))
        (append-nil (reversed (reversed blocks)) ∙ reversed_twice blocks)
        (select_blocks-IsWindow_from (reversed blocks) [] (inl refl))
