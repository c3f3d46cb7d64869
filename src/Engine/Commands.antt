-- ===== src/Engine/Commands.antt =====
-- Which commands `boundary_violation` finds (apps/api/app/runner/engine.py).
use the_evil_repository.Prelude.{
  All, Bool, Bool-cases, List, String, [], ap, false, if_rule, if◌then◌else◌, inl, inr, not, refl,
  subst, sym, true, ◌&&◌, ◌++◌, ◌||◌, ◌↔◌, ◌∙◌, ◌∷◌, ◌≡◌,
}
use the_evil_repository.Engine.Guards.{Lexer, is_assignment, is_forbidden, is_operator, scan_tokens}

-- A command may start behind these tokens: they end in an operator or, if one may start before
-- them, there are none.
abbrev pub may_start : Bool → List String → Bool
may_start b [] = b
may_start b (t ∷ ts) = may_start (is_operator t) ts

may_start-any : (b : Bool) (ts : List String) → may_start false ts ≡ true → may_start b ts ≡ true
may_start-any b [] h = absurd (cc)
may_start-any b (t ∷ ts) h = h

-- Among the tokens, where a command may start, variables are set and then a forbidden program is
-- run.
pub record Launches (lexer : Lexer) (b : Bool) (tokens : List String) : Type 0 where
  pub before : List String
  pub settings : List String
  pub program : String
  pub rest : List String
  pub split : tokens ≡ before ++ (settings ++ program ∷ rest)
  pub starts : may_start b before ≡ true
  pub set : All (λ t. (is_operator t ≡ false) × (is_assignment lexer t ≡ true)) settings
  pub is_word : is_operator program ≡ false
  pub is_run : is_assignment lexer program ≡ false
  pub forbidden : is_forbidden program ≡ true

module _ (lexer : Lexer) where
  scan-operator :
      (b : Bool) (t : String) (ts : List String)
      → is_operator t ≡ true
      → scan_tokens lexer b (t ∷ ts) ≡ scan_tokens lexer true ts
  unfolding scan_tokens
  scan-operator true t ts h = rw h refl
  scan-operator false t ts h = rw h refl

  scan-inside :
      (t : String) (ts : List String)
      → is_operator t ≡ false
      → scan_tokens lexer false (t ∷ ts) ≡ scan_tokens lexer false ts
  unfolding scan_tokens
  scan-inside t ts h = rw h refl

  scan-assignment :
      (t : String) (ts : List String)
      → is_operator t ≡ false
      → is_assignment lexer t ≡ true
      → scan_tokens lexer true (t ∷ ts) ≡ scan_tokens lexer true ts
  unfolding scan_tokens
  scan-assignment t ts h a = rw (h, a) refl

  scan-program :
      (t : String) (ts : List String)
      → is_operator t ≡ false
      → is_assignment lexer t ≡ false
      → scan_tokens lexer true (t ∷ ts)
        ≡ (if is_forbidden t then true else scan_tokens lexer false ts)
  unfolding scan_tokens
  scan-program t ts h a = rw (h, a) refl

  -- A token in front of those among which a program is run.
  behind :
      {b c : Bool} (t : String) {ts : List String} (l : Launches lexer b ts)
      → may_start c (t ∷ l.before) ≡ true
      → Launches lexer c (t ∷ ts)
  behind t l h = record {
    before = t ∷ l.before;
    settings = l.settings;
    program = l.program;
    rest = l.rest;
    split = ap (λ xs. t ∷ xs) l.split;
    starts = h;
    set = l.set;
    is_word = l.is_word;
    is_run = l.is_run;
    forbidden = l.forbidden;
  }

  behind_assignment :
      (t : String) {ts : List String}
      → is_operator t ≡ false
      → is_assignment lexer t ≡ true
      → Launches lexer true ts
      → Launches lexer true (t ∷ ts)
  behind_assignment t {ts} h a l = of_before l.before l.split l.starts
    where
      of_before :
          (before : List String)
          → ts ≡ before ++ (l.settings ++ l.program ∷ l.rest)
          → may_start true before ≡ true
          → Launches lexer true (t ∷ ts)
      of_before [] split starts = record {
        before = [];
        settings = t ∷ l.settings;
        program = l.program;
        rest = l.rest;
        split = ap (λ xs. t ∷ xs) split;
        starts = refl;
        set = ((h, a), l.set);
        is_word = l.is_word;
        is_run = l.is_run;
        forbidden = l.forbidden;
      }
      of_before (x ∷ before) split starts = record {
        before = t ∷ x ∷ before;
        settings = l.settings;
        program = l.program;
        rest = l.rest;
        split = ap (λ xs. t ∷ xs) split;
        starts = starts;
        set = l.set;
        is_word = l.is_word;
        is_run = l.is_run;
        forbidden = l.forbidden;
      }

  scan_tokens-Launches :
      (b : Bool) (ts : List String) → scan_tokens lexer b ts ≡ true → Launches lexer b ts
  unfolding scan_tokens
  scan_tokens-Launches b [] h = absurd (cc)
  scan_tokens-Launches b (t ∷ ts) h = elim (Bool-cases (is_operator t)) [
    | inl o ↦
        let l = scan_tokens-Launches true ts (sym (scan-operator b t ts o) ∙ h) in
        behind t l (subst (λ x. may_start x l.before ≡ true) (sym o) l.starts)
    | inr o ↦ of_word b h o (scan_tokens-Launches true ts) (scan_tokens-Launches false ts)
  ]
    where
      passed :
          (c : Bool) → is_operator t ≡ false → Launches lexer false ts → Launches lexer c (t ∷ ts)
      passed c o l = behind t l (subst (λ x. may_start x l.before ≡ true) (sym o) l.starts)

      of_word :
          (c : Bool)
          → scan_tokens lexer c (t ∷ ts) ≡ true
          → is_operator t ≡ false
          → (scan_tokens lexer true ts ≡ true → Launches lexer true ts)
          → (scan_tokens lexer false ts ≡ true → Launches lexer false ts)
          → Launches lexer c (t ∷ ts)
      of_word false g o ih_true ih_false = passed false o (ih_false (sym (scan-inside t ts o) ∙ g))
      of_word true g o ih_true ih_false = elim (Bool-cases (is_assignment lexer t)) [
        | inl a ↦ behind_assignment t o a (ih_true (sym (scan-assignment t ts o a) ∙ g))
        | inr a ↦
            let seen = sym (scan-program t ts o a) ∙ g in
            elim (Bool-cases (is_forbidden t)) [
              | inl f ↦ record {
                before = [];
                settings = [];
                program = t;
                rest = ts;
                split = refl;
                starts = refl;
                set = tt;
                is_word = o;
                is_run = a;
                forbidden = f;
              }
              | inr f ↦
                  passed true o (
                    ih_false
                      (let later : scan_tokens lexer false ts ≡ true = rw f at seen in later))
            ]
      ]

  scan-settings :
      (settings : List String) (program : String) (rest : List String)
      → All (λ t. (is_operator t ≡ false) × (is_assignment lexer t ≡ true)) settings
      → is_operator program ≡ false
      → is_assignment lexer program ≡ false
      → is_forbidden program ≡ true
      → scan_tokens lexer true (settings ++ program ∷ rest) ≡ true
  scan-settings [] program rest every o a f = scan-program program rest o a ∙ rw f refl
  scan-settings (t ∷ settings) program rest every o a f =
      scan-assignment t (settings ++ program ∷ rest) every.0.0 every.0.1
      ∙ scan-settings settings program rest every.1 o a f

  -- What is found behind a token is found with it.
  scan-later :
      (b : Bool) (t : String) (ts : List String)
      → scan_tokens lexer (is_operator t || (b && is_assignment lexer t)) ts ≡ true
      → scan_tokens lexer b (t ∷ ts) ≡ true
  unfolding scan_tokens
  scan-later b t ts h =
      if_rule (λ x. x ≡ true)
        (b && not (is_operator t) && not (is_assignment lexer t) && is_forbidden t) (λ p. refl)
        (λ p. h)

  scan-before :
      (b : Bool) (before ts : List String)
      → may_start b before ≡ true
      → scan_tokens lexer true ts ≡ true
      → scan_tokens lexer b (before ++ ts) ≡ true
  scan-before b [] ts start h = rw start h
  scan-before b (t ∷ before) ts start h = scan-later b t (before ++ ts) (
      scan-before (is_operator t || (b && is_assignment lexer t)) before ts
        (elim (Bool-cases (is_operator t)) [
          | inl o ↦ rw o (rw o at start)
          | inr o ↦
              may_start-any _ before
                (let still : may_start false before ≡ true = rw o at start in still)
        ])
        h)

  pub scan_tokens_iff :
      (b : Bool) (ts : List String) → (scan_tokens lexer b ts ≡ true) ↔ Launches lexer b ts
  scan_tokens_iff b ts = (
    scan_tokens-Launches b ts,
    λ l.
        ap (scan_tokens lexer b) l.split
        ∙ scan-before b l.before (l.settings ++ l.program ∷ l.rest) l.starts
            (scan-settings l.settings l.program l.rest l.set l.is_word l.is_run l.forbidden),
  )
