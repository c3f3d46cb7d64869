-- ===== src/Engine/Shown.antt =====
-- What the model sees of a tool result (apps/api/app/runner/engine.py).
use text.Mathlib.TextLemmas.{
  nil-append, cons-append, length-cons, length-append as characters-append,
}
use the_evil_repository.Prelude.{
  Bool-cases, List, Some, Some-map, String, String-comparable, [], ap, arith, characters, contains,
  eq_iff, first_chars, get_or_else, here, if_rule, inl, inr, leb, leb→le, lookup, lookup-put, ltb,
  not, option_rule, refl, some, str_eq, suc, sym, there, true, zero, ℕ, ◌+◌, ◌-◌, ◌<>◌, ◌∙◌, ◌∷◌,
  ◌≡◌, ◌≤◌, ◌⊎◌,
}
use the_evil_repository.Context.Codec.{utf8_size}
use the_evil_repository.Engine.Process.{parallel_safe_tools}
use the_evil_repository.Engine.Visible.{
  Answer, Cache, VisibleResult, cache_after, drop_chars, head_size, last_chars, limited_output,
  model_visible_result, newlines, omitted, repeated_output, shrink_tail, truncate_output,
  truncation_marker, whole_output,
}

-- The result of an earlier call with the same signature and the same output.
pub record IsRepeated (earlier a : Answer) : Type 0 where
  pub same_signature : earlier.signature ≡ a.signature
  pub same_output : earlier.output ≡ a.output

-- What is shown of a result, after others: the whole; a reference to an earlier result; or a head
-- and a tail around a marker with the bytes between them, within the limit unless no tail is left.
pub data IsShown (limit : ℕ) (history : List Answer) (a : Answer) (v : VisibleResult) : Type 0 where
  entire :
      v ≡ whole_output a
      → (contains a.name parallel_safe_tools ≡ true → characters a.output ≤ limit)
      → IsShown limit history a v
  repetition :
      Some (λ x. IsRepeated x a × (v ≡ repeated_output x.ordinal a)) history
      → IsShown limit history a v
  shortened :
      (head left_out tail : String)
      → a.output ≡ head <> (left_out <> tail)
      → v.output ≡ head <> (truncation_marker left_out <> tail)
      → (v.display_truncated_bytes ≡ utf8_size left_out)
        × (v.display_truncated_lines ≡ newlines left_out)
        × (v.truncated ≡ true)
      → (characters v.output ≤ limit) ⊎ (tail ≡ "")
      → IsShown limit history a v

first-drop : (n : ℕ) (s : String) → s ≡ first_chars n s <> drop_chars n s
first-drop zero s = sym (nil-append s)
first-drop (suc n) String.[] = sym (nil-append String.[])
first-drop (suc n) (String.◌∷◌ c s) =
    ap (String.◌∷◌ c) (first-drop n s) ∙ sym (cons-append c (first_chars n s) (drop_chars n s))

drop_nil : (n : ℕ) → drop_chars n String.[] ≡ String.[]
drop_nil zero = refl
drop_nil (suc n) = refl

drop-drop : (m n : ℕ) (s : String) → drop_chars m (drop_chars n s) ≡ drop_chars (n + m) s
drop-drop m zero s = ap (λ k. drop_chars k s) (omega arith)
drop-drop m (suc n) String.[] = drop_nil m ∙ sym (drop_nil (suc n + m))
drop-drop m (suc n) (String.◌∷◌ c s) =
    let same : suc (n + m) ≡ suc n + m = omega arith in
    drop-drop m n s ∙ ap (λ k. drop_chars k (String.◌∷◌ c s)) same

drop-all : (s : String) → drop_chars (characters s) s ≡ ""
drop-all String.[] = refl
drop-all (String.◌∷◌ c s) = ap (λ k. drop_chars k (String.◌∷◌ c s)) (length-cons c s) ∙ drop-all s

-- The three parts make up the text.
parts :
    (s : String) (head tail : ℕ)
    → head + tail ≤ characters s
    → s ≡ first_chars head s <> (omitted s head tail <> last_chars tail s)
parts s head tail h =
    let between = characters s - tail - head in
    first-drop head s
    ∙ ap (λ x. first_chars head s <> x)
        (first-drop between (drop_chars head s)
          ∙ ap (λ x. first_chars between (drop_chars head s) <> x)
              (drop-drop between head s ∙ ap (λ k. drop_chars k s) (omega (arith, h))))

shrink_tail-le : (s : String) (limit head tail : ℕ) → shrink_tail s limit head tail ≤ tail
unfolding shrink_tail
shrink_tail-le s limit head zero = omega arith
shrink_tail-le s limit head (suc tail) =
    let less = shrink_tail-le s limit head tail in
    if_rule (λ n. n ≤ suc tail)
      (ltb limit (
        characters (first_chars head s)
        + characters (truncation_marker (omitted s head (suc tail)))
        + characters (last_chars (suc tail) s)))
      (λ p. omega (arith, less)) (λ p. omega arith)

-- The parts that are shown fit, or no tail is left.
abbrev Fits : String → ℕ → ℕ → ℕ → Type 0
Fits s limit head tail =
    (characters (first_chars head s)
        + characters (truncation_marker (omitted s head tail))
        + characters (last_chars tail s)
      ≤ limit)
    ⊎ (tail ≡ 0)

shrink_tail-Fits :
    (s : String) (limit head tail : ℕ) → Fits s limit head (shrink_tail s limit head tail)
unfolding shrink_tail
shrink_tail-Fits s limit head zero = inr refl
shrink_tail-Fits s limit head (suc tail) =
    let size =
      characters (first_chars head s)
      + characters (truncation_marker (omitted s head (suc tail)))
      + characters (last_chars (suc tail) s) in
    if_rule (Fits s limit head) (ltb limit size) (λ p. shrink_tail-Fits s limit head tail)
      (λ p. inl (ground (arith, p)))

characters-three :
    (s t u : String) → characters (s <> t <> u) ≡ characters s + characters t + characters u
characters-three s t u = omega (arith, characters-append s (t <> u), characters-append t u)

last_chars-zero : (s : String) (n : ℕ) → n ≡ 0 → last_chars n s ≡ ""
last_chars-zero s n h =
    let all : characters s - n ≡ characters s = omega (arith, h) in
    ap (λ k. drop_chars k s) all ∙ drop-all s

limited_output-IsShown :
    (limit : ℕ) (history : List Answer) (a : Answer)
    → IsShown limit history a (limited_output limit a)
unfolding limited_output truncate_output
limited_output-IsShown limit history a =
    let s = a.output in
    let head = head_size limit in
    let tail = shrink_tail s limit head (limit - head) in
    elim (Bool-cases (leb (characters s) limit)) [
      | inl fits ↦ rw fits (entire refl (λ _. leb→le (characters s) limit fits))
      | inr long ↦
          let small = shrink_tail-le s limit head (limit - head) in
          rw long (
            shortened (first_chars head s) (omitted s head tail) (last_chars tail s)
              (parts s head tail (ground (arith, small, long))) refl (refl, refl, refl)
              (elim (shrink_tail-Fits s limit head (limit - head)) [
                | inl room ↦ inl (
                    omega (
                      arith,
                      room,
                      characters-three (first_chars head s)
                          (truncation_marker (omitted s head tail)) (last_chars tail s),
                    ))
                | inr empty ↦ inr (last_chars-zero s tail empty)
              ]))
    ]

-- What the cache holds after a result was held before, or is that of the result.
cache_after-one :
    (limit : ℕ) (cache : Cache) (a : Answer) (signature : String) (o : ℕ × String)
    → lookup signature (model_visible_result limit cache a).0 ≡ some o
    → (lookup signature cache ≡ some o) ⊎ ((a.signature ≡ signature) × ((a.ordinal, a.output) ≡ o))
unfolding model_visible_result
cache_after-one limit cache a signature o =
    let holds = λ (x : Cache × VisibleResult).
      lookup signature x.0 ≡ some o
      → (lookup signature cache ≡ some o)
        ⊎ ((a.signature ≡ signature) × ((a.ordinal, a.output) ≡ o)) in
    if_rule holds (not (contains a.name parallel_safe_tools)) (λ p h. inl h)
      (λ p.
        option_rule holds (lookup a.signature cache)
          (λ q h.
            let found = sym (lookup-put a.signature signature (a.ordinal, a.output) cache) ∙ h in
            elim (Bool-cases (str_eq a.signature signature)) [
              | inl e ↦ inr (
                (eq_iff a.signature signature).0 e,
                ap (get_or_else (a.ordinal, a.output)) (
                    let put_there : some (a.ordinal, a.output) ≡ some o = rw e at found in
                    put_there),
              )
              | inr e ↦ inl (rw e at found)
            ])
          (λ c q. if_rule holds (str_eq c.1 a.output) (λ r h. inl h) (λ r h. inl h)))

cache_after-all :
    (limit : ℕ) (cache : Cache) (answers : List Answer) (signature : String) (o : ℕ × String)
    → lookup signature (cache_after limit cache answers) ≡ some o
    → (lookup signature cache ≡ some o)
      ⊎ Some (λ (x : Answer). (x.signature ≡ signature) × ((x.ordinal, x.output) ≡ o)) answers
unfolding cache_after
cache_after-all limit cache [] signature o h = inl h
cache_after-all limit cache (a ∷ rest) signature o h =
    elim (cache_after-all limit (model_visible_result limit cache a).0 rest signature o h) [
      | inr later ↦ inr (there later)
      | inl now ↦ elim (cache_after-one limit cache a signature o now) [
        | inl before ↦ inl before
        | inr same ↦ inr (here same)
      ]
    ]

-- Whatever results were shown before, what is shown of the next is one of three things: the whole
-- output, which if the tool may run in parallel is within the limit; a reference to the ordinal of
-- an earlier result whose call has the same signature, and whose output is the same; or a head and
-- a tail of the output around a marker with the number of the bytes between them, which is within
-- the limit unless no tail is left, with the bytes and line ends between them counted.
pub model_visible_result-IsShown :
    (limit : ℕ) (history : List Answer) (a : Answer)
    → IsShown limit history a (model_visible_result limit (cache_after limit [] history) a).1
unfolding model_visible_result
model_visible_result-IsShown limit history a =
    let cache = cache_after limit [] history in
    let shown = λ (x : Cache × VisibleResult). IsShown limit history a x.1 in
    if_rule shown (not (contains a.name parallel_safe_tools))
      (λ p. entire refl (λ safe. absurd (ground (arith, p, safe))))
      (λ p.
        option_rule shown (lookup a.signature cache) (λ q. limited_output-IsShown limit history a)
          (λ c q.
            if_rule shown (str_eq c.1 a.output)
              (λ r. elim (cache_after-all limit [] history a.signature c q) [
                | inl none_yet ↦ absurd (cc)
                | inr found ↦ repetition (
                    Some-map
                      (λ x same. (
                        record {
                          same_signature = same.0;
                          same_output =
                              ap (λ (y : ℕ × String). y.1) same.1 ∙ (eq_iff c.1 a.output).0 r;
                        },
                        ap (λ (y : ℕ × String). repeated_output y.0 a) (sym same.1),
                      ))
                      found)
              ])
              (λ r. limited_output-IsShown limit history a)))
