-- ===== src/Context/Codec.antt =====
-- UTF-8 sizes and slices of text, and what the interpreter's libraries compute for the compaction.
use Prim.Native.Char.{code, Char}
use text.Mathlib.TextLemmas.{nil-append, cons-append}
use the_evil_repository.Prelude.{
  Option, String, ap, arith, if_rule, if◌then◌else◌, leb, leb→le, ltb, ℕ, ◌+◌, ◌-◌, ◌<>◌, ◌≡◌, ◌≤◌,
}
use the_evil_repository.Protocol.{Json}

-- The bytes of a character in UTF-8.
abbrev pub char_bytes : Char → ℕ
char_bytes c =
    if ltb (code c) 0x80
    then 1
    else (if ltb (code c) 0x800 then 2 else (if ltb (code c) 0x10000 then 3 else 4))

-- `len(s.encode())`
abbrev pub utf8_size : String → ℕ
utf8_size String.[] = 0
utf8_size (String.◌∷◌ c s) = char_bytes c + utf8_size s

-- `s.encode()[:n].decode("utf-8", errors="ignore")`: a cut character is dropped.
abbrev pub first_bytes : ℕ → String → String
first_bytes n String.[] = String.[]
first_bytes n (String.◌∷◌ c s) =
    let rest = first_bytes (n - char_bytes c) s in
    if leb (char_bytes c) n then String.◌∷◌ c rest else String.[]

-- `s.encode()[-n:].decode("utf-8", errors="ignore")`, for a positive n.
abbrev pub last_bytes : ℕ → String → String
last_bytes n String.[] = String.[]
last_bytes n (String.◌∷◌ c s) =
    let rest = last_bytes n s in if leb (utf8_size (String.◌∷◌ c s)) n then String.◌∷◌ c s else rest

-- The interpreter's libraries: the hexadecimal SHA-256 of a text, `json.dumps` with sorted keys
-- and with the compact separators, `json.loads` with nothing for a decoding error, `str` of a
-- JSON value that is no text, and the float computation `round(n * 0.7)`.
pub record Codec : Type 0 where
  pub sha256 : String → String
  pub dumps : Json → String
  pub dumps_compact : Json → String
  pub loads : String → Option Json
  pub shown : Json → String
  pub seven_tenths : ℕ → ℕ

-- Rounding seven tenths of a whole number gives no more than the number.
abbrev pub IsRounding : Codec → Type 0
IsRounding codec = (n : ℕ) → codec.seven_tenths n ≤ n

pub utf8_size-append : (s t : String) → utf8_size (s <> t) ≡ utf8_size s + utf8_size t
utf8_size-append String.[] t = omega (arith, ap utf8_size (nil-append t))
utf8_size-append (String.◌∷◌ c s) t =
    omega (arith, ap utf8_size (cons-append c s t), utf8_size-append s t)

pub utf8_size-first_bytes : (n : ℕ) (s : String) → utf8_size (first_bytes n s) ≤ n
utf8_size-first_bytes n String.[] = omega arith
utf8_size-first_bytes n (String.◌∷◌ c s) =
    let shorter = utf8_size-first_bytes (n - char_bytes c) s in
    if_rule (λ x. utf8_size x ≤ n) (leb (char_bytes c) n)
      (λ e. let fits = leb→le (char_bytes c) n e in omega arith) (λ e. omega arith)

pub utf8_size-last_bytes : (n : ℕ) (s : String) → utf8_size (last_bytes n s) ≤ n
utf8_size-last_bytes n String.[] = omega arith
utf8_size-last_bytes n (String.◌∷◌ c s) =
    if_rule (λ x. utf8_size x ≤ n) (leb (utf8_size (String.◌∷◌ c s)) n)
      (λ e. leb→le (utf8_size (String.◌∷◌ c s)) n e) (λ e. utf8_size-last_bytes n s)
