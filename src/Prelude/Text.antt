-- ===== src/Prelude/Text.antt =====
-- Python text: equality, order, stripping, and numbers printed in decimal.
use Prim.Native.Char.{code}
use Prim.Native.String.{String}
use Prim.Native.String
use Prim.Native.Nat.{ℕ, zero, suc, ◌/◌, ◌%◌, ◌-◌}
use mathlib.Core.Bool.{Bool, true, false, ◌||◌, ◌&&◌}
use mathlib.Core.List.{List, [], ◌∷◌}
pub use text.Mathlib.Text.{starts_with}
use text.Mathlib.Text.{◌==◌ as text_eq, is_le}
use the_evil_repository.Prelude.Tests.{if◌then◌else◌, leb, ◌==◌}

abbrev pub str_eq : String → String → Bool
str_eq a b = text_eq a b

-- `a <= b` on `str`: by code points.
abbrev pub str_le : String → String → Bool
str_le a b = is_le (String.compare a b)

infixr 65 ◌<>◌
abbrev pub ◌<>◌ : String → String → String
a <> b = String.◌++◌ a b

abbrev pub is_empty : String → Bool
is_empty String.[] = true
is_empty (String.◌∷◌ c s) = false

-- The code points of which `str.isspace` holds.
unfoldable pub is_space : ℕ → Bool
is_space c =
    (leb 9 c && leb c 13)
    || (leb 28 c && leb c 32)
    || c == 0x85
    || c == 0xa0
    || c == 0x1680
    || (leb 0x2000 c && leb c 0x200a)
    || c == 0x2028
    || c == 0x2029
    || c == 0x202f
    || c == 0x205f
    || c == 0x3000

pub strip_left : String → String
unfolding is_space
strip_left String.[] = String.[]
strip_left (String.◌∷◌ c s) =
    let rest = strip_left s in if is_space (code c) then rest else String.◌∷◌ c s

pub strip_right : String → String
unfolding is_space
strip_right String.[] = String.[]
strip_right (String.◌∷◌ c s) =
    let rest = strip_right s in
    if is_empty rest && is_space (code c) then String.[] else String.◌∷◌ c rest

-- `str.strip()`
unfoldable pub strip : String → String
unfolding strip_left strip_right
strip s = strip_left (strip_right s)

pub digit : ℕ → String
digit zero = "0"
digit (suc zero) = "1"
digit (suc (suc zero)) = "2"
digit (suc (suc (suc zero))) = "3"
digit (suc (suc (suc (suc zero)))) = "4"
digit (suc (suc (suc (suc (suc zero))))) = "5"
digit (suc (suc (suc (suc (suc (suc zero)))))) = "6"
digit (suc (suc (suc (suc (suc (suc (suc zero))))))) = "7"
digit (suc (suc (suc (suc (suc (suc (suc (suc zero)))))))) = "8"
digit (suc (suc (suc (suc (suc (suc (suc (suc (suc n))))))))) = "9"

-- The decimal digits of `n` above those in `tail`; a number has fewer digits than units.
pub decimal_from : ℕ → ℕ → String → String
unfolding digit
decimal_from zero n tail = tail
decimal_from (suc fuel) n tail =
    let rest = decimal_from fuel (n / 10) (digit (n % 10) <> tail) in if n == 0 then tail else rest

-- `str(n)`
unfoldable pub decimal : ℕ → String
unfolding decimal_from
decimal n = if n == 0 then "0" else decimal_from n n ""

pub zeros : ℕ → String
zeros zero = ""
zeros (suc n) = "0" <> zeros n

-- `f"{n:0{width}d}"`
unfoldable pub padded : ℕ → ℕ → String
unfolding decimal zeros
padded width n = zeros (width - String.count (decimal n)) <> decimal n

-- `s[:n]`
abbrev pub first_chars : ℕ → String → String
first_chars zero s = String.[]
first_chars (suc n) String.[] = String.[]
first_chars (suc n) (String.◌∷◌ c s) = String.◌∷◌ c (first_chars n s)

abbrev pub join : String → List String → String
join sep [] = ""
join sep (x ∷ []) = x
join sep (x ∷ y ∷ rest) = x <> sep <> join sep (y ∷ rest)

-- `needle in s`
abbrev pub occurs_in : String → String → Bool
occurs_in needle String.[] = is_empty needle
occurs_in needle (String.◌∷◌ c s) = starts_with (String.◌∷◌ c s) needle || occurs_in needle s

-- `s.lstrip(chars)`, by a test on code points.
abbrev pub drop_leading : (ℕ → Bool) → String → String
drop_leading test String.[] = String.[]
drop_leading test (String.◌∷◌ c s) =
    let rest = drop_leading test s in if test (code c) then rest else String.◌∷◌ c s

-- `s.rstrip(chars)`
abbrev pub drop_trailing : (ℕ → Bool) → String → String
drop_trailing test String.[] = String.[]
drop_trailing test (String.◌∷◌ c s) =
    let rest = drop_trailing test s in
    if is_empty rest && test (code c) then String.[] else String.◌∷◌ c rest

-- `s.split(sep, 1)[0]` and `s.rsplit(sep, 1)[-1]`, by a test on code points.
abbrev pub before_first : (ℕ → Bool) → String → String
before_first test String.[] = String.[]
before_first test (String.◌∷◌ c s) =
    let rest = before_first test s in if test (code c) then String.[] else String.◌∷◌ c rest

abbrev pub has_char : (ℕ → Bool) → String → Bool
has_char test String.[] = false
has_char test (String.◌∷◌ c s) = test (code c) || has_char test s

abbrev pub after_last : (ℕ → Bool) → String → String
after_last test String.[] = String.[]
after_last test (String.◌∷◌ c s) =
    let rest = after_last test s in
    if has_char test s then rest else (if test (code c) then s else String.◌∷◌ c s)

-- The words of `s.split()`: the letters before the next space, and the words after it.
abbrev pub words_from : String → String × List String
words_from String.[] = (String.[], [])
words_from (String.◌∷◌ c s) =
    let rest = words_from s in
    if is_space (code c)
    then (String.[], if is_empty rest.0 then rest.1 else rest.0 ∷ rest.1)
    else (String.◌∷◌ c rest.0, rest.1)

-- `s.split()`
abbrev pub words : String → List String
words s = let parts = words_from s in if is_empty parts.0 then parts.1 else parts.0 ∷ parts.1

-- `all(test(c) for c in s)`
abbrev pub all_chars : (ℕ → Bool) → String → Bool
all_chars test String.[] = true
all_chars test (String.◌∷◌ c s) = test (code c) && all_chars test s

-- `s.replace(c, "")`, for the character with this code point.
abbrev pub without_char : ℕ → String → String
without_char n String.[] = String.[]
without_char n (String.◌∷◌ c s) =
    let rest = without_char n s in if code c == n then rest else String.◌∷◌ c rest

-- `len(s)`
abbrev pub characters : String → ℕ
characters s = String.count s
