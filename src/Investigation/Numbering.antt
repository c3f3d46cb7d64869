-- ===== src/Investigation/Numbering.antt =====
-- The numbers of the revisions of a hypothesis (apps/api/app/investigation.py).
use the_evil_repository.Prelude.{
  Bool, Bool-cases, List, String, [], arith, count, count-append, false, find_last, if◌then◌else◌,
  inl, inr, max, refl, some, str_eq, true, ℕ, ◌++◌, ◌+◌, ◌∷◌, ◌≡◌, ◌≤◌,
}
use the_evil_repository.Investigation.Store.{Revision, max_sequence}

abbrev pub is_of : String → Revision → Bool
is_of key r = str_eq r.hypothesis_key key

-- The revisions of each hypothesis are numbered by one more than there are before them, from the
-- number that is given for it.
abbrev pub Consecutive : (String → ℕ) → List Revision → Type 0
Consecutive earlier [] = Unit
Consecutive earlier (r ∷ rs) =
    (r.sequence ≡ 1 + earlier r.hypothesis_key)
    × Consecutive (λ key. earlier key + count (is_of key) (r ∷ [])) rs

pub Consecutive-append_one :
    (earlier : String → ℕ) (rs : List Revision) (r : Revision)
    → r.sequence ≡ 1 + (earlier r.hypothesis_key + count (is_of r.hypothesis_key) rs)
    → Consecutive earlier rs
    → Consecutive earlier (rs ++ r ∷ [])
Consecutive-append_one earlier [] r e h = (omega (arith, e), tt)
Consecutive-append_one earlier (x ∷ rs) r e h =
    let split = count-append (is_of r.hypothesis_key) (x ∷ []) rs in
    (
      h.0,
      Consecutive-append_one (λ key. earlier key + count (is_of key) (x ∷ [])) rs r
          (omega (arith, e, split)) h.1,
    )

pub find_last-append_one :
    {A : Type 0} (test : A → Bool) (xs : List A) (y : A)
    → find_last test (xs ++ y ∷ []) ≡ (if test y then some y else find_last test xs)
find_last-append_one test [] y = refl
find_last-append_one test (x ∷ xs) y =
    let later = find_last-append_one test xs y in
    elim (Bool-cases (test y)) [
      | inl e ↦
          let found : find_last test (xs ++ y ∷ []) ≡ some y = rw e at later in rw (found, e) refl
      | inr e ↦
          let found : find_last test (xs ++ y ∷ []) ≡ find_last test xs = rw e at later in
          rw (found, e) refl
    ]

-- A revision numbered above those of its hypothesis is the new maximum, and that of no other.
pub max_sequence-append_own :
    (key : String) (rs : List Revision) (r : Revision)
    → is_of key r ≡ true
    → max_sequence key rs ≤ r.sequence
    → max_sequence key (rs ++ r ∷ []) ≡ r.sequence
max_sequence-append_own key [] r own h = rw own (omega arith)
max_sequence-append_own key (x ∷ rs) r own h = elim (Bool-cases (is_of key x)) [
  | inl e ↦
      let bound : max x.sequence (max_sequence key rs) ≤ r.sequence = rw e at h in
      rw e (omega (arith, bound, max_sequence-append_own key rs r own (omega (arith, bound))))
  | inr e ↦
      let bound : max_sequence key rs ≤ r.sequence = rw e at h in
      rw e (max_sequence-append_own key rs r own bound)
]

pub max_sequence-append_other :
    (key : String) (rs : List Revision) (r : Revision)
    → is_of key r ≡ false
    → max_sequence key (rs ++ r ∷ []) ≡ max_sequence key rs
max_sequence-append_other key [] r other = rw other refl
max_sequence-append_other key (x ∷ rs) r other = rw (max_sequence-append_other key rs r other) refl
