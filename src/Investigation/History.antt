-- ===== src/Investigation/History.antt =====
-- The table of hypotheses against the log of their revisions (apps/api/app/investigation.py).
use the_evil_repository.Prelude.{
  All, All-append, Bool-cases, Dict, List, Option, String, [], ap, arith, count, count-append,
  eq_iff, find_last, has_key, if_rule, inl, inr, lookup, lookup-put, none, option_rule, put, refl,
  some, str_eq, ◌++◌, ◌+◌, ◌∙◌, ◌∷◌, ◌≡◌, ◌≤◌,
}
use the_evil_repository.Protocol.{Host, Number, below, millionths}
use the_evil_repository.Investigation.Numbering.{
  Consecutive, Consecutive-append_one, find_last-append_one, is_of, max_sequence-append_other,
  max_sequence-append_own,
}
use the_evil_repository.Investigation.Store.{
  Attempt, Evidence, Hypothesis, Revision, Store, clamped_unit, empty_store, link_evidence,
  max_sequence, record_evidence, record_hypothesis, relations, statuses, stored, value_error,
  write_hypothesis,
}

-- One recording, of any of the three kinds.
pub data Recording : Type 0 where
  hypothesis :
      (key statement status : String) (confidence : Number) (next_action reason : Option String)
      → Recording
  evidence_item :
      (host : Host) (key source_type source_ref summary : String) (trust : Number) → Recording
  edge :
      (source_type source_key target_type target_key relation : String) (weight : Number)
      (explanation : Option String)
      → Recording

abbrev pub attempt : Store → Recording → Attempt
unfolding record_hypothesis record_evidence link_evidence
attempt s (hypothesis key statement status confidence next_action reason) =
    record_hypothesis s key statement status confidence next_action reason
attempt s (evidence_item host key source_type source_ref summary trust) =
    record_evidence host s key source_type source_ref summary trust
attempt s (edge source_type source_key target_type target_key relation weight explanation) =
    link_evidence s source_type source_key target_type target_key relation weight explanation

-- An error leaves the tables as they were.
abbrev pub after_attempt : Store → Attempt → Store
after_attempt s (value_error e) = s
after_attempt s (stored t) = t

unfoldable pub record_all : Store → List Recording → Store
unfolding attempt
record_all s [] = s
record_all s (x ∷ rest) = record_all (after_attempt s (attempt s x)) rest

abbrev pub content_of : Option Revision → Option Hypothesis
content_of none = none
content_of (some r) = some r.content

-- The hypotheses are what the latest revisions say, the revisions of each are numbered 1, 2, 3 and
-- so on, and confidence and trust are at most 1.
pub record IsConsistent (s : Store) : Type 0 where
  pub current :
      (key : String) → lookup key s.hypotheses ≡ content_of (find_last (is_of key) s.revisions)
  pub numbered : (key : String) → max_sequence key s.revisions ≡ count (is_of key) s.revisions
  pub consecutive : Consecutive (λ key. 0) s.revisions
  pub confident : All (λ (r : Revision). r.content.confidence ≤ 1000000) s.revisions
  pub trusted : All (λ (e : String × Evidence). e.1.trust ≤ 1000000) s.evidence

All-put :
    {V : Type 0} (P : String × V → Type 0) (k : String) (v : V) (d : Dict V)
    → ((j : String) → P (j, v))
    → All P d
    → All P (put k v d)
All-put P k v [] h every = (h k, tt)
All-put P k v ((j, w) ∷ d) h every =
    if_rule (All P) (str_eq j k) (λ e. (h j, every.1)) (λ e. (every.0, All-put P k v d h every.1))

clamped_unit-le : (x : Number) → clamped_unit x ≤ 1000000
clamped_unit-le (millionths n) = omega arith
clamped_unit-le (below n) = omega arith

write_hypothesis-IsConsistent :
    (s : Store) (key : String) (content : Hypothesis) (reason : Option String)
    → content.confidence ≤ 1000000
    → IsConsistent s
    → IsConsistent (write_hypothesis s key content reason)
write_hypothesis-IsConsistent s key content reason bounded h =
    let r : Revision = record {
      hypothesis_key = key;
      sequence = 1 + max_sequence key s.revisions;
      content = content;
      reason = reason;
    } in
    record {
      current = λ j.
          let found = find_last-append_one (is_of j) s.revisions r in
          let before = h.current j in
          lookup-put key j content s.hypotheses ∙ elim (Bool-cases (str_eq key j)) [
            | inl e ↦
                let latest : find_last (is_of j) (s.revisions ++ r ∷ []) ≡ some r = rw e at found in
                rw (e, latest) refl
            | inr e ↦
                let latest : find_last (is_of j) (s.revisions ++ r ∷ [])
                    ≡ find_last (is_of j) s.revisions =
                  rw e at found in
                rw (e, latest) before
          ];
      numbered = λ j.
          let before = h.numbered j in
          let counted = count-append (is_of j) s.revisions (r ∷ []) in
          elim (Bool-cases (str_eq key j)) [
            | inl e ↦
                let same : max_sequence key s.revisions ≡ max_sequence j s.revisions =
                  ap (λ k. max_sequence k s.revisions) ((eq_iff key j).0 e) in
                let latest = max_sequence-append_own j s.revisions r e (omega (arith, same)) in
                ground (arith, latest, counted, before, same, e)
            | inr e ↦
                let latest = max_sequence-append_other j s.revisions r e in
                ground (arith, latest, counted, before, e)
          ];
      consecutive =
          Consecutive-append_one (λ k. 0) s.revisions r (omega (arith, h.numbered key))
            h.consecutive;
      confident =
          All-append (λ (x : Revision). x.content.confidence ≤ 1000000) s.revisions (r ∷ [])
            h.confident (bounded, tt);
      trusted = h.trusted;
    }

attempt-IsConsistent :
    (s : Store) (x : Recording) → IsConsistent s → IsConsistent (after_attempt s (attempt s x))
unfolding record_hypothesis record_evidence link_evidence
attempt-IsConsistent s (hypothesis key statement status confidence next_action reason) h =
    option_rule (λ a. IsConsistent (after_attempt s a)) (lookup status statuses) (λ e. h)
      (λ parsed e. write_hypothesis-IsConsistent s key _ reason (clamped_unit-le confidence) h)
attempt-IsConsistent s (evidence_item host key source_type source_ref summary trust) h =
    if_rule (λ a. IsConsistent (after_attempt s a)) (has_key key s.evidence) (λ e. h)
      (λ e. record {
        current = h.current;
        numbered = h.numbered;
        consecutive = h.consecutive;
        confident = h.confident;
        trusted =
            All-put (λ (e : String × Evidence). e.1.trust ≤ 1000000) key _ s.evidence
              (λ j. clamped_unit-le trust) h.trusted;
      })
attempt-IsConsistent s (edge st sk tt' tk relation weight explanation) h =
    option_rule (λ a. IsConsistent (after_attempt s a)) (lookup relation relations) (λ e. h)
      (λ parsed e. record {
        current = h.current;
        numbered = h.numbered;
        consecutive = h.consecutive;
        confident = h.confident;
        trusted = h.trusted;
      })

-- Whatever is recorded, and whichever recordings fail, consistent tables stay consistent: the
-- hypotheses are what their latest revisions say, the revisions of each are numbered 1, 2, 3 and so
-- on, and confidence and trust are at most 1.
pub record_all-IsConsistent :
    (s : Store) (xs : List Recording) → IsConsistent s → IsConsistent (record_all s xs)
unfolding record_all
record_all-IsConsistent s [] h = h
record_all-IsConsistent s (x ∷ rest) h =
    record_all-IsConsistent (after_attempt s (attempt s x)) rest (attempt-IsConsistent s x h)

pub empty_store-IsConsistent : IsConsistent empty_store
empty_store-IsConsistent = record {
  current = λ key. refl;
  numbered = λ key. refl;
  consecutive = tt;
  confident = tt;
  trusted = tt;
}
