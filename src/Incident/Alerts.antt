-- ===== src/Incident/Alerts.antt =====
-- Tickets are announced by `advance` (apps/api/app/scenario/incident.py) once each, when due.
use text.Mathlib.TextEquality.{eq_iff}
use the_evil_repository.Prelude.{
  Bool, Bool-cases, Dict, List, String, String-comparable, [], add, ap, arith, contains, eq_iff,
  false, if_rule, inl, inr, min, not, refl, str_eq, subst, sym, true, ℕ, ◌&&◌, ◌++◌, ◌+◌, ◌==◌,
  ◌||◌, ◌∷◌, ◌≡◌,
}
use the_evil_repository.Incident.State.{Director, Ticket}
use the_evil_repository.Incident.Clock.{add_all, advance, is_visible, newly_visible, sample}

contains-append :
    (a : String) (xs ys : List String) → contains a (xs ++ ys) ≡ (contains a xs || contains a ys)
contains-append a [] ys = refl
contains-append a (x ∷ xs) ys = ground (arith, contains-append a xs ys)

contains-add :
    (a b : String) (xs : List String) → contains a (add b xs) ≡ (str_eq a b || contains a xs)
contains-add a b xs = elim (Bool-cases (contains b xs)) [
  | inl old ↦ rw old (elim (Bool-cases (str_eq a b)) [
    | inl e ↦
        let same = (eq_iff a b).0 e in rw (e, subst (λ x. contains x xs ≡ true) (sym same) old)
    | inr e ↦ rw e
  ])
  | inr new ↦ rw (new, contains-append a xs (b ∷ [])) (ground arith)
]

contains-add_all :
    (a : String) (names xs : List String)
    → contains a (add_all names xs) ≡ (contains a names || contains a xs)
contains-add_all a [] xs = refl
contains-add_all a (b ∷ names) xs =
    ground (arith, contains-add_all a names (add b xs), contains-add a b xs)

-- A ticket that is due at a tick.
abbrev pub is_due : ℕ → String → Dict Ticket → Bool
is_due tick id [] = false
is_due tick id ((j, ticket) ∷ rest) = (str_eq id j && is_visible tick ticket) || is_due tick id rest

contains-newly_visible :
    (tick : ℕ) (id : String) (activated : List String) (tickets : Dict Ticket)
    → contains id (newly_visible tick activated tickets)
      ≡ (is_due tick id tickets && not (contains id activated))
contains-newly_visible tick id activated [] = refl
contains-newly_visible tick id activated ((j, ticket) ∷ rest) =
    let ih = contains-newly_visible tick id activated rest in
    elim (Bool-cases (str_eq id j)) [
      | inl e ↦
          let same = (eq_iff id j).0 e in
          let known : contains j activated ≡ contains id activated =
            ap (λ x. contains x activated) (sym same) in
          ground (arith, ih)
      | inr e ↦ ground (arith, ih)
    ]

announced_at :
    (tickets : Dict Ticket) (activated : List String) (id : String) (tick : ℕ)
    → let announced = newly_visible tick activated tickets in
      (contains id announced ≡ (is_due tick id tickets && not (contains id activated)))
      × (contains id (add_all announced activated)
          ≡ (is_due tick id tickets || contains id activated))
announced_at tickets activated id tick =
    let announced = newly_visible tick activated tickets in
    let e = contains-newly_visible tick id activated tickets in
    let f = contains-add_all id announced activated in (e, ground arith)

-- `advance` announces exactly the tickets that are due at the new tick and were not activated
-- before; afterwards the activated ones are those from before and those that are due.
pub advance-announces :
    (d : Director) (id : String)
    → let (after, announced) = advance d in
      (contains id announced
        ≡ (is_due after.tick id d.plan.tickets && not (contains id d.activated)))
      × (contains id after.activated
          ≡ (is_due after.tick id d.plan.tickets || contains id d.activated))
unfolding advance sample
advance-announces d id =
    let next = min d.horizon (d.tick + 1) in
    let at_next = announced_at d.plan.tickets d.activated id next in
    if_rule
      (λ (m : Director).
        (contains id (newly_visible next m.activated m.plan.tickets)
          ≡ (is_due m.tick id d.plan.tickets && not (contains id d.activated)))
        × (contains id (add_all (newly_visible next m.activated m.plan.tickets) m.activated)
            ≡ (is_due m.tick id d.plan.tickets || contains id d.activated)))
      (next == d.tick) {x = d} {y = sample d next}
      (λ e.
        let same : next ≡ d.tick = ground arith in
        subst
          (λ t.
            (contains id (newly_visible next d.activated d.plan.tickets)
              ≡ (is_due t id d.plan.tickets && not (contains id d.activated)))
            × (contains id (add_all (newly_visible next d.activated d.plan.tickets) d.activated)
                ≡ (is_due t id d.plan.tickets || contains id d.activated)))
          same at_next)
      (λ _. at_next)
