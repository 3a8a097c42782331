-- ===== src/EventColumns/Names.antt =====
-- Which events have a column for averages.
use cubingnow.Prelude.{
  Bool, true, false, not, none, some, List, [], ◌∷◌, Text, text, text_eq, text_eq_iff, ◌≡◌, ◌↔◌,
  refl, sym, ap, ◌⊎◌, ◌&&◌, ◌||◌, inl, inr, arith, any, select, Bool-cases, if◌then◌else◌,
}
use cubingnow.Models.{single, average}
use cubingnow.EventColumns.{
  single_event_ids, has_no_average, average_event_ids, allowed_event_ids, field_of, event_field,
}

-- A text is in the selection if it is in the list and passes the test.
any-select :
    (q : Text → Bool) (a : Text) (xs : List Text)
    → any (text_eq a) (select q xs) ≡ (any (text_eq a) xs && q a)
any-select q a [] = refl
any-select q a (x ∷ xs) = elim (Bool-cases (text_eq a x)) [
  | inl same ↦
      let e : a ≡ x = (text_eq_iff a x).0 same in
      let q' : q x ≡ q a = ap q (sym e) in ground (arith, any-select q a xs)
  | inr other ↦ ground (arith, any-select q a xs)
]

has_no_average_iff :
    (a : Text) → (has_no_average a ≡ true) ↔ ((a ≡ text "333mbf") ⊎ (a ≡ text "333mbo"))
has_no_average_iff a =
    either (text_eq a (text "333mbf")) (text_eq a (text "333mbo")) (text_eq_iff a (text "333mbf"))
      (text_eq_iff a (text "333mbo"))
  where
    either :
        {P Q : Type 0} (b c : Bool)
        → ((b ≡ true) ↔ P)
        → ((c ≡ true) ↔ Q)
        → ((b || c) ≡ true) ↔ (P ⊎ Q)
    either true c p q = (λ h. inl (p.0 refl), λ h. refl)
    either false c p q =
        (λ h. inr (q.0 h), λ h. elim h [ inl x ↦ absurd (cc (p.1 x)) | inr y ↦ q.1 y ])

-- An event has no column for averages exactly when it has none for singles, or is "333mbf" or
-- "333mbo".
pub event_field-average_none_iff :
    (a : Text)
    → (event_field a average ≡ none)
      ↔ ((event_field a single ≡ none) ⊎ ((a ≡ text "333mbf") ⊎ (a ≡ text "333mbo")))
unfolding event_field allowed_event_ids average_event_ids
event_field-average_none_iff a =
    let e = any-select (λ x. not (has_no_average x)) a single_event_ids in
    rw e (split (any (text_eq a) single_event_ids) (has_no_average a) (has_no_average_iff a))
  where
    split :
        {P : Type 0} (b c : Bool)
        → ((c ≡ true) ↔ P)
        → ((if b && not c then some (field_of a) else none) ≡ none)
          ↔ (((if b then some (field_of a) else none) ≡ none) ⊎ P)
    split false c p = (λ h. inl refl, λ h. refl)
    split true true (to, from) = (λ h. inr (to refl), λ h. refl)
    split true false (to, from) =
        (λ h. absurd (cc h), λ h. elim h [ inl i ↦ absurd (cc i) | inr i ↦ absurd (cc (from i)) ])
