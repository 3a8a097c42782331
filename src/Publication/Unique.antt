-- ===== src/Publication/Unique.antt =====
-- Lists without repetition, and the deliveries that a publication creates.
use cubingnow.Prelude.{
  ℕ, suc, Bool, false, ◌&&◌, List, [], ◌∷◌, ◌++◌, map, ◌≡◌, ◌≢◌, refl, sym, ap, ◌∙◌, subst, inl,
  inr, arith, All, All-map, Bool-cases, ◌==◌, any, select,
}
use cubingnow.Delivery.{NotificationDelivery, NotificationEndpoint}
use cubingnow.Delivery.Places.{place, places, endpoint_pks}
use cubingnow.Reconciliation.Rows.{new_pk}
use cubingnow.Publication.{NotificationEvent, new_deliveries, is_missing, create_deliveries}

-- The list has no element twice.
abbrev pub Distinct {ℓ} : {A : Type ℓ} → List A → Type ℓ
Distinct [] = Unit
Distinct (x ∷ xs) = All (λ y. y ≢ x) xs × Distinct xs

All-append {ℓ κ} :
    {A : Type ℓ} (P : A → Type κ) (xs ys : List A) → All P xs → All P ys → All P (xs ++ ys)
All-append P [] ys h i = i
All-append P (x ∷ xs) ys h i = (h.0, All-append P xs ys h.1 i)

-- Elements of `ys` that are none of `xs` may follow them.
pub Distinct-append {ℓ} :
    {A : Type ℓ} (xs ys : List A)
    → Distinct xs
    → Distinct ys
    → All (λ y. All (λ x. y ≢ x) xs) ys
    → Distinct (xs ++ ys)
Distinct-append [] ys h i apart = i
Distinct-append (x ∷ xs) ys h i apart = (
  All-append (λ y. y ≢ x) xs ys h.0 (All-map _ (λ y. y ≢ x) ys (λ y a. a.0) apart),
  Distinct-append xs ys h.1 i (All-map _ (λ y. All (λ z. y ≢ z) xs) ys (λ y a. a.1) apart),
)

pks-select :
    (P : ℕ → Type 0) (p : NotificationEndpoint → Bool) (es : List NotificationEndpoint)
    → All P (endpoint_pks es)
    → All P (endpoint_pks (select p es))
pks-select P p [] h = tt
pks-select P p (e ∷ es) h = elim (Bool-cases (p e)) [
  | inl b ↦ rw b (h.0, pks-select P p es h.1)
  | inr b ↦ rw b (pks-select P p es h.1)
]

pub Distinct-select :
    (p : NotificationEndpoint → Bool) (es : List NotificationEndpoint)
    → Distinct (endpoint_pks es)
    → Distinct (endpoint_pks (select p es))
Distinct-select p [] h = tt
Distinct-select p (e ∷ es) h = elim (Bool-cases (p e)) [
  | inl b ↦ rw b (pks-select (λ k. k ≢ e.pk) p es h.0, Distinct-select p es h.1)
  | inr b ↦ rw b (Distinct-select p es h.1)
]

module _ (now : ℕ) (event : NotificationEvent) where
  abbrev at_event : List NotificationEndpoint → List (ℕ × ℕ)
  at_event es = map (λ (e : NotificationEndpoint). (event.id, e.pk)) es

  places-new_deliveries :
      (pk : ℕ) (es : List NotificationEndpoint)
      → places (new_deliveries pk now event es) ≡ at_event es
  unfolding new_deliveries
  places-new_deliveries pk [] = refl
  places-new_deliveries pk (e ∷ es) =
      ap (λ ps. (event.id, e.pk) ∷ ps) (places-new_deliveries (suc pk) es)

  at_event-apart :
      (k : ℕ) (es : List NotificationEndpoint)
      → All (λ x. x ≢ k) (endpoint_pks es)
      → All (λ y. y ≢ (event.id, k)) (at_event es)
  at_event-apart k [] h = tt
  at_event-apart k (e ∷ es) h =
      ((λ same. h.0 (ap (λ (q : ℕ × ℕ). q.1) same)), at_event-apart k es h.1)

  at_event-Distinct :
      (es : List NotificationEndpoint) → Distinct (endpoint_pks es) → Distinct (at_event es)
  at_event-Distinct [] h = tt
  at_event-Distinct (e ∷ es) h = (at_event-apart e.pk es h.0, at_event-Distinct es h.1)

  -- No delivery is for an endpoint that is missing.
  missing-apart :
      (e : NotificationEndpoint) (rows : List NotificationDelivery)
      → any (λ d. (d.event == event.id) && (d.endpoint == e.pk)) rows ≡ false
      → All (λ q. (event.id, e.pk) ≢ q) (places rows)
  missing-apart e [] h = tt
  missing-apart e (d ∷ rows) h =
      let here : ((d.event == event.id) && (d.endpoint == e.pk)) ≡ false = ground arith in
      let later : any (λ r. (r.event == event.id) && (r.endpoint == e.pk)) rows ≡ false =
        ground arith in
      (
        λ same.
            let ids : event.id ≡ d.event = ap (λ (q : ℕ × ℕ). q.0) same in
            let pks : e.pk ≡ d.endpoint = ap (λ (q : ℕ × ℕ). q.1) same in absurd (ground arith),
        missing-apart e rows later,
      )

  select-apart :
      (rows : List NotificationDelivery) (es : List NotificationEndpoint)
      → All (λ y. All (λ q. y ≢ q) (places rows)) (at_event (select (is_missing event rows) es))
  select-apart rows [] = tt
  select-apart rows (e ∷ es) = elim (Bool-cases (is_missing event rows e)) [
    | inr b ↦ rw b (select-apart rows es)
    | inl b ↦ rw b (missing-apart e rows (ground arith), select-apart rows es)
  ]

  pub create_deliveries-Distinct :
      (rows : List NotificationDelivery) (es : List NotificationEndpoint)
      → Distinct (places rows)
      → Distinct (endpoint_pks es)
      → Distinct (places (create_deliveries now event es rows))
  unfolding create_deliveries
  create_deliveries-Distinct rows es h unique =
      let missing = select (is_missing event rows) es in
      let pk = new_pk (map (λ (d : NotificationDelivery). d.pk) rows) in
      let made = places-new_deliveries pk missing in
      let parts = places-append rows (new_deliveries pk now event missing) in
      subst Distinct (sym (parts ∙ ap (λ ps. places rows ++ ps) made)) (
        Distinct-append (places rows) (at_event missing) h
          (at_event-Distinct missing (Distinct-select (is_missing event rows) es unique))
          (select-apart rows es))
    where
      places-append :
          (xs ys : List NotificationDelivery) → places (xs ++ ys) ≡ places xs ++ places ys
      places-append [] ys = refl
      places-append (x ∷ xs) ys = ap (λ ps. place x ∷ ps) (places-append xs ys)
