-- ===== src/Publication/Deserves.antt =====
-- Which levels of a processed result are to be published, apart from the guards of the code.
use cubingnow.Prelude.{
  ℕ, Bool, true, false, ◌&&◌, ◌||◌, List, [], ◌∷◌, text, text_eq, text_eq_iff, eq_ℤ, eq_ℤ_iff, ◌≡◌,
  ◌↔◌, refl, sym, ap, ◌∙◌, ◌⊎◌, inl, inr, arith, Exists, any, ◌==◌, ==_iff, is_some, if◌then◌else◌,
}
use cubingnow.Models.{
  RecordLevel, world, continental, national, personal, CanonicalResult, Outcome, broken, tied,
  Recognition, recognized, ValidationStatus,
}
use cubingnow.RecordValidation.{level_text, Validation}
use cubingnow.Classification.Rows.{Row, level_of}
use cubingnow.Publication.Payload.{notification_type_of}
use cubingnow.Publication.Processed.{
  is_verified, is_recognized, is_record, trusted_result, validates, independently_verified,
  is_publishable,
}

is_verified_iff : (s : ValidationStatus) → (is_verified s ≡ true) ↔ (s ≡ ValidationStatus.verified)
is_verified_iff ValidationStatus.verified = (λ h. refl, λ h. refl)
is_verified_iff ValidationStatus.pending = (λ h. cc, λ h. cc)
is_verified_iff ValidationStatus.rejected = (λ h. cc, λ h. cc)

is_record_iff : (o : Outcome) → (is_record o ≡ true) ↔ ((o ≡ broken) ⊎ (o ≡ tied))
is_record_iff broken = (λ h. inl refl, λ h. refl)
is_record_iff tied = (λ h. inr refl, λ h. refl)
is_record_iff Outcome.none =
    (λ h. absurd (cc h), λ h. elim h [ inl e ↦ absurd (cc e) | inr e ↦ absurd (cc e) ])

is_recognized_iff : (r : Recognition) → (is_recognized r ≡ true) ↔ (r ≡ recognized)
is_recognized_iff recognized = (λ h. refl, λ h. refl)
is_recognized_iff Recognition.not_applicable = (λ h. cc, λ h. cc)
is_recognized_iff Recognition.superseded_same_round = (λ h. cc, λ h. cc)
is_recognized_iff Recognition.superseded_same_day = (λ h. cc, λ h. cc)

-- The first letter of a level's text tells the level.
level_at : ℕ → RecordLevel
level_at c =
    if c == 87
    then world
    else if c == 67
    then continental
    else if c == 78
    then national
    else personal

level_text_injective : (l m : RecordLevel) → level_text l ≡ level_text m → l ≡ m
unfolding level_at
level_text_injective l m h = sym (back l) ∙ ap (λ t. level_at (first t)) h ∙ back m
  where
    first : List ℕ → ℕ
    first [] = 0
    first (c ∷ t) = c

    back : (x : RecordLevel) → level_at (first (level_text x)) ≡ x
    back world = refl
    back continental = refl
    back national = refl
    back personal = refl

module _ (validations : List (ℕ × Validation)) (head : CanonicalResult) (row : Row) where
  -- A comparison of this very value with the official records of the level, which it equals or beats.
  abbrev pub Verifies : RecordLevel → ℕ × Validation → Type 0
  Verifies level (owner, v) =
      (owner ≡ row.result.canonical_result)
      × (v.level ≡ level)
      × (v.result_value ≡ row.result.value)
      × (v.matches ≡ true)

  -- A valid result of the head's present revision, trusted or verified, that broke or tied the record
  -- of the level and is recognized.
  abbrev pub Deserves : RecordLevel → Type 0
  Deserves level =
      (row.result.is_valid_result ≡ true)
      × (((row.result.validation_status ≡ ValidationStatus.verified)
            × (row.result.validation_reason ≡ text "trusted_source_observation"))
          ⊎ Exists (Verifies level) validations)
      × (head.revision ≡ row.result.canonical_revision)
      × (((level_of level row).classification_outcome ≡ broken)
          ⊎ ((level_of level row).classification_outcome ≡ tied))
      × ((level_of level row).recognition_status ≡ recognized)

  and_split : (a b : Bool) → (a && b) ≡ true → (a ≡ true) × (b ≡ true)
  and_split a b h = (ground arith, ground arith)

  and_join : (a b : Bool) → a ≡ true → b ≡ true → (a && b) ≡ true
  and_join a b h k = ground arith

  or_iff :
      {P Q : Type 0} (a b : Bool)
      → ((a ≡ true) ↔ P)
      → ((b ≡ true) ↔ Q)
      → ((a || b) ≡ true) ↔ (P ⊎ Q)
  or_iff true b p q = (λ h. inl (p.0 refl), λ h. refl)
  or_iff false b p q =
      (λ h. inr (q.0 h), λ h. elim h [ inl x ↦ absurd (cc (p.1 x)) | inr y ↦ q.1 y ])

  validates_iff :
      (level : RecordLevel) (x : ℕ × Validation)
      → (validates row.result level x ≡ true) ↔ Verifies level x
  validates_iff level (owner, v) = (
    λ h.
        let (abc, d) = and_split _ v.matches h in
        let (ab, c) = and_split _ (eq_ℤ v.result_value row.result.value) abc in
        let (a, b) =
          and_split (owner == row.result.canonical_result)
            (text_eq (level_text v.level) (level_text level)) ab in
        (
          (==_iff owner row.result.canonical_result).0 a,
          level_text_injective v.level level
              ((text_eq_iff (level_text v.level) (level_text level)).0 b),
          (eq_ℤ_iff v.result_value row.result.value).0 c,
          d,
        ),
    λ (a, b, c, d).
        and_join _ v.matches
          (and_join _ (eq_ℤ v.result_value row.result.value)
            (and_join (owner == row.result.canonical_result)
              (text_eq (level_text v.level) (level_text level))
              ((==_iff owner row.result.canonical_result).1 a)
              ((text_eq_iff (level_text v.level) (level_text level)).1 (ap level_text b)))
            ((eq_ℤ_iff v.result_value row.result.value).1 c))
          d,
  )

  verified_iff :
      (level : RecordLevel) (vs : List (ℕ × Validation))
      → (any (validates row.result level) vs ≡ true) ↔ Exists (Verifies level) vs
  verified_iff level [] = (λ h. absurd (cc h), λ h. absurd h)
  verified_iff level (v ∷ vs) =
      or_iff (validates row.result level v) (any (validates row.result level) vs)
        (validates_iff level v) (verified_iff level vs)

  trusted_iff : (trusted_result row.result ≡ true) ↔ (
      (row.result.validation_status ≡ ValidationStatus.verified)
      × (row.result.validation_reason ≡ text "trusted_source_observation"))
  trusted_iff =
      let (to, from) = is_verified_iff row.result.validation_status in
      let (read, write) =
        text_eq_iff row.result.validation_reason (text "trusted_source_observation") in
      (
        λ h.
            let (a, b) = and_split (is_verified row.result.validation_status) _ h in (to a, read b),
        λ (a, b). and_join (is_verified row.result.validation_status) _ (from a) (write b),
      )

  pub is_publishable_iff :
      (level : RecordLevel)
      → is_some (notification_type_of level) ≡ true
      → (is_publishable validations head row level ≡ true) ↔ Deserves level
  unfolding is_publishable
  is_publishable_iff level typed =
      let (sure, surely) =
        or_iff (trusted_result row.result) (independently_verified validations row.result level)
          trusted_iff (verified_iff level validations) in
      let (same, samely) = ==_iff head.revision row.result.canonical_revision in
      let (counts, count) = is_record_iff (level_of level row).classification_outcome in
      let (stays, stay) = is_recognized_iff (level_of level row).recognition_status in
      (
        λ h.
            let (h5, f) = and_split _ (is_recognized (level_of level row).recognition_status) h in
            let (h4, e) = and_split _ (is_record (level_of level row).classification_outcome) h5 in
            let (h3, d) = and_split _ (is_some (notification_type_of level)) h4 in
            let (h2, c) = and_split _ (head.revision == row.result.canonical_revision) h3 in
            let (a, b) = and_split row.result.is_valid_result _ h2 in
            (a, sure b, same c, counts e, stays f),
        λ (a, b, c, e, f).
            and_join _ (is_recognized (level_of level row).recognition_status)
              (and_join _ (is_record (level_of level row).classification_outcome)
                (and_join _ (is_some (notification_type_of level))
                  (and_join _ (head.revision == row.result.canonical_revision)
                    (and_join row.result.is_valid_result _ a (surely b)) (samely c))
                  typed)
                (count e))
              (stay f),
      )

  -- A level that is to be published is among those that `publish_safely` reads.
  pub Deserves-read :
      (level : RecordLevel)
      → Deserves level
      → (is_record (level_of level row).classification_outcome
          && is_recognized (level_of level row).recognition_status)
        ≡ true
  Deserves-read level (a, b, c, e, f) =
      and_join (is_record (level_of level row).classification_outcome) _
        ((is_record_iff (level_of level row).classification_outcome).1 e)
        ((is_recognized_iff (level_of level row).recognition_status).1 f)
