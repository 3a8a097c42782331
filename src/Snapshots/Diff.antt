-- ===== src/Snapshots/Diff.antt =====
-- Every key is in the part of the difference that it belongs to, and in no other.
use cubingnow.Prelude.{
  Bool, true, false, not, ◌&&◌, ◌||◌, Option, none, some, List, [], ◌∷◌, Text, text_eq, text_eq_iff,
  text_compare_lt, ◌≡◌, refl, sym, ap, ◌∙◌, inl, inr, arith, Bool-cases, if◌then◌else◌, select,
  is_some,
}
use cubingnow.Snapshots.{
  SnapshotDiff, has_text, insert_text, sorted_texts, result_of, ids_of, differs, changed_ids,
  diff_snapshots,
}

has_text-insert :
    (key x : Text) (keys : List Text)
    → has_text key (insert_text x keys) ≡ (text_eq x key || has_text key keys)
unfolding insert_text
has_text-insert key x [] = refl
has_text-insert key x (k ∷ keys) = elim (Bool-cases (text_eq x k)) [
  | inl e ↦
      let same : x ≡ k = (text_eq_iff x k).0 e in
      rw (e, same) (absorbed (text_eq k key) (has_text key keys))
  | inr e ↦ elim (Bool-cases (text_compare_lt x k)) [
    | inl lt ↦ rw (e, lt) refl
    | inr gt ↦
        rw (e, gt, has_text-insert key x keys)
          (swapped (text_eq k key) (text_eq x key) (has_text key keys))
  ]
]
  where
    absorbed : (a b : Bool) → (a || b) ≡ (a || (a || b))
    absorbed true b = refl
    absorbed false b = refl

    swapped : (a b c : Bool) → (a || (b || c)) ≡ (b || (a || c))
    swapped a b c = ground arith

has_text-sorted :
    (key : Text) (keys : List Text) → has_text key (sorted_texts keys) ≡ has_text key keys
unfolding sorted_texts
has_text-sorted key [] = refl
has_text-sorted key (k ∷ keys) =
    has_text-insert key k (sorted_texts keys)
    ∙ ap (λ b. text_eq k key || b) (has_text-sorted key keys)

-- A selection by a test keeps what passes it.
has_text-select :
    (p : Text → Bool) (key : Text) (keys : List Text)
    → has_text key (select p keys) ≡ (has_text key keys && p key)
has_text-select p key [] = refl
has_text-select p key (k ∷ keys) = elim (Bool-cases (text_eq k key)) [
  | inl e ↦
      let same : k ≡ key = (text_eq_iff k key).0 e in
      let passes : p k ≡ p key = ap p same in
      let later = has_text-select p key keys in
      elim (Bool-cases (p k)) [
        | inl y ↦ rw (y, e, sym passes ∙ y) refl
        | inr n ↦ rw (n, e, sym passes ∙ n, later, sym passes ∙ n) ground arith
      ]
  | inr e ↦
      let later = has_text-select p key keys in
      elim (Bool-cases (p k)) [ inl y ↦ rw (y, e) later | inr n ↦ rw (n, e) later ]
]

module _ {R : Type 0} where
  has_text-ids :
      (key : Text) (results : List (Text × R))
      → has_text key (ids_of results) ≡ is_some (result_of key results)
  unfolding result_of
  has_text-ids key [] = refl
  has_text-ids key ((k, r) ∷ rest) = elim (Bool-cases (text_eq k key)) [
    | inl e ↦ rw e refl
    | inr e ↦ rw e (has_text-ids key rest)
  ]

  -- In which parts a key is: added, changed, removed, unchanged.
  abbrev pub parts : (R → Text) → Option R → Option R → Bool × Bool × Bool × Bool
  parts meaningful_hash none none = (false, false, false, false)
  parts meaningful_hash none (some b) = (true, false, false, false)
  parts meaningful_hash (some a) none = (false, false, true, false)
  parts meaningful_hash (some a) (some b) =
      if text_eq (meaningful_hash a) (meaningful_hash b)
      then (false, false, false, true)
      else (false, true, false, false)

  module _ (meaningful_hash : R → Text) (previous current : List (Text × R)) (key : Text) where
    abbrev before : Option R
    before = result_of key previous

    abbrev after : Option R
    after = result_of key current

    -- A part of the difference is a selection of the keys of one side.
    part_lem :
        (p : Text → Bool) (results : List (Text × R))
        → has_text key (sorted_texts (select p (ids_of results)))
          ≡ (is_some (result_of key results) && p key)
    part_lem p results =
        has_text-sorted key (select p (ids_of results))
        ∙ (has_text-select p key (ids_of results) ∙ ap (λ b. b && p key) (has_text-ids key results))

    changed_lem :
        has_text key (changed_ids meaningful_hash previous current)
        ≡ (is_some before && (is_some after && differs meaningful_hash before after))
    unfolding changed_ids
    changed_lem =
        part_lem
          (λ k.
            has_text k (ids_of current)
            && differs meaningful_hash (result_of k previous) (result_of k current))
          previous
        ∙ ap (λ b. is_some before && (b && differs meaningful_hash before after))
            (has_text-ids key current)

    abbrev found_in : SnapshotDiff → Bool × Bool × Bool × Bool
    found_in d = (
      has_text key d.additions,
      has_text key d.changes,
      has_text key d.removals,
      has_text key d.unchanged,
    )

    abbrev expected : Option R → Option R → Bool × Bool × Bool × Bool
    expected a b = (
      is_some b && not (is_some a),
      is_some a && (is_some b && differs meaningful_hash a b),
      is_some a && not (is_some b),
      is_some a && (is_some b && not (is_some a && (is_some b && differs meaningful_hash a b))),
    )

    expected_lem : (a b : Option R) → expected a b ≡ parts meaningful_hash a b
    expected_lem none none = refl
    expected_lem none (some y) = refl
    expected_lem (some x) none = refl
    expected_lem (some x) (some y) =
        elim (Bool-cases (text_eq (meaningful_hash x) (meaningful_hash y))) [
          | inl e ↦ rw e refl
          | inr e ↦ rw e refl
        ]

    -- Whatever the two snapshots, a key of the new one alone is among the additions, one of the old alone
    -- among the removals, one of both among the changes if the hashes differ and else among those that
    -- are unchanged; and it is in no other part, as any other text is in none.
    pub diff_snapshots_lem :
        found_in (diff_snapshots meaningful_hash previous current)
        ≡ parts meaningful_hash (result_of key previous) (result_of key current)
    unfolding diff_snapshots
    diff_snapshots_lem =
        rw
          (
            part_lem (λ k. not (has_text k (ids_of previous))) current,
            has_text-ids key previous,
            changed_lem,
            part_lem (λ k. not (has_text k (ids_of current))) previous,
            part_lem
                (λ k.
                  has_text k (ids_of current)
                  && not (has_text k (changed_ids meaningful_hash previous current)))
                previous,
            has_text-ids key current,
            changed_lem,
          )
          (expected_lem before after)
