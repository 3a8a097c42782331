-- ===== src/Snapshots.antt =====
-- The differences between two snapshots of a round: `diff_snapshots` of
-- backend/integrations/wca_live/snapshots.py and of backend/integrations/cubingchina/live_snapshots.py,
-- which differ only in the type of a result. A dictionary is the list of its keys and values.
pub mod Diff
mod Tests
use cubingnow.Prelude.{
  Bool, true, false, not, ◌&&◌, Option, none, some, List, [], ◌∷◌, map, Text, text_eq,
  text_compare_lt, if◌then◌else◌, any, select,
}

pub record SnapshotDiff : Type 0 where
  pub additions : List Text
  pub changes : List Text
  pub removals : List Text
  pub unchanged : List Text

abbrev pub has_text : Text → List Text → Bool
has_text key keys = any (λ k. text_eq k key) keys

-- `sorted` of a set of texts, each once.
unfoldable pub insert_text : Text → List Text → List Text
unfolding text_eq text_compare_lt
insert_text key [] = key ∷ []
insert_text key (k ∷ rest) =
    let later = insert_text key rest in
    if text_eq key k then k ∷ rest else if text_compare_lt key k then key ∷ k ∷ rest else k ∷ later

unfoldable pub sorted_texts : List Text → List Text
unfolding insert_text
sorted_texts [] = []
sorted_texts (key ∷ rest) = insert_text key (sorted_texts rest)

module _ {R : Type 0} where
  unfoldable pub result_of : Text → List (Text × R) → Option R
  unfolding text_eq
  result_of key [] = none
  result_of key ((k, r) ∷ rest) =
      let later = result_of key rest in if text_eq k key then some r else later

  abbrev pub ids_of : List (Text × R) → List Text
  ids_of results = map (λ entry. entry.0) results

  -- Whether two results under one key differ; a missing one does not count.
  abbrev pub differs : (R → Text) → Option R → Option R → Bool
  differs meaningful_hash (some a) (some b) = not (text_eq (meaningful_hash a) (meaningful_hash b))
  differs meaningful_hash (some a) none = false
  differs meaningful_hash none b = false

  unfoldable pub changed_ids : (R → Text) → List (Text × R) → List (Text × R) → List Text
  unfolding sorted_texts result_of text_eq
  changed_ids meaningful_hash previous current = sorted_texts (
      select
        (λ key.
          has_text key (ids_of current)
          && differs meaningful_hash (result_of key previous) (result_of key current))
        (ids_of previous))

  unfoldable pub diff_snapshots : (R → Text) → List (Text × R) → List (Text × R) → SnapshotDiff
  unfolding sorted_texts changed_ids text_eq
  diff_snapshots meaningful_hash previous current = record {
    additions =
        sorted_texts (select (λ key. not (has_text key (ids_of previous))) (ids_of current));
    changes = changed_ids meaningful_hash previous current;
    removals = sorted_texts (select (λ key. not (has_text key (ids_of current))) (ids_of previous));
    unchanged = sorted_texts (
        select
          (λ key.
            has_text key (ids_of current)
            && not (has_text key (changed_ids meaningful_hash previous current)))
          (ids_of previous));
  }
