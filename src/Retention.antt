-- ===== src/Retention.antt =====
-- backend/apps/records/retention.py: old raw frames are deleted in batches, and the observations that
-- came from them stay. A moment is a number of microseconds; nothing else writes the tables meanwhile.
mod Batches
pub mod Purge
mod Tests
use cubingnow.Prelude.{
  ℕ, zero, suc, ◌+◌, ◌-◌, ◌*◌, max, ℤ, pos, negsuc, Bool, not, Option, none, some, List, [], ◌∷◌,
  map, Text, ltb, leb, ◌==◌, if◌then◌else◌, any, select, take, length,
}
use cubingnow.Models.{ResultObservation}

-- `SourceObservation`
pub record SourceObservation : Type 0 where
  pub pk : ℕ
  pub source : Text
  pub ingestion_method : Text
  pub external_id : Text
  pub event_type : Text
  pub observed_at : ℕ
  pub payload : Text
  pub payload_hash : Text
  pub ingestion_run : Option ℕ
  pub processed_at : Option ℕ
  pub processing_error : Text

pub record Frames : Type 0 where
  pub frames : List SourceObservation
  pub observations : List ResultObservation

abbrev pub is_in : ℕ → List ℕ → Bool
is_in pk pks = any (λ k. k == pk) pks

abbrev pub is_expired : ℕ → SourceObservation → Bool
is_expired cutoff frame = ltb frame.observed_at cutoff

-- `order_by("pk")`
unfoldable pub insert_pk : ℕ → List ℕ → List ℕ
insert_pk pk [] = pk ∷ []
insert_pk pk (k ∷ rest) =
    let later = insert_pk pk rest in if leb pk k then pk ∷ k ∷ rest else k ∷ later

unfoldable pub sort_pks : List ℕ → List ℕ
unfolding insert_pk
sort_pks [] = []
sort_pks (pk ∷ rest) = insert_pk pk (sort_pks rest)

-- The keys of the frames that have expired.
abbrev pub pks_of : ℕ → List SourceObservation → List ℕ
pks_of cutoff frames = map (λ frame. frame.pk) (select (is_expired cutoff) frames)

unfoldable pub expired_ids : ℕ → ℕ → List SourceObservation → List ℕ
unfolding sort_pks
expired_ids cutoff batch_size frames = take batch_size (sort_pks (pks_of cutoff frames))

-- SET_NULL
abbrev pub cleared_at : List ℕ → Option ℕ → Option ℕ
cleared_at pks none = none
cleared_at pks (some raw) = if is_in raw pks then none else some raw

abbrev pub cleared : List ℕ → ResultObservation → ResultObservation
cleared pks o = record o { raw_observation = cleared_at pks o.raw_observation }

-- The delete of the frames of some keys: how many there were, and the tables.
unfoldable pub delete_frames : List ℕ → Frames → ℕ × Frames
delete_frames pks tables = (
  length (select (λ frame. is_in frame.pk pks) tables.frames),
  record {
    frames = select (λ frame. not (is_in frame.pk pks)) tables.frames;
    observations = map (cleared pks) tables.observations;
  },
)

-- The loop: what is deleted in all, or `none` if the fuel does not do.
unfoldable pub purge_batches : ℕ → ℕ → ℕ → ℕ → Frames → Option (ℕ × Frames)
unfolding expired_ids delete_frames
purge_batches zero cutoff batch_size total tables = none
purge_batches (suc fuel) cutoff batch_size total tables =
    elim (expired_ids cutoff batch_size tables.frames) [
      | [] ↦ some (total, tables)
      | pk ∷ pks ↦
          let (deleted, after) = delete_frames (pk ∷ pks) tables in
          purge_batches fuel cutoff batch_size (total + deleted) after
    ]

abbrev pub day : ℕ
day = 86400000000

abbrev pub at_least_one : ℤ → ℕ
at_least_one (pos n) = max n 1
at_least_one (negsuc n) = 1

-- `purge_expired_source_observations`, with a turn more than there are frames.
unfoldable pub purge_expired_source_observations : ℕ → ℤ → ℤ → Frames → Option (ℕ × Frames)
unfolding purge_batches
purge_expired_source_observations now (negsuc n) batch_size tables = some (0, tables)
purge_expired_source_observations now (pos zero) batch_size tables = some (0, tables)
purge_expired_source_observations now (pos (suc days)) batch_size tables =
    purge_batches (length tables.frames + 1) (now - suc days * day) (at_least_one batch_size) 0
      tables
