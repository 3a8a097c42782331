-- ===== src/Retention/Purge.antt =====
-- A purge in batches ends, and it is one delete of all that has expired.
use cubingnow.Prelude.{
  ℕ, zero, suc, ◌+◌, ◌-◌, ◌*◌, ◌≤◌, ◌<◌, ℤ, pos, negsuc, Bool, true, false, not, if◌then◌else◌,
  Option, none, some, List, [], ◌∷◌, map, ◌≡◌, refl, sym, ap, ◌∙◌, subst, arith, All, length,
}
use cubingnow.Models.{ResultObservation}
use cubingnow.Retention.{
  SourceObservation, Frames, is_expired, expired_ids, pks_of, cleared, cleared_at, delete_frames,
  purge_batches, purge_expired_source_observations, at_least_one, day,
}
use cubingnow.Retention.Batches.{
  HasUniqueKeys, select-HasUniqueKeys, IsNamed, Expires, expired_ids-IsNamed, expired_ids-none,
  deleted-expired, left, gone, expired, fresh, expired-left, fresh-left, gone-some, cleared_at-left,
}

module _ (cutoff : ℕ) where
  -- The tables without the frames that have expired.
  abbrev pub purged : Frames → Frames
  purged t = record {
    frames = fresh cutoff t.frames;
    observations = map (cleared (pks_of cutoff t.frames)) t.observations;
  }

  cleared_at-none : (raw : Option ℕ) → cleared_at [] raw ≡ raw
  cleared_at-none none = refl
  cleared_at-none (some raw) = refl

  cleared-none : (os : List ResultObservation) → map (cleared []) os ≡ os
  cleared-none [] = refl
  cleared-none (o ∷ os) =
      ap (λ (r : Option ℕ). record o { raw_observation = r } ∷ map (cleared []) os)
        (cleared_at-none o.raw_observation)
      ∙ ap (λ xs. o ∷ xs) (cleared-none os)

  none_expired :
      (fs : List SourceObservation)
      → pks_of cutoff fs ≡ []
      → (fresh cutoff fs ≡ fs) × (length (expired cutoff fs) ≡ 0)
  none_expired [] h = (refl, refl)
  none_expired (f ∷ fs) h = go (is_expired cutoff f) (none_expired fs) h
    where
      go :
          (e : Bool)
          → ((pks_of cutoff fs ≡ []) → (fresh cutoff fs ≡ fs) × (length (expired cutoff fs) ≡ 0))
          → (map
                (λ (x : SourceObservation). x.pk)
                (if e then f ∷ expired cutoff fs else expired cutoff fs)
              ≡ [])
          → ((if not e then f ∷ fresh cutoff fs else fresh cutoff fs) ≡ f ∷ fs)
            × (length (if e then f ∷ expired cutoff fs else expired cutoff fs) ≡ 0)
      go true ih h = absurd (cc h)
      go false ih h = (ap (λ xs. f ∷ xs) (ih h).0, (ih h).1)

  purged-none : (t : Frames) → pks_of cutoff t.frames ≡ [] → purged t ≡ t
  purged-none t h =
      ap
        (λ fs. record t {
          frames = fs;
          observations = map (cleared (pks_of cutoff t.frames)) t.observations;
        })
        (none_expired t.frames h).0
      ∙ (ap (λ ks. record t { observations = map (cleared ks) t.observations }) h
          ∙ ap (λ os. record t { observations = os }) (cleared-none t.observations))

  cleared-left :
      (ks : List ℕ) (fs : List SourceObservation) (os : List ResultObservation)
      → All (IsNamed cutoff fs) ks
      → map (cleared (pks_of cutoff (left cutoff ks fs))) (map (cleared ks) os)
        ≡ map (cleared (pks_of cutoff fs)) os
  cleared-left ks fs [] named = refl
  cleared-left ks fs (o ∷ os) named =
      ap
        (λ (r : Option ℕ).
          record o { raw_observation = r }
          ∷ map (cleared (pks_of cutoff (left cutoff ks fs))) (map (cleared ks) os))
        (cleared_at-left cutoff ks fs o.raw_observation named)
      ∙ ap (λ xs. cleared (pks_of cutoff fs) o ∷ xs) (cleared-left ks fs os named)

  purged-delete_frames :
      (ks : List ℕ) (t : Frames)
      → All (Expires cutoff ks) t.frames
      → All (IsNamed cutoff t.frames) ks
      → purged (delete_frames ks t).1 ≡ purged t
  unfolding delete_frames
  purged-delete_frames ks t expires named =
      ap
        (λ (fs : List SourceObservation). record {
          frames = fs;
          observations =
              map (cleared (pks_of cutoff (left cutoff ks t.frames)))
                (map (cleared ks) t.observations);
        })
        (fresh-left cutoff ks t.frames expires)
      ∙ ap
          (λ (os : List ResultObservation). record {
            frames = fresh cutoff t.frames;
            observations = os;
          })
          (cleared-left ks t.frames t.observations named)

  abbrev Ended : Option (ℕ × Frames) → ℕ → Frames → Type 0
  Ended out total t = out ≡ some (total + length (expired cutoff t.frames), purged t)

  batch-Ended :
      (n total : ℕ) (t : Frames) (ks : List ℕ) (more : ℕ → Frames → Option (ℕ × Frames))
      → HasUniqueKeys t.frames
      → expired_ids cutoff (suc n) t.frames ≡ ks
      → ((total' : ℕ) (t' : Frames)
          → HasUniqueKeys t'.frames
          → length (expired cutoff t'.frames) < length (expired cutoff t.frames)
          → Ended (more total' t') total' t')
      → let out : Option (ℕ × Frames) = elim ks [
        | [] ↦ some (total, t)
        | k ∷ rest ↦
            let (deleted, after) = delete_frames (k ∷ rest) t in more (total + deleted) after
      ] in
        Ended out total t
  unfolding delete_frames
  batch-Ended n total t [] more unique e ih =
      let none_left = expired_ids-none cutoff n t.frames e in
      let count = (none_expired t.frames none_left).1 in
      let same : total ≡ total + length (expired cutoff t.frames) = omega (arith, count) in
      ap (λ m. some (m, t)) same
      ∙ ap (λ u. some (total + length (expired cutoff t.frames), u)) (sym (purged-none t none_left))
  batch-Ended n total t (k ∷ ks) more unique e ih =
      let named : All (IsNamed cutoff t.frames) (k ∷ ks) =
        subst (All (IsNamed cutoff t.frames)) e (expired_ids-IsNamed cutoff (suc n) t.frames) in
      let expires = deleted-expired cutoff (k ∷ ks) t.frames unique named in
      let count = expired-left cutoff (k ∷ ks) t.frames expires in
      let some_gone = gone-some cutoff k ks t.frames named.0 in
      let deleted = length (gone cutoff (k ∷ ks) t.frames) in
      let after = (delete_frames (k ∷ ks) t).1 in
      ih (total + deleted) after (select-HasUniqueKeys _ t.frames unique)
        (omega (arith, count, some_gone))
      ∙ (ap (λ m. some (m, purged after)) (omega (arith, count))
          ∙ ap (λ u. some (total + length (expired cutoff t.frames), u))
              (purged-delete_frames (k ∷ ks) t expires named))

  -- Where no two frames share a key, a loop with more turns than frames have expired ends. It has
  -- deleted what has expired and nothing else, counted each once, and cleared the references.
  pub purge_batches-eq :
      (fuel n total : ℕ) (t : Frames)
      → HasUniqueKeys t.frames
      → length (expired cutoff t.frames) < fuel
      → purge_batches fuel cutoff (suc n) total t
        ≡ some (total + length (expired cutoff t.frames), purged t)
  unfolding purge_batches
  purge_batches-eq zero n total t unique lt = absurd (omega arith)
  purge_batches-eq (suc fuel) n total t unique lt =
      batch-Ended n total t (expired_ids cutoff (suc n) t.frames)
        (λ total' t'. purge_batches fuel cutoff (suc n) total' t') unique refl
        (λ total' t' unique' fewer.
          purge_batches-eq fuel n total' t' unique' (omega (arith, lt, fewer)))

  length-expired : (fs : List SourceObservation) → length (expired cutoff fs) ≤ length fs
  length-expired [] = omega arith
  length-expired (f ∷ fs) = ground (arith, length-expired fs)

at_least_one-suc : (batch_size : ℤ) → (n : ℕ) × (at_least_one batch_size ≡ suc n)
at_least_one-suc (pos n) = (n - 1, omega arith)
at_least_one-suc (negsuc n) = (0, refl)

-- Where no two frames share a key, a purge for a positive number of days ends, whatever the batch size,
-- zero and negative ones included, within a turn more than there are frames. It gives the number of
-- frames older than the cutoff, has deleted these and no other, and has set the references to them, and
-- no others, to none.
pub purge_expired_source_observations-eq :
    (now days : ℕ) (batch_size : ℤ) (t : Frames)
    → HasUniqueKeys t.frames
    → let cutoff = now - suc days * day in
      purge_expired_source_observations now (pos (suc days)) batch_size t
      ≡ some (length (expired cutoff t.frames), purged cutoff t)
unfolding purge_expired_source_observations
purge_expired_source_observations-eq now days batch_size t unique =
    let cutoff = now - suc days * day in
    let (n, size) = at_least_one-suc batch_size in
    let bound = length-expired cutoff t.frames in
    ap (λ k. purge_batches (length t.frames + 1) cutoff k 0 t) size
    ∙ (purge_batches-eq cutoff (length t.frames + 1) n 0 t unique (omega (arith, bound))
        ∙ ap (λ m. some (m, purged cutoff t)) (omega arith))
