-- ===== src/VersionedCorrections/Counted.antt =====
-- The count of the versioned corrections is the number of chunks in the map.
use embeddenator_fs.Prelude.{
  ℕ, ◌%◌, ◌^◌, ◌<◌, ◌≡◌, refl, none, List, [], ◌∷◌, ◌==◌, length, arith, Bool-cases, Option-cases,
  inl, inr, ==_refl,
}
use embeddenator_fs.Prelude.Assoc.{
  lookup, insert, IsMap, insert-IsMap, without-IsMap, without_absent, length-without_present,
  nat_key,
}
use embeddenator_fs.Correction.{ChunkCorrection}
use embeddenator_fs.VersionedCorrections.{
  VersionedCorrectionStore, put_counted, put_all_counted, update_versioned, batch_update,
  put_all_new, batch_insert_corrections, remove_counted, remove_correction, next_version,
}

-- The ids are distinct, and `total_chunks` is their number, modulo 2^64.
unfoldable pub IsCounted : VersionedCorrectionStore → Type 0
IsCounted s = IsMap s.corrections × (s.total_chunks ≡ length s.corrections % 2 ^ 64)

put_counted-IsCounted :
    (i : ℕ) (c : ChunkCorrection) (s : VersionedCorrectionStore)
    → IsCounted s
    → IsCounted (put_counted i c s)
unfolding IsCounted put_counted insert
put_counted-IsCounted i c s (m, n) = (
  insert-IsMap i c s.corrections m,
  elim (Option-cases (lookup i s.corrections)) [
    | inl e ↦ rw (put_counted, insert, e, without_absent i s.corrections e) (omega (arith, n))
    | inr (d, e) ↦
        rw (put_counted, insert, e) (omega (arith, n, length-without_present i s.corrections d m e))
  ],
)

put_all_counted-IsCounted :
    (us : List (ℕ × ChunkCorrection)) (s : VersionedCorrectionStore)
    → IsCounted s
    → IsCounted (put_all_counted us s)
unfolding put_all_counted
put_all_counted-IsCounted [] s h = h
put_all_counted-IsCounted ((i, c) ∷ us) s h =
    put_all_counted-IsCounted us (put_counted i c s) (put_counted-IsCounted i c s h)

next_version-IsCounted : (s : VersionedCorrectionStore) → IsCounted s → IsCounted (next_version s)
unfolding IsCounted
next_version-IsCounted s h = h

remove_counted-IsCounted :
    (i : ℕ) (s : VersionedCorrectionStore)
    → length s.corrections < 2 ^ 64
    → IsCounted s
    → IsCounted (remove_counted i s)
unfolding IsCounted remove_counted
remove_counted-IsCounted i s small (m, n) = (
  without-IsMap i s.corrections m,
  elim (Option-cases (lookup i s.corrections)) [
    | inl e ↦ rw (remove_counted, e, without_absent i s.corrections e) n
    | inr (d, e) ↦
        rw (remove_counted, e)
          (omega (arith, n, small, length-without_present i s.corrections d m e))
  ],
)

-- Every update, batch of updates and removal, at any version, leaves the ids distinct and the count
-- right, when there are fewer than 2^64 corrections.
pub every_update-IsCounted :
    (s : VersionedCorrectionStore) (i v : ℕ) (c : ChunkCorrection) (us : List (ℕ × ChunkCorrection))
    → length s.corrections < 2 ^ 64
    → IsCounted s
    → IsCounted (update_versioned s i c v).1
      × IsCounted (batch_update s us v).1
      × IsCounted (remove_correction s i v).1
unfolding update_versioned batch_update remove_correction
every_update-IsCounted s i v c us small h = elim (Bool-cases (s.version == v)) [
  | inl e ↦
      rw (update_versioned, batch_update, remove_correction, e)
        (
          next_version-IsCounted (put_counted i c s) (put_counted-IsCounted i c s h),
          next_version-IsCounted (put_all_counted us s) (put_all_counted-IsCounted us s h),
          next_version-IsCounted (remove_counted i s) (remove_counted-IsCounted i s small h),
        )
  | inr e ↦ rw (update_versioned, batch_update, remove_correction, e) (h, h, h)
]

-- The ids of a batch are free in a map, each at its turn.
unfoldable pub IsFresh : List (ℕ × ChunkCorrection) → List (ℕ × ChunkCorrection) → Type 0
IsFresh [] m = Unit
IsFresh ((i, c) ∷ us) m = (lookup i m ≡ none) × IsFresh us (insert i c m)

put_all_new_fresh :
    (us : List (ℕ × ChunkCorrection)) (s : VersionedCorrectionStore)
    → IsFresh us s.corrections
    → put_all_new us s ≡ put_all_counted us s
unfolding IsFresh put_all_new put_all_counted put_counted
put_all_new_fresh [] s h = refl
put_all_new_fresh ((i, c) ∷ us) s (free, h) = rw free (put_all_new_fresh us _ h)

-- A batch of new corrections whose ids are new does what the batch update at the current version
-- does.
pub batch_insert_corrections-batch_update :
    (us : List (ℕ × ChunkCorrection)) (s : VersionedCorrectionStore)
    → IsFresh us s.corrections
    → batch_insert_corrections s us ≡ batch_update s us s.version
unfolding batch_insert_corrections batch_update
batch_insert_corrections-batch_update us s h =
    rw (batch_update, ==_refl s.version, put_all_new_fresh us s h) refl
