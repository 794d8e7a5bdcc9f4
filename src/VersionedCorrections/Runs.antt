-- ===== src/VersionedCorrections/Runs.antt =====
-- Runs of the theorems on an empty store.
use embeddenator_fs.Prelude.{ℕ, refl, List, [], ◌∷◌, arith}
use embeddenator_fs.Prelude.Assoc.{lookup, nat_key}
use embeddenator_fs.Correction.{ChunkCorrection, verbatim, trit_z}
use embeddenator_fs.VersionedCorrections.{
  new_corrections, update_versioned, batch_update, remove_correction,
}
use embeddenator_fs.VersionedCorrections.Counted.{IsCounted, IsFresh, every_update-IsCounted}

abbrev whole : ChunkCorrection
whole = record { chunk_id = 4; correction = verbatim (1 ∷ []); hash = []; parity = trit_z }

abbrev one_update : List (ℕ × ChunkCorrection)
one_update = (4, whole) ∷ []

new_corrections-IsCounted : IsCounted new_corrections
unfolding IsCounted
new_corrections-IsCounted = (tt, refl)

every_update-IsCounted_example :
    IsCounted (update_versioned new_corrections 4 whole 0).1
    × IsCounted (batch_update new_corrections one_update 0).1
    × IsCounted (remove_correction new_corrections 4 0).1
every_update-IsCounted_example =
    every_update-IsCounted new_corrections 4 0 whole one_update (omega arith)
      new_corrections-IsCounted

one_update-IsFresh : IsFresh one_update new_corrections.corrections
unfolding IsFresh lookup
one_update-IsFresh = (refl, tt)
