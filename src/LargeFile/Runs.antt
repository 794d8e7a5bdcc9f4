-- ===== src/LargeFile/Runs.antt =====
-- Writes of large files on a small codec.
use embeddenator_fs.Prelude.{ℕ, zero, suc, ◌≡◌, refl, none, some, List, [], ◌∷◌, arith, length}
use embeddenator_fs.Prelude.Run.{ok, panic}
use embeddenator_fs.EmbrFs.{new_fs}
use embeddenator_fs.EmbrFs.Runs.{small}
use embeddenator_fs.EmbrFs.Write.{chunks_on}
use embeddenator_fs.LargeFile.{
  LargeFileConfig, default_config, high, chunk_size_of, build_levels, write_flat, write_large_file,
}
use embeddenator_fs.LargeFile.Levels.{outcome, ended, write_large_file-write_flat}

abbrev five_vectors : List (List ℕ)
five_vectors = (1 ∷ []) ∷ (2 ∷ []) ∷ (3 ∷ []) ∷ (4 ∷ []) ∷ (5 ∷ []) ∷ []

-- Five vectors by two are three, and these are two.
levels_by_two : build_levels small 6 2 1 five_vectors ≡ ok (some (3, (1 ∷ []) ∷ (5 ∷ []) ∷ []))
unfolding build_levels
levels_by_two = refl

-- By one, the levels stay as long as they are.
levels_by_one : build_levels small 6 1 1 five_vectors ≡ ok none
unfolding build_levels
levels_by_one = refl

levels_by_zero : build_levels small 6 0 1 five_vectors ≡ panic
unfolding build_levels
levels_by_zero = refl

abbrev sevens : ℕ → List ℕ
sevens zero = []
sevens (suc n) = 7 ∷ sevens n

-- Bundles of two vectors at most.
abbrev pairs : LargeFileConfig
pairs = record default_config { max_bundle_size = 2 }

write_large_file-write_flat_example :
    outcome (write_large_file small pairs high (new_fs small) (47 ∷ []) (sevens 9000) none)
    ≡ outcome (
        ended (
          write_flat small
            (47 ∷ [])
            (chunks_on (length (sevens 9000)) (chunk_size_of pairs high) (sevens 9000))
            none
            (chunk_size_of pairs high)
            (new_fs small)))
write_large_file-write_flat_example =
    write_large_file-write_flat small pairs high (new_fs small) (47 ∷ []) (sevens 9000) none
      (omega arith)
