-- ===== src/LargeFile/Levels.antt =====
-- The loop over the levels of vectors, and what the two writes of a large file leave.
use embeddenator_fs.Prelude.{
  ℕ, zero, suc, ◌+◌, ◌*◌, ◌<◌, ◌≤◌, ◌≡◌, refl, ap, Option, none, some, List, [], ◌∷◌, Bool, true,
  false, arith, ltb, length, drop, Bool-cases, ◌⊎◌, inl, inr,
}
use embeddenator_fs.Prelude.Run.{Run, ok, panic, ◌>>=◌}
use embeddenator_fs.EmbrFs.{Nothing, Codec, FsResult, done, failed, EmbrFs}
use embeddenator_fs.EmbrFs.Write.{
  Encoded, chunks_on, store_chunks, store_corrections, encode_chunks,
}
use embeddenator_fs.LargeFile.{
  levels_of, commit_flat, commit_built, commit_levels, write_flat, write_hierarchical,
  write_large_file, chunk_size_of, write_chunks, Entropy, LargeFileConfig, LargeFileResult,
  groups_on, next_level, build_levels, bundle_large, large_result, large_after_corrections,
  large_after_chunks, commit_large,
}

length-drop_le {ℓ} : {A : Type ℓ} (n : ℕ) (xs : List A) → length (drop n xs) ≤ length xs
length-drop_le zero xs = omega arith
length-drop_le (suc n) [] = omega arith
length-drop_le (suc n) (x ∷ xs) = let ih = length-drop_le n xs in omega (arith, ih)

length-drop_lt {ℓ} :
    {A : Type ℓ} (n : ℕ) (xs : List A) → 1 ≤ n → (length xs ≡ 0) ⊎ (length (drop n xs) < length xs)
length-drop_lt zero xs h = absurd (omega (arith, h))
length-drop_lt (suc n) [] h = inl refl
length-drop_lt (suc n) (x ∷ xs) h = inr (omega (arith, length-drop_le n xs))

ltb_cases : (a b : ℕ) → ((ltb a b ≡ true) × (a < b)) ⊎ ((ltb a b ≡ false) × (b ≤ a))
ltb_cases a b = elim (Bool-cases (ltb a b)) [
  | inl holds ↦ inl (holds, (let h : a < b = ground arith in h))
  | inr fails ↦ inr (fails, (let h : b ≤ a = ground arith in h))
]

-- What the loop gives has at most `max_size` vectors.
unfoldable LevelsEnd {ℓ} : {V : Type ℓ} → ℕ → Run (Option (ℕ × List V)) → Type 0
LevelsEnd max_size panic = ⊥
LevelsEnd max_size (ok none) = ⊥
LevelsEnd max_size (ok (some (levels, last))) = length last ≤ max_size

module _ {ℓ} {V E : Type ℓ} (codec : Codec V E) where
  -- Groups of two vectors or more are at most half as many, rounded up.
  length-groups_on :
      (fuel more : ℕ) (vs : List V)
      → 1 ≤ more
      → length (groups_on codec fuel more vs) * 2 ≤ length vs + 1
  unfolding groups_on
  length-groups_on zero more vs h = omega arith
  length-groups_on (suc fuel) more [] h = omega arith
  length-groups_on (suc fuel) more (v ∷ vs) h =
      let ih = length-groups_on fuel more (drop more vs) h in
      elim (length-drop_lt more vs h) [
        | inl e ↦ let d = length-drop_le more vs in omega (arith, ih, e, d)
        | inr d ↦ omega (arith, ih, d)
      ]

  build_levels-LevelsEnd :
      (fuel more levels : ℕ) (vs : List V)
      → 1 ≤ more
      → length vs < fuel
      → LevelsEnd (suc more) (build_levels codec fuel (suc more) levels vs)
  unfolding build_levels next_level LevelsEnd
  build_levels-LevelsEnd zero more levels vs h enough = absurd (omega (arith, enough))
  build_levels-LevelsEnd (suc fuel) more levels vs h enough =
      elim (ltb_cases (suc more) (length vs)) [
        | inr (fails, small) ↦ rw (build_levels, fails) small
        | inl (holds, large) ↦
            let fewer = length-groups_on (length vs) more vs h in
            rw (build_levels, next_level, holds)
              (build_levels-LevelsEnd fuel more (levels + 1) (groups_on codec (length vs) more vs) h
                (omega (arith, fewer, large, enough, h)))
      ]

-- The answer of a write without the numbers of levels and of vectors in the last one.
unfoldable pub without_levels {ℓ} :
    {V E : Type ℓ} → FsResult LargeFileResult × EmbrFs V E → FsResult LargeFileResult × EmbrFs V E
without_levels (done r, fs) = (done (record r { hierarchy_levels = 0; sub_engram_count = 0 }), fs)
without_levels (failed e, fs) = (failed e, fs)

-- The outcome of a write up to these numbers; `none` is a write that does not end.
unfoldable pub outcome {ℓ} :
    {V E : Type ℓ}
    → Run (Option (FsResult LargeFileResult × EmbrFs V E))
    → Run (Option (FsResult LargeFileResult × EmbrFs V E))
unfolding without_levels
outcome panic = panic
outcome (ok none) = ok none
outcome (ok (some r)) = ok (some (without_levels r))

-- A write that ends.
abbrev pub ended {ℓ} : {A : Type ℓ} → Run A → Run (Option A)
ended r = r >>= (λ a. ok (some a))

module _ {ℓ} {V E : Type ℓ} (codec : Codec V E) (path : List ℕ) (chunks : List (List ℕ)) (size : ℕ)
    (encoded : Encoded V) (levels last : ℕ) where
  abbrev answer_of : ℕ → ℕ → ℕ → LargeFileResult
  answer_of = large_result codec path chunks size encoded

  without_levels-bundle_large :
      (ids : List ℕ) (r : FsResult ℕ × EmbrFs V E)
      → without_levels (bundle_large codec (answer_of levels last) ids r)
        ≡ without_levels (bundle_large codec (answer_of 1 1) ids r)
  unfolding without_levels bundle_large large_result
  without_levels-bundle_large ids (done v, fs) = refl
  without_levels-bundle_large ids (failed e, fs) = refl

  outcome-bundle_large :
      (ids : List ℕ) (r : Run (FsResult ℕ × EmbrFs V E))
      → outcome (ended (r >>= (λ a. ok (bundle_large codec (answer_of levels last) ids a))))
        ≡ outcome (ended (r >>= (λ a. ok (bundle_large codec (answer_of 1 1) ids a))))
  unfolding outcome
  outcome-bundle_large ids panic = refl
  outcome-bundle_large ids (ok r) = ap (λ t. ok (some t)) (without_levels-bundle_large ids r)

  outcome-after_corrections :
      (expected : Option ℕ) (ids : List ℕ) (r : FsResult Nothing × EmbrFs V E)
      → outcome
          (ended (large_after_corrections codec (answer_of levels last) path chunks expected ids r))
        ≡ outcome (ended (large_after_corrections codec (answer_of 1 1) path chunks expected ids r))
  unfolding large_after_corrections outcome
  outcome-after_corrections expected ids (failed e, fs) = refl
  outcome-after_corrections expected ids (done u, fs) = outcome-bundle_large ids _

  outcome-after_chunks :
      (expected : Option ℕ) (r : FsResult Nothing × EmbrFs V E)
      → outcome
          (ended (large_after_chunks codec (answer_of levels last) path chunks expected encoded r))
        ≡ outcome (ended (large_after_chunks codec (answer_of 1 1) path chunks expected encoded r))
  unfolding large_after_chunks outcome store_corrections
  outcome-after_chunks expected (failed e, fs) = refl
  outcome-after_chunks expected (done u, fs) =
      outcome-after_corrections expected encoded.chunk_ids (store_corrections codec fs encoded true)

  pub outcome-commit_large :
      (fs : EmbrFs V E) (expected : Option ℕ)
      → outcome (ended (commit_large codec (answer_of levels last) fs path chunks expected encoded))
        ≡ outcome (ended (commit_large codec (answer_of 1 1) fs path chunks expected encoded))
  unfolding commit_large store_chunks
  outcome-commit_large fs expected =
      outcome-after_chunks expected (store_chunks codec fs encoded true 0)

module _ {ℓ} {V E : Type ℓ} (codec : Codec V E) (path : List ℕ) (chunks : List (List ℕ))
    (expected : Option ℕ) (size : ℕ) where
  outcome-commit_built :
      (more : ℕ) (encoded : Encoded V) (fs : EmbrFs V E) (built : Run (Option (ℕ × List V)))
      → LevelsEnd (suc more) built
      → outcome (built >>= commit_built codec path chunks expected size encoded fs)
        ≡ outcome (ended (commit_flat codec path chunks expected size (encoded, fs)))
  unfolding LevelsEnd commit_built commit_flat
  outcome-commit_built more encoded fs panic h = absurd h
  outcome-commit_built more encoded fs (ok none) h = absurd h
  outcome-commit_built more encoded fs (ok (some (levels, last))) h =
      outcome-commit_large codec path chunks size encoded levels (length last) fs expected

  outcome-commit_levels :
      (max_size : ℕ) (made : Run (Encoded V × EmbrFs V E))
      → 2 ≤ max_size
      → outcome (made >>= commit_levels codec path chunks expected size max_size)
        ≡ outcome (ended (made >>= commit_flat codec path chunks expected size))
  unfolding commit_levels levels_of build_levels
  outcome-commit_levels max_size panic h = refl
  outcome-commit_levels zero (ok made) h = absurd (omega (arith, h))
  outcome-commit_levels (suc more) (ok (encoded, fs)) h =
      outcome-commit_built more encoded fs (levels_of codec (suc more) encoded)
        (build_levels-LevelsEnd codec _ more 1 _ (omega (arith, h)) (omega arith))

  outcome-write_hierarchical :
      (config : LargeFileConfig) (fs : EmbrFs V E)
      → 2 ≤ config.max_bundle_size
      → outcome (write_hierarchical codec path chunks expected size config fs)
        ≡ outcome (ended (write_flat codec path chunks expected size fs))
  unfolding write_hierarchical write_flat encode_chunks
  outcome-write_hierarchical config fs h =
      outcome-commit_levels config.max_bundle_size (encode_chunks codec fs path chunks) h

  outcome-write_chunks :
      (config : LargeFileConfig) (fs : EmbrFs V E) (use_hierarchical : Bool)
      → 2 ≤ config.max_bundle_size
      → outcome (write_chunks codec path chunks expected size config fs use_hierarchical)
        ≡ outcome (ended (write_flat codec path chunks expected size fs))
  unfolding write_chunks
  outcome-write_chunks config fs true h = outcome-write_hierarchical config fs h
  outcome-write_chunks config fs false h = refl

-- For bundles of two vectors or more, the write of a large file ends, whatever its size, and does what
-- the flat write of the same chunks does: the answers are the same but for the number of levels and
-- that of the vectors in the last one, and the file systems that they leave, roots included, are
-- equal. It panics only where the flat write does.
pub write_large_file-write_flat {ℓ} :
    {V E : Type ℓ} (codec : Codec V E) (config : LargeFileConfig) (entropy : Entropy)
    (fs : EmbrFs V E) (path bytes : List ℕ) (expected : Option ℕ)
    → 2 ≤ config.max_bundle_size
    → outcome (write_large_file codec config entropy fs path bytes expected)
      ≡ outcome (
          ended (
            write_flat codec path
              (chunks_on (length bytes) (chunk_size_of config entropy) bytes)
              expected
              (chunk_size_of config entropy)
              fs))
unfolding write_large_file
write_large_file-write_flat codec config entropy fs path bytes expected h =
    outcome-write_chunks codec path _ expected (chunk_size_of config entropy) config fs _ h
