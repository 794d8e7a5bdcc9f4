-- ===== src/Correction.antt =====
-- src/fs/correction.rs: corrections that turn an approximation of a chunk into the original.
-- A byte slice is a list of numbers. `sha256` stands for the digest of the `sha2` crate.
-- Arithmetic on u8 shifts is that of a release build, where the shift is taken modulo 8.
pub mod Diff
pub mod Exact
pub mod Strategy
pub mod Store
pub mod Verifier
mod Runs
use embeddenator_fs.Prelude.{
  ℕ, zero, suc, ◌+◌, ◌-◌, ◌*◌, ◌/◌, ◌%◌, ◌^◌, min, max, bit_and, bit_or, bit_xor, List, [], ◌∷◌,
  ◌++◌, map, Bool, true, false, ◌&&◌, ltb, leb, ◌==◌, if◌then◌else◌, length, get_or, set, take,
  drop,
}
use embeddenator_fs.Prelude.Bytes.{slice, bytes_eq}
use embeddenator_fs.Prelude.Run.{Run, ok, panic, ◌>>=◌}

-- The `Trit` of the VSA crate, which the code takes apart by its three constructors.
pub data Trit : Type 0 where
  trit_n trit_z trit_p : Trit

pub data CorrectionType : Type 0 where
  none : CorrectionType
  bit_flips : List (ℕ × ℕ) → CorrectionType
  trit_flips : List (ℕ × Trit × Trit) → CorrectionType
  block_replace : ℕ → List ℕ → CorrectionType
  verbatim : List ℕ → CorrectionType

pub record ChunkCorrection : Type 0 where
  pub chunk_id : ℕ
  pub correction : CorrectionType
  pub hash : List ℕ
  pub parity : Trit

sum : List ℕ → ℕ
sum [] = 0
sum (b ∷ bs) = b + sum bs

unfoldable pub compute_data_parity : List ℕ → Trit
unfolding sum
compute_data_parity bytes =
    let r = sum bytes % 3 in
    if r == 0 then trit_z else if r == 1 then trit_p else if r == 2 then trit_n else trit_z

-- The loop `for i in 0..max_len`, with the rounds left and `i`.
unfoldable pub diff_positions_from : ℕ → ℕ → List ℕ → List ℕ → List (ℕ × ℕ × ℕ)
diff_positions_from zero i original approximation = []
diff_positions_from (suc n) i original approximation =
    let rest = diff_positions_from n (i + 1) original approximation in
    let orig_byte = get_or original i 0 in
    let approx_byte = get_or approximation i 0 in
    if orig_byte == approx_byte then rest else (i, orig_byte, approx_byte) ∷ rest

abbrev pub diff_positions : List ℕ → List ℕ → List (ℕ × ℕ × ℕ)
diff_positions original approximation =
    diff_positions_from (max (length original) (length approximation)) 0 original approximation

unfoldable pub first_diff : List (ℕ × ℕ × ℕ) → ℕ
first_diff [] = 0
first_diff (d ∷ ds) = d.0

unfoldable pub last_diff : List (ℕ × ℕ × ℕ) → ℕ
last_diff [] = 0
last_diff (d ∷ []) = d.0
last_diff (d ∷ e ∷ ds) = last_diff (e ∷ ds)

abbrev pub span : List (ℕ × ℕ × ℕ) → ℕ
span ds = last_diff ds - first_diff ds + 1

abbrev pub flip_of : ℕ × ℕ × ℕ → ℕ × ℕ
flip_of d = (d.0, bit_xor d.1 d.2)

-- The block that covers all differences; `original[start..end]` panics for `start > end`.
unfoldable pub block_correction : List ℕ → List (ℕ × ℕ × ℕ) → Run CorrectionType
block_correction original ds =
    let start = first_diff ds in
    let end = min (start + span ds) (length original) in
    if leb start end then ok (block_replace start (slice original start end)) else panic

-- The choice of a strategy by the number of differences.
unfoldable pub choose_correction : List ℕ → List (ℕ × ℕ × ℕ) → Run CorrectionType
choose_correction original ds =
    let diff_count = length ds in
    if diff_count == 0
    then ok none
    else if ltb (length original / 2) diff_count
    then ok (verbatim original)
    else if ltb 10 diff_count && ltb (span ds) (diff_count * 9)
    then block_correction original ds
    else ok (bit_flips (map flip_of ds))

unfoldable pub compute_correction : List ℕ → List ℕ → Run CorrectionType
compute_correction original approximation =
    if bytes_eq original approximation
    then ok none
    else choose_correction original (diff_positions original approximation)

-- `result[pos] ^= mask` for each flip within the bounds.
unfoldable pub apply_bit_flips : List (ℕ × ℕ) → List ℕ → List ℕ
apply_bit_flips [] result = result
apply_bit_flips ((pos, mask) ∷ flips) result = apply_bit_flips flips (
    if ltb pos (length result) then set result pos (bit_xor (get_or result pos 0) mask) else result)

unfoldable pub trit_bits : Trit → ℕ
trit_bits trit_n = 2
trit_bits trit_z = 0
trit_bits trit_p = 1

-- `(byte & !(0b11 << shift)) | (bits << shift)` on u8.
unfoldable pub put_trit : ℕ → Trit → ℕ → ℕ
unfolding trit_bits
put_trit pos should_be byte =
    let shift = pos % 5 * 2 % 8 in
    let mask = 255 - 3 * 2 ^ shift % 256 in
    bit_or (bit_and byte mask) (trit_bits should_be * 2 ^ shift % 256)

unfoldable pub apply_trit_flips : List (ℕ × Trit × Trit) → List ℕ → List ℕ
apply_trit_flips [] result = result
apply_trit_flips ((pos, was, should_be) ∷ flips) result =
    let byte_pos = pos / 5 in
    apply_trit_flips flips (
      if ltb byte_pos (length result)
      then set result byte_pos (put_trit pos should_be (get_or result byte_pos 0))
      else result)

-- `result[start..end].copy_from_slice(&original[..end - start])`
unfoldable pub apply_block : ℕ → List ℕ → List ℕ → List ℕ
apply_block start original result =
    let end = min (start + length original) (length result) in
    if ltb start (length result)
    then take start result ++ (take (end - start) original ++ drop end result)
    else result

unfoldable pub apply_correction : CorrectionType → List ℕ → List ℕ
apply_correction none approximation = approximation
apply_correction (bit_flips flips) approximation = apply_bit_flips flips approximation
apply_correction (trit_flips flips) approximation = apply_trit_flips flips approximation
apply_correction (block_replace offset original) approximation =
    apply_block offset original approximation
apply_correction (verbatim bytes) approximation = bytes

unfoldable pub correction_size : CorrectionType → ℕ
correction_size none = 0
correction_size (bit_flips flips) = length flips * 9
correction_size (trit_flips flips) = length flips * 10
correction_size (block_replace offset original) = 8 + length original
correction_size (verbatim bytes) = length bytes

unfoldable pub is_correction : CorrectionType → Bool
is_correction none = false
is_correction _ = true

unfoldable pub apply : ChunkCorrection → List ℕ → List ℕ
apply c approximation = apply_correction c.correction approximation

unfoldable pub storage_size : ChunkCorrection → ℕ
storage_size c = correction_size c.correction

unfoldable pub needs_correction : ChunkCorrection → Bool
needs_correction c = is_correction c.correction

module _ (sha256 : List ℕ → List ℕ) where
  -- The first 8 bytes of the digest.
  unfoldable pub compute_hash : List ℕ → List ℕ
  compute_hash bytes = take 8 (sha256 bytes)

  unfoldable pub new_correction : ℕ → List ℕ → List ℕ → Run ChunkCorrection
  new_correction chunk_id original approximation = do
    c ← compute_correction original approximation
    ok (record {
      chunk_id = chunk_id;
      correction = c;
      hash = compute_hash original;
      parity = compute_data_parity original;
    })

  unfoldable pub verify : ChunkCorrection → List ℕ → Bool
  verify c result = bytes_eq (compute_hash result) c.hash
