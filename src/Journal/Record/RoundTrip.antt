-- ===== src/Journal/Record/RoundTrip.antt =====
-- What is written of a record header is read back, and its checksum is checked.
use embeddenator_fs.Prelude.{
  ℕ, ◌^◌, ◌<◌, ◌≤◌, ◌≡◌, ◌≢◌, refl, sym, ap, ◌∙◌, some, List, ◌∷◌, ◌++◌, append_assoc, true, false,
  ◌==◌, length, length-append, All, arith, Bool-cases, inl, inr, ==_iff, ==_refl, le→ltb,
}
use embeddenator_fs.Prelude.Bytes.{
  IsByte, IsU32, IsU64, to_le, from_le, from_le-to_le, to_le-IsByte, All-append,
}
use embeddenator_fs.Journal.Crc.{crc32_compute}
use embeddenator_fs.Journal.Crc.Detects.{crc32_compute-IsU32, crc32_compute-ne}
use embeddenator_fs.Journal.Result.{ok}
use embeddenator_fs.Journal.Record.{
  RecordFlags, RecordHeader, journal_magic, journal_version, flags_code, from_u16, field_bytes,
  header_to_bytes, word_at, header_of, header_from_bytes, verify_checksum,
}

-- The header of this version of the format, with words that fit their fields.
pub record IsHeader (h : RecordHeader) : Type 0 where
  pub magic : h.magic ≡ journal_magic
  pub version : h.version ≡ journal_version
  pub txn_id : IsU64 h.txn_id
  pub timestamp : IsU64 h.timestamp
  pub payload_len : IsU32 h.payload_len

from_u16-flags_code : (f : RecordFlags) → from_u16 (flags_code f) ≡ some f
unfolding from_u16
from_u16-flags_code RecordFlags.pending = refl
from_u16-flags_code _ = refl

pub length-field_bytes : (h : RecordHeader) → length (field_bytes h) ≡ 28
unfolding field_bytes to_le
length-field_bytes h = refl

pub length-header_to_bytes : (h : RecordHeader) (p : List ℕ) → length (header_to_bytes h p) ≡ 32
unfolding header_to_bytes field_bytes to_le
length-header_to_bytes h p = refl

-- A header is accepted when it is long enough and its magic, version and flags are known.
accepts :
    (bytes : List ℕ) (f : RecordFlags)
    → 32 ≤ length bytes
    → word_at bytes 0 4 ≡ journal_magic
    → word_at bytes 4 6 ≡ journal_version
    → word_at bytes 6 8 ≡ flags_code f
    → header_from_bytes bytes ≡ ok (header_of bytes f)
unfolding header_from_bytes
accepts bytes f size m v c = rw (le→ltb (length bytes) 32 size, m, v, c, from_u16-flags_code f)

module _ (h : RecordHeader) (p rest : List ℕ) where
  abbrev written : List ℕ
  written = header_to_bytes h p ++ rest

  magic_at : word_at written 0 4 ≡ from_le (to_le 4 h.magic)
  unfolding header_to_bytes field_bytes to_le
  magic_at = refl

  version_at : word_at written 4 6 ≡ from_le (to_le 2 h.version)
  unfolding header_to_bytes field_bytes to_le
  version_at = refl

  flags_at : word_at written 6 8 ≡ from_le (to_le 2 (flags_code h.flags))
  unfolding header_to_bytes field_bytes to_le
  flags_at = refl

  txn_id_at : word_at written 8 16 ≡ from_le (to_le 8 h.txn_id)
  unfolding header_to_bytes field_bytes to_le
  txn_id_at = refl

  timestamp_at : word_at written 16 24 ≡ from_le (to_le 8 h.timestamp)
  unfolding header_to_bytes field_bytes to_le
  timestamp_at = refl

  payload_len_at : word_at written 24 28 ≡ from_le (to_le 4 h.payload_len)
  unfolding header_to_bytes field_bytes to_le
  payload_len_at = refl

  checksum_at : word_at written 28 32 ≡ from_le (to_le 4 (crc32_compute (field_bytes h) p))
  unfolding header_to_bytes field_bytes to_le
  checksum_at = refl

  flags_lt : flags_code h.flags < 256 ^ 2
  flags_lt = ground arith

  abbrev stamped : RecordHeader
  stamped = record h { checksum = crc32_compute (field_bytes h) p }

  header_of-written : IsHeader h → header_of written h.flags ≡ stamped
  unfolding header_of
  header_of-written v = ground (
    arith,
    magic_at,
    version_at,
    txn_id_at,
    timestamp_at,
    payload_len_at,
    checksum_at,
    v.magic,
    v.version,
    from_le-to_le 4 h.magic,
    from_le-to_le 2 h.version,
    from_le-to_le 8 h.txn_id,
    from_le-to_le 8 h.timestamp,
    from_le-to_le 4 h.payload_len,
    from_le-to_le 4 (crc32_compute (field_bytes h) p) (crc32_compute-IsU32 (field_bytes h) p),
  )

  -- Reading what `to_bytes` wrote gives the header with its checksum, whatever follows.
  pub header_from_bytes-header_to_bytes :
      IsHeader h → header_from_bytes (header_to_bytes h p ++ rest) ≡ ok stamped
  header_from_bytes-header_to_bytes v =
      accepts written h.flags
        (omega (arith, length-append (header_to_bytes h p) rest, length-header_to_bytes h p))
        (magic_at ∙ from_le-to_le 4 h.magic (omega (arith, v.magic)) ∙ v.magic)
        (version_at ∙ from_le-to_le 2 h.version (omega (arith, v.version)) ∙ v.version)
        (flags_at ∙ from_le-to_le 2 (flags_code h.flags) flags_lt)
      ∙ ap ok (header_of-written v)

field_bytes-IsByte : (h : RecordHeader) → All IsByte (field_bytes h)
unfolding field_bytes
field_bytes-IsByte h = All-append IsByte (to_le 4 h.magic) _ (to_le-IsByte 4 h.magic) (
    All-append IsByte (to_le 2 h.version) _ (to_le-IsByte 2 h.version) (
      All-append IsByte (to_le 2 (flags_code h.flags)) _ (to_le-IsByte 2 (flags_code h.flags)) (
        All-append IsByte (to_le 8 h.txn_id) _ (to_le-IsByte 8 h.txn_id) (
          All-append IsByte (to_le 8 h.timestamp) _ (to_le-IsByte 8 h.timestamp)
            (to_le-IsByte 4 h.payload_len)))))

-- The checksum of a header as it is written is accepted with the payload that it was made for.
pub verify_checksum-stamped :
    (h : RecordHeader) (p : List ℕ)
    → verify_checksum (record h { checksum = crc32_compute (field_bytes h) p }) p ≡ true
unfolding verify_checksum field_bytes
verify_checksum-stamped h p = ==_refl _

-- A checksum that is right for a payload is refused for the payload with any one byte changed.
pub verify_checksum_changed :
    (h : RecordHeader) (pre post : List ℕ) (x y : ℕ)
    → All IsByte pre
    → All IsByte post
    → IsByte x
    → IsByte y
    → x ≢ y
    → verify_checksum h (pre ++ (x ∷ post)) ≡ true
    → verify_checksum h (pre ++ (y ∷ post)) ≡ false
unfolding verify_checksum
verify_checksum_changed h pre post x y kp kq kx ky ne right =
    elim (Bool-cases (crc32_compute (field_bytes h) (pre ++ (y ∷ post)) == h.checksum)) [
      | inl wrong ↦ absurd (differ ((==_iff _ _).0 right ∙ sym ((==_iff _ _).0 wrong)))
      | inr refused ↦ refused
    ]
  where
    differ :
        crc32_compute (field_bytes h) (pre ++ (x ∷ post))
        ≢ crc32_compute (field_bytes h) (pre ++ (y ∷ post))
    differ =
        crc32_compute-ne (field_bytes h) (pre ++ (x ∷ post)) (field_bytes h) (pre ++ (y ∷ post))
          (field_bytes h ++ pre) post x y
          (All-append IsByte (field_bytes h) pre (field_bytes-IsByte h) kp) kq kx ky
          (sym (append_assoc (field_bytes h) pre (x ∷ post)))
          (sym (append_assoc (field_bytes h) pre (y ∷ post))) ne
