-- ===== src/Journal/Record.antt =====
-- Record headers of src/fs/versioned/journal.rs: 28 bytes of fields and the checksum.
pub mod RoundTrip
use embeddenator_fs.Prelude.{
  ℕ, ◌+◌, ◌%◌, ◌^◌, Option, none, some, List, [], ◌∷◌, ◌++◌, Bool, true, false, ltb, ◌==◌, not,
  if◌then◌else◌, length,
}
use embeddenator_fs.Prelude.Bytes.{to_le, from_le, slice}
use embeddenator_fs.Journal.Crc.{crc32_compute}
use embeddenator_fs.Journal.Result.{
  Result, ok, err, header_too_short, invalid_magic, unsupported_version, invalid_flags,
}

abbrev pub journal_magic : ℕ
journal_magic = 0x52424D45

abbrev pub journal_version : ℕ
journal_version = 1

abbrev pub header_size : ℕ
header_size = 32

pub data RecordFlags : Type 0 where
  pending committed checkpointed aborted : RecordFlags

-- `flags as u16`
abbrev pub flags_code : RecordFlags → ℕ
flags_code pending = 0
flags_code committed = 1
flags_code checkpointed = 2
flags_code aborted = 3

unfoldable pub from_u16 : ℕ → Option RecordFlags
from_u16 v =
    if v == 0
    then some pending
    else if v == 1
    then some committed
    else if v == 2
    then some checkpointed
    else if v == 3
    then some aborted
    else none

-- `header.flags == RecordFlags::Committed`
abbrev pub is_committed : RecordFlags → Bool
is_committed committed = true
is_committed _ = false

pub record RecordHeader : Type 0 where
  pub magic : ℕ
  pub version : ℕ
  pub flags : RecordFlags
  pub txn_id : ℕ
  pub timestamp : ℕ
  pub payload_len : ℕ
  pub checksum : ℕ

-- The clock is an argument.
unfoldable pub new_header : ℕ → ℕ → RecordFlags → ℕ → RecordHeader
new_header now txn_id flags payload_len = record {
  magic = journal_magic;
  version = journal_version;
  flags = flags;
  txn_id = txn_id;
  timestamp = now;
  payload_len = payload_len;
  checksum = 0;
}

-- The fields in front of the checksum.
unfoldable pub field_bytes : RecordHeader → List ℕ
field_bytes h =
    to_le 4 h.magic
    ++ (to_le 2 h.version
        ++ (to_le 2 (flags_code h.flags)
            ++ (to_le 8 h.txn_id ++ (to_le 8 h.timestamp ++ to_le 4 h.payload_len))))

unfoldable pub header_to_bytes : RecordHeader → List ℕ → List ℕ
header_to_bytes h payload = field_bytes h ++ to_le 4 (crc32_compute (field_bytes h) payload)

-- `from_le_bytes(data[a..b])`
abbrev pub word_at : List ℕ → ℕ → ℕ → ℕ
word_at bytes a b = from_le (slice bytes a b)

unfoldable pub header_of : List ℕ → RecordFlags → RecordHeader
header_of bytes flags = record {
  magic = word_at bytes 0 4;
  version = word_at bytes 4 6;
  flags = flags;
  txn_id = word_at bytes 8 16;
  timestamp = word_at bytes 16 24;
  payload_len = word_at bytes 24 28;
  checksum = word_at bytes 28 32;
}

unfoldable pub header_from_bytes : List ℕ → Result RecordHeader
unfolding from_u16
header_from_bytes bytes =
    if ltb (length bytes) header_size
    then err header_too_short
    else if not (word_at bytes 0 4 == journal_magic)
    then err (invalid_magic (word_at bytes 0 4))
    else if not (word_at bytes 4 6 == journal_version)
    then err (unsupported_version (word_at bytes 4 6))
    else elim (from_u16 (word_at bytes 6 8)) [
      | none ↦ err invalid_flags
      | some flags ↦ ok (header_of bytes flags)
    ]

unfoldable pub verify_checksum : RecordHeader → List ℕ → Bool
verify_checksum h payload = crc32_compute (field_bytes h) payload == h.checksum
