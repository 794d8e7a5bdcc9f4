-- ===== src/Journal/Replay/RoundTrip.antt =====
-- The recovery of a file that holds whole records: one record, then any number of them.
use embeddenator_fs.Prelude.{
  ℕ, zero, suc, ◌+◌, ◌%◌, ◌^◌, ◌≤◌, ◌≡◌, refl, ap, ◌∙◌, List, [], ◌∷◌, ◌++◌, length, length-append,
  length-drop, arith, All, le→ltb, lt→ltb,
}
use embeddenator_fs.Prelude.Bytes.{IsU32, IsU64}
use embeddenator_fs.Journal.Result.{ok}
use embeddenator_fs.Journal.Record.{
  RecordFlags, RecordHeader, new_header, header_to_bytes, header_from_bytes, field_bytes,
}
use embeddenator_fs.Journal.Crc.{crc32_compute}
use embeddenator_fs.Journal.Record.RoundTrip.{IsHeader, header_from_bytes-header_to_bytes}
use embeddenator_fs.Journal.Op.{JournalOp, write_chunk, op_to_bytes}
use embeddenator_fs.Journal.Op.Cursor.{At, At-next}
use embeddenator_fs.Journal.Op.RoundTrip.{IsOp, op_from_bytes-op_to_bytes}
use embeddenator_fs.Journal.Replay.{ops_to_bytes, record_bytes, parse_ops}

op_to_bytes_pos : (op : JournalOp) → 1 ≤ length (op_to_bytes op)
unfolding op_to_bytes
op_to_bytes_pos (write_chunk a b c) = omega arith
op_to_bytes_pos _ = omega arith

module _ (lossy : List ℕ → List ℕ) where
  parse_ops-At :
      (fuel : ℕ) (payload : List ℕ) (pos : ℕ) (ops : List JournalOp)
      → At payload pos (ops_to_bytes ops)
      → All (IsOp lossy) ops
      → length payload ≤ fuel + pos
      → parse_ops lossy fuel payload pos ≡ ok ops
  unfolding parse_ops ops_to_bytes
  parse_ops-At zero payload pos [] at h f =
      rw
        (le→ltb pos (length payload) (omega (arith, ap length at.dropped, length-drop pos payload)))
  parse_ops-At (suc fuel) payload pos [] at h f =
      rw
        (le→ltb pos (length payload) (omega (arith, ap length at.dropped, length-drop pos payload)))
  parse_ops-At zero payload pos (op ∷ ops) at h f = absurd (
      omega (
        arith,
        ap length at.dropped,
        length-drop pos payload,
        op_to_bytes_pos op,
        length-append (op_to_bytes op) (ops_to_bytes ops),
      ))
  parse_ops-At (suc fuel) payload pos (op ∷ ops) at h f =
      let size = op_to_bytes_pos op in
      let rest = length-append (op_to_bytes op) (ops_to_bytes ops) in
      rw (
        lt→ltb pos (length payload)
            (omega (arith, ap length at.dropped, length-drop pos payload, size, rest)),
        at.dropped,
        op_from_bytes-op_to_bytes lossy op (ops_to_bytes ops) h.0,
        parse_ops-At fuel payload (pos + length (op_to_bytes op)) ops
            (At-next payload pos (length (op_to_bytes op)) (op_to_bytes op) (ops_to_bytes ops) at
              refl)
            h.1 (omega (arith, size)),
      )

  -- The operations of a payload are read back.
  pub parse_ops-ops_to_bytes :
      (ops : List JournalOp)
      → All (IsOp lossy) ops
      → parse_ops lossy (length (ops_to_bytes ops)) (ops_to_bytes ops) 0 ≡ ok ops
  parse_ops-ops_to_bytes ops h =
      parse_ops-At (length (ops_to_bytes ops)) (ops_to_bytes ops) 0 ops
        (record { dropped = refl; within = omega arith }) h (omega arith)

-- What a record is made of.
pub record Entry : Type 0 where
  pub now : ℕ
  pub txn_id : ℕ
  pub flags : RecordFlags
  pub ops : List JournalOp

abbrev pub entry_bytes : Entry → List ℕ
entry_bytes e = record_bytes e.now e.txn_id e.flags e.ops

pub record IsEntry (lossy : List ℕ → List ℕ) (e : Entry) : Type 0 where
  pub now : IsU64 e.now
  pub txn_id : IsU64 e.txn_id
  pub size : IsU32 (length (ops_to_bytes e.ops))
  pub ops : All (IsOp lossy) e.ops

abbrev pub header_of_entry : Entry → RecordHeader
header_of_entry e = new_header e.now e.txn_id e.flags (length (ops_to_bytes e.ops) % 2 ^ 32)

new_header-IsHeader :
    (now txn_id : ℕ) (f : RecordFlags) (n : ℕ)
    → IsU64 now
    → IsU64 txn_id
    → IsU32 n
    → IsHeader (new_header now txn_id f n)
unfolding new_header
new_header-IsHeader now txn_id f n a b c = record {
  magic = refl;
  version = refl;
  txn_id = b;
  timestamp = a;
  payload_len = c;
}

abbrev pub stamped_of : Entry → RecordHeader
stamped_of e = record (header_of_entry e) {
  checksum = crc32_compute (field_bytes (header_of_entry e)) (ops_to_bytes e.ops);
}

pub new_header_fields :
    (now txn_id : ℕ) (f : RecordFlags) (n : ℕ)
    → ((new_header now txn_id f n).payload_len ≡ n)
      × ((new_header now txn_id f n).flags ≡ f)
      × ((new_header now txn_id f n).txn_id ≡ txn_id)
unfolding new_header
new_header_fields now txn_id f n = (refl, refl, refl)

-- The header of an entry is read in front of whatever follows.
pub read_header :
    (lossy : List ℕ → List ℕ) (e : Entry) (rest : List ℕ)
    → IsEntry lossy e
    → header_from_bytes (header_to_bytes (header_of_entry e) (ops_to_bytes e.ops) ++ rest)
      ≡ ok (stamped_of e)
read_header lossy e rest h =
    header_from_bytes-header_to_bytes (header_of_entry e) (ops_to_bytes e.ops) rest (
      new_header-IsHeader e.now e.txn_id e.flags (length (ops_to_bytes e.ops) % 2 ^ 32) h.now
        h.txn_id (omega arith))

-- The length that the header holds is that of the payload.
pub stamped-payload_len :
    (lossy : List ℕ → List ℕ) (e : Entry)
    → IsEntry lossy e
    → (stamped_of e).payload_len ≡ length (ops_to_bytes e.ops)
stamped-payload_len lossy e h =
    (new_header_fields e.now e.txn_id e.flags (length (ops_to_bytes e.ops) % 2 ^ 32)).0
    ∙ omega (arith, h.size)
