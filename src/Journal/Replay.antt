-- ===== src/Journal/Replay.antt =====
-- `Journal::replay` of src/fs/versioned/journal.rs. The file is the list of its bytes from the
-- place of the reader on; a read of a file that has no I/O error is modelled. The fuel of the two
-- loops is the number of bytes left, since every round takes at least one.
pub mod Total
pub mod RoundTrip
pub mod History
pub mod Damage
use embeddenator_fs.Prelude.{
  ℕ, zero, suc, ◌+◌, ◌%◌, ◌^◌, List, [], ◌∷◌, ◌++◌, Bool, true, false, ltb, not, if◌then◌else◌,
  length, take, drop,
}
use embeddenator_fs.Journal.Result.{
  Result, ok, err, stuck, ◌>>=◌, unexpected_eof, checksum_mismatch,
}
use embeddenator_fs.Journal.Record.{
  RecordFlags, RecordHeader, committed, header_size, new_header, header_to_bytes, header_from_bytes,
  verify_checksum, is_committed,
}
use embeddenator_fs.Journal.Op.{JournalOp, op_to_bytes, op_from_bytes}

-- The payload of a transaction.
unfoldable pub ops_to_bytes : List JournalOp → List ℕ
ops_to_bytes [] = []
ops_to_bytes (op ∷ ops) = op_to_bytes op ++ ops_to_bytes ops

-- A record as `write_transaction` builds it; `now` is the clock's time.
unfoldable pub record_bytes : ℕ → ℕ → RecordFlags → List JournalOp → List ℕ
record_bytes now txn_id flags ops =
    let payload = ops_to_bytes ops in
    header_to_bytes (new_header now txn_id flags (length payload % 2 ^ 32)) payload ++ payload

-- The payload behind a header, with its checksum checked.
unfoldable pub read_payload : RecordHeader → List ℕ → Result (List ℕ)
read_payload header body =
    let payload = take header.payload_len body in
    if ltb (length body) header.payload_len
    then err unexpected_eof
    else if not (verify_checksum header payload)
    then err checksum_mismatch
    else ok payload

module _ (lossy : List ℕ → List ℕ) where
  -- `while pos < payload.len()`
  unfoldable pub parse_ops : ℕ → List ℕ → ℕ → Result (List JournalOp)
  parse_ops zero payload pos = if ltb pos (length payload) then stuck else ok []
  parse_ops (suc fuel) payload pos =
      let more = (do
        (op, consumed) ← op_from_bytes lossy (drop pos payload)
        ops ← parse_ops fuel payload (pos + consumed)
        ok (op ∷ ops)) in
      if ltb pos (length payload) then more else ok []

  -- What one record adds to the transactions of the records behind it.
  unfoldable pub with_record :
      RecordHeader
      → List ℕ
      → Result (List (ℕ × List JournalOp))
      → Result (List (ℕ × List JournalOp))
  with_record header payload later =
      let transaction = (do
        ops ← parse_ops (length payload) payload 0
        transactions ← later
        ok ((header.txn_id, ops) ∷ transactions)) in
      if not (is_committed header.flags) then later else transaction

  unfoldable pub replay_loop : ℕ → List ℕ → Result (List (ℕ × List JournalOp))
  replay_loop zero file = if ltb (length file) header_size then ok [] else stuck
  replay_loop (suc fuel) file =
      let record_and_later = (do
        header ← header_from_bytes (take header_size file)
        payload ← read_payload header (drop header_size file)
        with_record header payload
            (replay_loop fuel (drop header.payload_len (drop header_size file)))) in
      if ltb (length file) header_size then ok [] else record_and_later

  unfoldable pub replay : List ℕ → Result (List (ℕ × List JournalOp))
  replay file = replay_loop (length file) file
