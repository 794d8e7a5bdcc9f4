-- ===== src/Journal/Runs.antt =====
-- Runs of the theorems on a small journal.
use embeddenator_fs.Prelude.{ℕ, ◌≡◌, ◌≢◌, refl, List, [], ◌∷◌, ◌++◌, length, All, arith}
use embeddenator_fs.Prelude.Bytes.{IsByte, to_le}
use embeddenator_fs.Journal.Crc.{crc32_compute}
use embeddenator_fs.Journal.Crc.Detects.{crc32_compute-ne}
use embeddenator_fs.Journal.Result.{ok, err, stuck, unexpected_eof, checksum_mismatch}
use embeddenator_fs.Journal.Record.{
  RecordHeader, committed, pending, header_to_bytes, journal_magic, journal_version,
}
use embeddenator_fs.Journal.Record.RoundTrip.{IsHeader}
use embeddenator_fs.Journal.Op.{
  JournalOp, delete_chunk, barrier, write_file, op_to_bytes, op_from_bytes,
}
use embeddenator_fs.Journal.Op.RoundTrip.{op_from_bytes-op_to_bytes}
use embeddenator_fs.Journal.Replay.{replay, ops_to_bytes}
use embeddenator_fs.Journal.Replay.Total.{replay-ne-stuck}
use embeddenator_fs.Journal.Replay.RoundTrip.{Entry, IsEntry, header_of_entry}
use embeddenator_fs.Journal.Replay.History.{entries_bytes, committed_of}
use embeddenator_fs.Journal.Replay.Damage.{
  replay-entries_bytes, replay_torn_payload, replay_changed_payload,
}

abbrev as_is : List ℕ → List ℕ
as_is bytes = bytes

abbrev digits : List ℕ
digits = 49 ∷ 50 ∷ 51 ∷ []

abbrev digits_changed : List ℕ
digits_changed = 49 ∷ 50 ∷ 52 ∷ []

abbrev first_digits : List ℕ
first_digits = 49 ∷ 50 ∷ []

digit_ne : ◌≢◌ {A = ℕ} 51 52
digit_ne h = omega (arith, h)

crc32_compute-ne_example : crc32_compute [] digits ≢ crc32_compute [] digits_changed
crc32_compute-ne_example =
    crc32_compute-ne [] digits [] digits_changed first_digits [] 51 52
      (omega arith, (omega arith, tt)) tt (omega arith) (omega arith) refl refl digit_ne

abbrev small_header : RecordHeader
small_header = record {
  magic = journal_magic;
  version = journal_version;
  flags = committed;
  txn_id = 7;
  timestamp = 1000;
  payload_len = 3;
  checksum = 0;
}

small_header-IsHeader : IsHeader small_header
small_header-IsHeader = record {
  magic = refl;
  version = refl;
  txn_id = omega arith;
  timestamp = omega arith;
  payload_len = omega arith;
}

abbrev two_ids : List ℕ
two_ids = 4 ∷ 5 ∷ []

abbrev file_op : JournalOp
file_op = write_file digits two_ids 900

op_from_bytes-op_to_bytes_example :
    op_from_bytes as_is (op_to_bytes file_op ++ digits) ≡ ok (file_op, length (op_to_bytes file_op))
op_from_bytes-op_to_bytes_example =
    op_from_bytes-op_to_bytes as_is file_op digits
      (refl, omega arith, omega arith, (omega arith, (omega arith, tt)), omega arith)

abbrev ops_of_two : List JournalOp
ops_of_two = delete_chunk 9 ∷ barrier ∷ []

abbrev entry : Entry
entry = record { now = 1000; txn_id = 1; flags = committed; ops = ops_of_two }

abbrev entry_pending : Entry
entry_pending = record entry { flags = pending }

size_of_two : length (ops_to_bytes ops_of_two) ≡ 10
unfolding ops_to_bytes op_to_bytes to_le
size_of_two = refl

entry-IsEntry : IsEntry as_is entry
entry-IsEntry = record {
  now = omega arith;
  txn_id = omega arith;
  size = omega (arith, size_of_two);
  ops = (omega arith, (tt, tt));
}

entry_pending-IsEntry : IsEntry as_is entry_pending
entry_pending-IsEntry = record {
  now = omega arith;
  txn_id = omega arith;
  size = omega (arith, size_of_two);
  ops = (omega arith, (tt, tt));
}

replay-ne-stuck_example : replay as_is (entries_bytes (entry ∷ [])) ≢ stuck
replay-ne-stuck_example = replay-ne-stuck as_is (entries_bytes (entry ∷ []))

replay-entries_bytes_example :
    replay as_is (entries_bytes (entry ∷ entry_pending ∷ []) ++ digits)
    ≡ ok (committed_of (entry ∷ entry_pending ∷ []))
replay-entries_bytes_example =
    replay-entries_bytes as_is (entry ∷ entry_pending ∷ []) digits
      (entry-IsEntry, (entry_pending-IsEntry, tt)) (omega arith)

abbrev id_byte_and_on : List ℕ
id_byte_and_on = 9 ∷ 0 ∷ 0 ∷ 0 ∷ 0 ∷ 0 ∷ 0 ∷ 0 ∷ 6 ∷ []

abbrev after_id_byte : List ℕ
after_id_byte = 0 ∷ 0 ∷ 0 ∷ 0 ∷ 0 ∷ 0 ∷ 0 ∷ 6 ∷ []

abbrev op_byte : List ℕ
op_byte = 2 ∷ []

split_bytes : ops_to_bytes ops_of_two ≡ op_byte ++ id_byte_and_on
unfolding ops_to_bytes op_to_bytes to_le
split_bytes = refl

something : id_byte_and_on ≢ []
something h = cc

replay_torn_payload_example :
    replay as_is (
      entries_bytes (entry ∷ [])
      ++ (header_to_bytes (header_of_entry entry) (ops_to_bytes ops_of_two) ++ op_byte))
    ≡ err unexpected_eof
replay_torn_payload_example =
    replay_torn_payload as_is (entry ∷ []) entry op_byte id_byte_and_on (entry-IsEntry, tt)
      entry-IsEntry something split_bytes

nine_ne_eight : ◌≢◌ {A = ℕ} 9 8
nine_ne_eight h = omega (arith, h)

bytes_after : All IsByte after_id_byte
bytes_after = (
  omega arith,
  (
    omega arith,
    (omega arith, (omega arith, (omega arith, (omega arith, (omega arith, (omega arith, tt)))))),
  ),
)

replay_changed_payload_example :
    replay as_is (
      entries_bytes (entry ∷ [])
      ++ (header_to_bytes (header_of_entry entry) (ops_to_bytes ops_of_two)
          ++ ((op_byte ++ (8 ∷ after_id_byte)) ++ digits)))
    ≡ err checksum_mismatch
replay_changed_payload_example =
    replay_changed_payload as_is (entry ∷ []) entry op_byte after_id_byte digits 9 8
      (entry-IsEntry, tt) entry-IsEntry (omega arith, tt) bytes_after (omega arith) (omega arith)
      nine_ne_eight split_bytes
