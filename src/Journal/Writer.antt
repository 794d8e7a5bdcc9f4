-- ===== src/Journal/Writer.antt =====
-- The writing side of src/fs/versioned/journal.rs. The disk is a file, the place where the next write
-- goes and the buffer of `BufWriter`, which holds up to 8192 bytes. Errors of the operating system and
-- the wait for the background thread of the group commits are left out: that thread is a call of
-- `flush_pending` between two others.
pub mod Appending
pub mod Durable
pub mod Recovered
mod Runs
use embeddenator_fs.Prelude.{
  ℕ, ◌+◌, ◌-◌, ◌%◌, ◌^◌, List, [], ◌∷◌, ◌++◌, Bool, true, false, ltb, leb, ◌||◌, if◌then◌else◌,
  length, take, drop, replicate,
}
use embeddenator_fs.Types.{wrap64}
use embeddenator_fs.Journal.Record.{committed, new_header, header_to_bytes}
use embeddenator_fs.Journal.Op.{JournalOp}
use embeddenator_fs.Journal.Replay.{ops_to_bytes}

pub data DurabilityMode : Type 0 where
  immediate : DurabilityMode
  group_commit : ℕ → DurabilityMode
  relaxed : DurabilityMode

pub record Disk : Type 0 where
  pub file : List ℕ
  pub position : ℕ
  pub buffer : List ℕ

-- A write at a place, with zeros up to it when it lies behind the end of the file. No bytes are not
-- written.
unfoldable pub write_at : List ℕ → ℕ → List ℕ → List ℕ
write_at file position [] = file
write_at file position (b ∷ bs) =
    (take position file ++ replicate (position - length file) 0)
    ++ ((b ∷ bs) ++ drop (position + length (b ∷ bs)) file)

unfoldable pub write_file_bytes : List ℕ → Disk → Disk
write_file_bytes bytes d = record d {
  file = write_at d.file d.position bytes;
  position = d.position + length bytes;
}

-- `flush` of the buffer.
unfoldable pub flush_buffer : Disk → Disk
unfolding write_file_bytes
flush_buffer d = record (write_file_bytes d.buffer d) { buffer = [] }

abbrev pub capacity : ℕ
capacity = 8192

-- `write_all` through the buffer: what does not fit empties it first, and what is too long for it
-- goes to the file at once.
unfoldable pub write_all : List ℕ → Disk → Disk
unfolding write_file_bytes
write_all bytes d =
    let room = if ltb (capacity - length d.buffer) (length bytes) then flush_buffer d else d in
    if leb capacity (length bytes)
    then write_file_bytes bytes room
    else record room { buffer = room.buffer ++ bytes }

pub record Journal : Type 0 where
  pub mode : DurabilityMode
  pub disk : Disk
  pub next_txn_id : ℕ
  pub is_open : Bool
  pub pending_writes : List (List ℕ)

abbrev pub open_journal : DurabilityMode → List ℕ → Journal
open_journal mode file = record {
  mode = mode;
  disk = record { file = file; position = 0; buffer = [] };
  next_txn_id = 1;
  is_open = true;
  pending_writes = [];
}

unfoldable pub write_each : List (List ℕ) → Disk → Disk
write_each [] d = d
write_each (w ∷ ws) d = write_each ws (write_all w d)

unfoldable pub flush_pending : Journal → Journal
flush_pending j = elim j.pending_writes [
  | [] ↦ j
  | w ∷ ws ↦ record j { disk = flush_buffer (write_each (w ∷ ws) j.disk); pending_writes = [] }
]

-- What each durability mode does with the header and the payload.
unfoldable pub write_record : DurabilityMode → List ℕ → List ℕ → Journal → Journal
write_record immediate header payload j = record j {
  disk = flush_buffer (write_all payload (write_all header j.disk));
}
write_record (group_commit max_pending_ops) header payload j =
    let queued = record j { pending_writes = j.pending_writes ++ ((header ++ payload) ∷ []) } in
    if leb max_pending_ops (length queued.pending_writes) then flush_pending queued else queued
write_record relaxed header payload j = record j {
  disk = write_all payload (write_all header j.disk);
}

-- The journal that a call leaves; on a closed journal the call fails and changes nothing. The time is
-- an argument.
unfoldable pub write_transaction : ℕ → List JournalOp → Journal → Journal
write_transaction now ops j =
    let payload = ops_to_bytes ops in
    let header =
      header_to_bytes (new_header now j.next_txn_id committed (length payload % 2 ^ 32)) payload in
    if j.is_open
    then write_record j.mode header payload (record j { next_txn_id = wrap64 (j.next_txn_id + 1) })
    else j

-- `set_len(0)` reaches the file past the buffer, which `seek` then writes at the old place.
unfoldable pub checkpoint : Journal → Journal
checkpoint j =
    let flushed = flush_pending j in
    let emptied = flush_buffer (record flushed.disk { file = [] }) in
    record flushed { disk = record emptied { position = 0 } }

unfoldable pub close : Journal → Journal
close j = flush_pending (record j { is_open = false })

-- `drop` of the journal closes it, and that of its writer flushes the buffer.
unfoldable pub drop_journal : Journal → Disk
unfolding close
drop_journal j = flush_buffer (close j).disk

unfoldable pub should_use_wal : ℕ → ℕ → Bool
should_use_wal data_size op_count = ltb 65536 data_size || ltb 1 op_count
