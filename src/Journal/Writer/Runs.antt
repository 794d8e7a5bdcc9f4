-- ===== src/Journal/Writer/Runs.antt =====
-- Runs of the theorems, and what the writer does to a file that holds records.
use embeddenator_fs.Prelude.{ℕ, ◌≡◌, refl, List, [], ◌∷◌, length, All, arith}
use embeddenator_fs.Prelude.Bytes.{to_le}
use embeddenator_fs.Journal.Result.{ok}
use embeddenator_fs.Journal.Record.{committed}
use embeddenator_fs.Journal.Op.{JournalOp, delete_chunk, barrier, op_to_bytes}
use embeddenator_fs.Journal.Replay.{ops_to_bytes, replay}
use embeddenator_fs.Journal.Replay.RoundTrip.{IsEntry}
use embeddenator_fs.Journal.Writer.{
  immediate, group_commit, Journal, open_journal, drop_journal, flush_pending, checkpoint,
}
use embeddenator_fs.Journal.Writer.Durable.{IsReady, QueueFits}
use embeddenator_fs.Journal.Writer.Recovered.{
  entries_from, numbered, write_many, replay-write_many, replay-checkpoint,
}

abbrev as_is : List ℕ → List ℕ
as_is bytes = bytes

abbrev first_ops : List JournalOp
first_ops = delete_chunk 9 ∷ []

abbrev second_ops : List JournalOp
second_ops = barrier ∷ []

abbrev two_writes : List (ℕ × List JournalOp)
two_writes = (1000, first_ops) ∷ (2000, second_ops) ∷ []

sizes : (length (ops_to_bytes first_ops) ≡ 9) × (length (ops_to_bytes second_ops) ≡ 1)
unfolding ops_to_bytes op_to_bytes to_le
sizes = (refl, refl)

first-IsEntry :
    IsEntry as_is (record { now = 1000; txn_id = 1; flags = committed; ops = first_ops })
first-IsEntry = record {
  now = omega arith;
  txn_id = omega arith;
  size = omega (arith, sizes.0);
  ops = (omega arith, tt);
}

second-IsEntry :
    IsEntry as_is (record { now = 2000; txn_id = 2; flags = committed; ops = second_ops })
second-IsEntry = record {
  now = omega arith;
  txn_id = omega arith;
  size = omega (arith, sizes.1);
  ops = (tt, tt);
}

fitting : All (IsEntry as_is) (entries_from 1 two_writes)
unfolding entries_from
fitting = (first-IsEntry, (second-IsEntry, tt))

replay-write_many_example :
    replay as_is (drop_journal (write_many two_writes (open_journal (group_commit 2) []))).file
    ≡ ok (numbered 1 two_writes)
replay-write_many_example = replay-write_many as_is (group_commit 2) two_writes fitting

abbrev used : Journal
used = record (open_journal immediate (5 ∷ 6 ∷ [])) {
  disk = record { file = 5 ∷ 6 ∷ []; position = 2; buffer = [] };
}

used-IsReady : IsReady used
unfolding IsReady QueueFits
used-IsReady = (refl, refl)

nothing_buffered : (flush_pending used).disk.buffer ≡ []
unfolding flush_pending
nothing_buffered = refl

replay-checkpoint_example :
    replay as_is (drop_journal (write_many two_writes (checkpoint used))).file
    ≡ ok (numbered 1 two_writes)
replay-checkpoint_example =
    replay-checkpoint as_is used two_writes used-IsReady refl nothing_buffered fitting
