-- ===== src/Journal/Writer/Recovered.antt =====
-- What is written to a journal is recovered, in every durability mode.
use embeddenator_fs.Prelude.{
  ℕ, ◌+◌, ◌%◌, ◌^◌, ◌≡◌, refl, sym, subst, ap, ◌∙◌, List, [], ◌∷◌, ◌++◌, append_assoc, append-nil,
  Bool, true, false, leb, if◌then◌else◌, length, All, arith, Bool-cases, inl, inr,
}
use embeddenator_fs.Types.{wrap64}
use embeddenator_fs.Journal.Result.{ok}
use embeddenator_fs.Journal.Record.{committed, new_header, header_to_bytes}
use embeddenator_fs.Journal.Op.{JournalOp}
use embeddenator_fs.Journal.Replay.{ops_to_bytes, record_bytes, replay}
use embeddenator_fs.Journal.Replay.RoundTrip.{Entry, IsEntry, entry_bytes}
use embeddenator_fs.Journal.Replay.History.{entries_bytes, committed_of}
use embeddenator_fs.Journal.Replay.Damage.{replay-entries_bytes}
use embeddenator_fs.Journal.Writer.{
  DurabilityMode, immediate, group_commit, relaxed, Journal, open_journal, flush_buffer,
  flush_pending, write_record, write_transaction, close, drop_journal, checkpoint, write_at,
  write_file_bytes,
}
use embeddenator_fs.Journal.Writer.Appending.{contents, joined, flush_buffer-IsAppending}
use embeddenator_fs.Journal.Writer.Durable.{
  IsReady, logged, QueueFits, nothing_fits, flushed_with, flush_pending_empty, flush_pending_some,
  flush_pending-IsReady, write_record-IsReady,
}

-- The fields that writing records leaves alone.
HasFields : DurabilityMode → Bool → ℕ → Journal → Type 0
HasFields m opened n j = (j.mode ≡ m) × (j.is_open ≡ opened) × (j.next_txn_id ≡ n)

flush_pending-HasFields : (j : Journal) → HasFields j.mode j.is_open j.next_txn_id (flush_pending j)
unfolding HasFields flushed_with
flush_pending-HasFields j = go j.pending_writes refl
  where
    go :
        (ws : List (List ℕ))
        → j.pending_writes ≡ ws
        → HasFields j.mode j.is_open j.next_txn_id (flush_pending j)
    go [] e = rw (flush_pending_empty j e) (refl, refl, refl)
    go (w ∷ ws) e = rw (flush_pending_some j w ws e) (refl, refl, refl)

write_record-HasFields :
    (m : DurabilityMode) (header payload : List ℕ) (j : Journal)
    → HasFields j.mode j.is_open j.next_txn_id (write_record m header payload j)
unfolding HasFields write_record
write_record-HasFields immediate header payload j = (refl, refl, refl)
write_record-HasFields (group_commit n) header payload j =
    let q : Journal = record j {
      pending_writes = j.pending_writes ++ ((header ++ payload) ∷ []);
    } in
    elim (Bool-cases (leb n (length q.pending_writes))) [
      | inl p ↦ rw (write_record, p) (flush_pending-HasFields q)
      | inr p ↦ rw (write_record, p) (refl, refl, refl)
    ]
write_record-HasFields relaxed header payload j = (refl, refl, refl)

-- A record of a journal that is open.
entry_of : ℕ → ℕ → List JournalOp → Entry
entry_of n now ops = record { now = now; txn_id = n; flags = committed; ops = ops }

-- The header that a call writes.
abbrev header_at : ℕ → List JournalOp → Journal → List ℕ
header_at now ops j =
    let payload = ops_to_bytes ops in
    header_to_bytes (new_header now j.next_txn_id committed (length payload % 2 ^ 32)) payload

abbrev counted : Journal → Journal
counted j = record j { next_txn_id = wrap64 (j.next_txn_id + 1) }

write_transaction_open :
    (now : ℕ) (ops : List JournalOp) (j : Journal)
    → j.is_open ≡ true
    → write_transaction now ops j
      ≡ write_record j.mode (header_at now ops j) (ops_to_bytes ops) (counted j)
unfolding write_transaction
write_transaction_open now ops j e =
    ap
      (λ b.
        if b then write_record j.mode (header_at now ops j) (ops_to_bytes ops) (counted j) else j)
      e

write_transaction-IsReady :
    (now : ℕ) (ops : List JournalOp) (j : Journal) (m : DurabilityMode) (n : ℕ)
    → HasFields m true n j
    → IsReady j
    → HasFields m true (wrap64 (n + 1)) (write_transaction now ops j)
      × IsReady (write_transaction now ops j)
      × (logged (write_transaction now ops j) ≡ logged j ++ entry_bytes (entry_of n now ops))
unfolding HasFields entry_of record_bytes IsReady logged
write_transaction-IsReady now ops j m n (same_mode, is_open, next) h =
    let payload = ops_to_bytes ops in
    let header = header_at now ops j in
    let (ready, grown) = write_record-IsReady j.mode header payload (counted j) refl h in
    let (kept_mode, kept_open, kept_next) =
      write_record-HasFields j.mode header payload (counted j) in
    rw (write_transaction_open now ops j is_open) (
      (kept_mode ∙ same_mode, kept_open ∙ is_open, kept_next ∙ ap (λ t. wrap64 (t + 1)) next),
      ready,
      grown ∙ ap (λ t. logged j ++ entry_bytes (entry_of t now ops)) next,
    )

-- A list of transactions, each with the time of its call.
unfoldable pub write_many : List (ℕ × List JournalOp) → Journal → Journal
write_many [] j = j
write_many ((now, ops) ∷ ws) j = write_many ws (write_transaction now ops j)

-- The records that these calls make, from an id on, and the transactions that they stand for.
unfoldable pub entries_from : ℕ → List (ℕ × List JournalOp) → List Entry
unfolding entry_of
entries_from n [] = []
entries_from n ((now, ops) ∷ ws) = entry_of n now ops ∷ entries_from (wrap64 (n + 1)) ws

unfoldable pub numbered : ℕ → List (ℕ × List JournalOp) → List (ℕ × List JournalOp)
numbered n [] = []
numbered n ((now, ops) ∷ ws) = (n, ops) ∷ numbered (wrap64 (n + 1)) ws

committed_of-entries_from :
    (n : ℕ) (ws : List (ℕ × List JournalOp)) → committed_of (entries_from n ws) ≡ numbered n ws
unfolding committed_of entries_from numbered entry_of
committed_of-entries_from n [] = refl
committed_of-entries_from n ((now, ops) ∷ ws) =
    ap (λ t. (n, ops) ∷ t) (committed_of-entries_from (wrap64 (n + 1)) ws)

write_many-IsReady :
    (ws : List (ℕ × List JournalOp)) (j : Journal) (m : DurabilityMode) (n : ℕ)
    → HasFields m true n j
    → IsReady j
    → IsReady (write_many ws j)
      × (logged (write_many ws j) ≡ logged j ++ entries_bytes (entries_from n ws))
unfolding write_many entries_from entries_bytes
write_many-IsReady [] j m n f h = (h, sym (append-nil _))
write_many-IsReady ((now, ops) ∷ ws) j m n f h =
    let (fields, ready, grown) = write_transaction-IsReady now ops j m n f h in
    let (end, all) =
      write_many-IsReady ws (write_transaction now ops j) m (wrap64 (n + 1)) fields ready in
    (
      end,
      all
          ∙ ap (λ t. t ++ entries_bytes (entries_from (wrap64 (n + 1)) ws)) grown
          ∙ append_assoc (logged j) (entry_bytes (entry_of n now ops))
              (entries_bytes (entries_from (wrap64 (n + 1)) ws)),
    )

file-drop_journal : (j : Journal) → IsReady j → (drop_journal j).file ≡ logged j
unfolding drop_journal close IsReady logged joined
file-drop_journal j h =
    let closed : Journal = record j { is_open = false } in
    let (ready, same, none_left) = flush_pending-IsReady closed h in
    (flush_buffer-IsAppending (flush_pending closed).disk ready.0).1
    ∙ sym (append-nil _)
    ∙ ap (λ t. contents (flush_pending closed).disk ++ joined t) (sym none_left)
    ∙ same

opened-IsReady : (m : DurabilityMode) → IsReady (open_journal m [])
unfolding IsReady
opened-IsReady m = (refl, nothing_fits m)

logged-open_journal : (m : DurabilityMode) → logged (open_journal m []) ≡ []
unfolding logged joined
logged-open_journal m = refl

opened-HasFields : (m : DurabilityMode) → HasFields m true 1 (open_journal m [])
unfolding HasFields
opened-HasFields m = (refl, refl, refl)

-- The recovery of what is written to a journal in which nothing stands.
replay_ready :
    (lossy : List ℕ → List ℕ) (ws : List (ℕ × List JournalOp)) (j : Journal) (m : DurabilityMode)
    (n : ℕ)
    → HasFields m true n j
    → IsReady j
    → logged j ≡ []
    → All (IsEntry lossy) (entries_from n ws)
    → replay lossy (drop_journal (write_many ws j)).file ≡ ok (numbered n ws)
replay_ready lossy ws j m n f h nothing fit =
    let (ready, all) = write_many-IsReady ws j m n f h in
    let whole : (drop_journal (write_many ws j)).file ≡ entries_bytes (entries_from n ws) ++ [] =
      file-drop_journal (write_many ws j) ready
      ∙ all
      ∙ ap (λ t. t ++ entries_bytes (entries_from n ws)) nothing
      ∙ sym (append-nil _) in
    ap (replay lossy) whole
    ∙ replay-entries_bytes lossy (entries_from n ws) [] fit (omega arith)
    ∙ ap ok (committed_of-entries_from n ws)

-- In every durability mode a journal that was opened on an empty file, to which transactions were
-- written and which was then dropped, is recovered as these transactions with the ids from 1 on.
-- Their records have to fit: 32 bits for the size of a payload, 64 for numbers, UTF-8 for paths.
pub replay-write_many :
    (lossy : List ℕ → List ℕ) (m : DurabilityMode) (ws : List (ℕ × List JournalOp))
    → All (IsEntry lossy) (entries_from 1 ws)
    → replay lossy (drop_journal (write_many ws (open_journal m []))).file ≡ ok (numbered 1 ws)
replay-write_many lossy m ws h =
    replay_ready lossy ws (open_journal m []) m 1 (opened-HasFields m) (opened-IsReady m)
      (logged-open_journal m) h

checkpoint-IsReady :
    (j : Journal)
    → (flush_pending j).disk.buffer ≡ []
    → (flush_pending j).pending_writes ≡ []
    → IsReady (checkpoint j)
      × (logged (checkpoint j) ≡ [])
      × HasFields
          (flush_pending j).mode
          (flush_pending j).is_open
          (flush_pending j).next_txn_id
          (checkpoint j)
unfolding checkpoint IsReady logged HasFields flush_buffer write_file_bytes write_at joined
checkpoint-IsReady j e q =
    let file_empty : write_at [] (flush_pending j).disk.position (flush_pending j).disk.buffer
        ≡ [] =
      ap (write_at [] (flush_pending j).disk.position) e in
    let no_queue : joined (flush_pending j).pending_writes ≡ [] = ap joined q in
    let fits =
      subst (QueueFits (flush_pending j).mode) (sym q) (nothing_fits (flush_pending j).mode) in
    (
      (sym (ap length file_empty), fits),
      ap (λ t. (t ++ []) ++ joined (flush_pending j).pending_writes) file_empty ∙ no_queue,
      (refl, refl, refl),
    )

-- A checkpoint of an open journal whose writer has nothing in its buffer after the queue is flushed
-- empties it: what is written afterwards is recovered alone, with the ids going on.
pub replay-checkpoint :
    (lossy : List ℕ → List ℕ) (j : Journal) (ws : List (ℕ × List JournalOp))
    → IsReady j
    → j.is_open ≡ true
    → (flush_pending j).disk.buffer ≡ []
    → All (IsEntry lossy) (entries_from j.next_txn_id ws)
    → replay lossy (drop_journal (write_many ws (checkpoint j))).file
      ≡ ok (numbered j.next_txn_id ws)
unfolding HasFields
replay-checkpoint lossy j ws h opened e fit =
    let (ready, same, none_left) = flush_pending-IsReady j h in
    let (kept_mode, kept_open, kept_next) = flush_pending-HasFields j in
    let (after, nothing, (mode, is_open, next)) = checkpoint-IsReady j e none_left in
    replay_ready lossy ws (checkpoint j) j.mode j.next_txn_id
      (mode ∙ kept_mode, is_open ∙ kept_open ∙ opened, next ∙ kept_next) after nothing fit
