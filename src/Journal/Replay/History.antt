-- ===== src/Journal/Replay/History.antt =====
-- What the recovery returns for a history of records, and for what stands behind them.
use embeddenator_fs.Prelude.{
  ℕ, zero, suc, ◌%◌, ◌^◌, ◌≤◌, ◌≡◌, refl, sym, ap, ◌∙◌, List, [], ◌∷◌, ◌++◌, true, not,
  if◌then◌else◌, length, drop, length-append, take_append, drop_append, append_assoc, append-nil,
  arith, All, Bool-cases, inl, inr, le→ltb,
}
use embeddenator_fs.Journal.Result.{Result, ok, err, stuck, ◌>>=◌}
use embeddenator_fs.Journal.Record.{
  RecordHeader, header_to_bytes, header_from_bytes, verify_checksum, is_committed,
}
use embeddenator_fs.Journal.Record.RoundTrip.{verify_checksum-stamped, length-header_to_bytes}
use embeddenator_fs.Journal.Op.{JournalOp}
use embeddenator_fs.Journal.Replay.{
  ops_to_bytes, record_bytes, parse_ops, read_payload, with_record, replay_loop,
}
use embeddenator_fs.Journal.Replay.RoundTrip.{
  Entry, entry_bytes, IsEntry, header_of_entry, stamped_of, read_header, stamped-payload_len,
  parse_ops-ops_to_bytes, new_header_fields,
}

-- The bytes of a history, and its committed transactions in order.
unfoldable pub entries_bytes : List Entry → List ℕ
entries_bytes [] = []
entries_bytes (e ∷ es) = entry_bytes e ++ entries_bytes es

unfoldable pub committed_of : List Entry → List (ℕ × List JournalOp)
committed_of [] = []
committed_of (e ∷ es) =
    let later = committed_of es in
    if not (is_committed e.flags) then later else (e.txn_id, e.ops) ∷ later

-- The transactions of the history in front of what the rest of the file gives.
abbrev pub prepend :
    List (ℕ × List JournalOp)
    → Result (List (ℕ × List JournalOp))
    → Result (List (ℕ × List JournalOp))
prepend ts r = r >>= λ us. ok (ts ++ us)

module _ (lossy : List ℕ → List ℕ) where
  -- One round of the recovery over a header that is whole.
  pub replay_round :
      (fuel : ℕ) (e : Entry) (body : List ℕ)
      → IsEntry lossy e
      → replay_loop lossy
          (suc fuel)
          (header_to_bytes (header_of_entry e) (ops_to_bytes e.ops) ++ body)
        ≡ (read_payload (stamped_of e) body >>= λ payload.
            with_record lossy
              (stamped_of e)
              payload
              (replay_loop lossy fuel (drop (stamped_of e).payload_len body)))
  unfolding replay_loop
  replay_round fuel e body h = rw (
    le→ltb (length (header ++ body)) 32 (omega (arith, length-append header body, size)),
    take_append 32 header body size,
    drop_append 32 header body size,
    alone,
  )
    where
      header : List ℕ
      header = header_to_bytes (header_of_entry e) (ops_to_bytes e.ops)

      size : length header ≡ 32
      size = length-header_to_bytes (header_of_entry e) (ops_to_bytes e.ops)

      alone : header_from_bytes header ≡ ok (stamped_of e)
      alone = ap header_from_bytes (sym (append-nil header)) ∙ read_header lossy e [] h

  -- A whole payload is accepted.
  read_payload_whole :
      (e : Entry) (rest : List ℕ)
      → IsEntry lossy e
      → read_payload (stamped_of e) (ops_to_bytes e.ops ++ rest) ≡ ok (ops_to_bytes e.ops)
  read_payload_whole e rest h =
      rw_len (stamped_of e) (ops_to_bytes e.ops) rest (stamped-payload_len lossy e h)
        (verify_checksum-stamped (header_of_entry e) (ops_to_bytes e.ops))
    where
      rw_len :
          (hd : RecordHeader) (payload rest : List ℕ)
          → hd.payload_len ≡ length payload
          → verify_checksum hd payload ≡ true
          → read_payload hd (payload ++ rest) ≡ ok payload
      rw_len hd payload rest l v =
          unfold read_payload in
          rw (
            le→ltb (length (payload ++ rest)) hd.payload_len
                (omega (arith, length-append payload rest, l)),
            take_append hd.payload_len payload rest (sym l),
            v,
          )

  with_record_parsed :
      (hd : RecordHeader) (payload : List ℕ) (ops : List JournalOp)
      (later : Result (List (ℕ × List JournalOp)))
      → parse_ops lossy (length payload) payload 0 ≡ ok ops
      → with_record lossy hd payload later
        ≡ prepend (if not (is_committed hd.flags) then [] else (hd.txn_id, ops) ∷ []) later
  unfolding with_record
  with_record_parsed hd payload ops later p = elim (Bool-cases (not (is_committed hd.flags))) [
    | inl other ↦ rw other (bind-ok later)
    | inr known ↦ rw (known, p)
  ]
    where
      bind-ok : (r : Result (List (ℕ × List JournalOp))) → r ≡ (r >>= λ us. ok us)
      bind-ok (ok us) = refl
      bind-ok (err e) = refl
      bind-ok stuck = refl

  entry_prepends :
      (e : Entry) (later : Result (List (ℕ × List JournalOp)))
      → IsEntry lossy e
      → with_record lossy (stamped_of e) (ops_to_bytes e.ops) later
        ≡ prepend (if not (is_committed e.flags) then [] else (e.txn_id, e.ops) ∷ []) later
  entry_prepends e later h =
      let fields =
        new_header_fields e.now e.txn_id e.flags (length (ops_to_bytes e.ops) % 2 ^ 32) in
      with_record_parsed (stamped_of e) (ops_to_bytes e.ops) e.ops later
        (parse_ops-ops_to_bytes lossy e.ops h.ops)
      ∙ ap
          (λ f.
            prepend (if not (is_committed f) then [] else ((stamped_of e).txn_id, e.ops) ∷ [])
              later)
          fields.1
      ∙ ap (λ (t : ℕ). prepend (if not (is_committed e.flags) then [] else (t, e.ops) ∷ []) later)
          fields.2

  pub entry-append :
      (e : Entry) (rest : List ℕ)
      → entry_bytes e ++ rest
        ≡ header_to_bytes (header_of_entry e) (ops_to_bytes e.ops) ++ (ops_to_bytes e.ops ++ rest)
  unfolding record_bytes
  entry-append e rest =
      append_assoc (header_to_bytes (header_of_entry e) (ops_to_bytes e.ops)) (ops_to_bytes e.ops)
        rest

  -- A whole record in front: its transaction comes first, if it is committed.
  pub replay_entry :
      (fuel : ℕ) (e : Entry) (rest : List ℕ)
      → IsEntry lossy e
      → replay_loop lossy (suc fuel) (entry_bytes e ++ rest)
        ≡ prepend
            (if not (is_committed e.flags) then [] else (e.txn_id, e.ops) ∷ [])
            (replay_loop lossy fuel rest)
  replay_entry fuel e rest h =
      let payload = ops_to_bytes e.ops in
      let header = header_to_bytes (header_of_entry e) payload in
      ap (replay_loop lossy (suc fuel)) (entry-append e rest)
      ∙ replay_round fuel e (payload ++ rest) h
      ∙ ap
          (λ r. r >>= λ p.
            with_record lossy (stamped_of e) p
              (replay_loop lossy fuel (drop (stamped_of e).payload_len (payload ++ rest))))
          (read_payload_whole e rest h)
      ∙ ap (λ t. with_record lossy (stamped_of e) payload (replay_loop lossy fuel t))
          (drop_append (stamped_of e).payload_len payload rest
            (sym (stamped-payload_len lossy e h)))
      ∙ entry_prepends e (replay_loop lossy fuel rest) h

  prepend-prepend :
      (xs ys : List (ℕ × List JournalOp)) (r : Result (List (ℕ × List JournalOp)))
      → prepend xs (prepend ys r) ≡ prepend (xs ++ ys) r
  prepend-prepend xs ys (ok us) = ap ok (sym (append_assoc xs ys us))
  prepend-prepend xs ys (err e) = refl
  prepend-prepend xs ys stuck = refl

  committed-cons :
      (e : Entry) (es : List Entry)
      → (if not (is_committed e.flags) then [] else (e.txn_id, e.ops) ∷ []) ++ committed_of es
        ≡ committed_of (e ∷ es)
  unfolding committed_of
  committed-cons e es = elim (Bool-cases (not (is_committed e.flags))) [
    | inl other ↦ rw other
    | inr known ↦ rw known
  ]

  prepend-nil : (r : Result (List (ℕ × List JournalOp))) → prepend [] r ≡ r
  prepend-nil (ok us) = refl
  prepend-nil (err e) = refl
  prepend-nil stuck = refl

  length-entry_bytes : (e : Entry) → 32 ≤ length (entry_bytes e)
  length-entry_bytes e =
      unfold record_bytes in
      omega (
        arith,
        length-append (header_to_bytes (header_of_entry e) (ops_to_bytes e.ops))
            (ops_to_bytes e.ops),
        length-header_to_bytes (header_of_entry e) (ops_to_bytes e.ops),
      )

  -- Any number of whole records in front of a tail, whose recovery is `r` for any fuel from its
  -- length on.
  pub replay_entries :
      (es : List Entry) (tail : List ℕ) (r : Result (List (ℕ × List JournalOp))) (fuel : ℕ)
      → All (IsEntry lossy) es
      → length (entries_bytes es ++ tail) ≤ fuel
      → ((f : ℕ) → length tail ≤ f → replay_loop lossy f tail ≡ r)
      → replay_loop lossy fuel (entries_bytes es ++ tail) ≡ prepend (committed_of es) r
  unfolding entries_bytes
  replay_entries [] tail r fuel h enough base =
      base fuel enough ∙ sym (unfold committed_of in prepend-nil r)
  replay_entries (e ∷ es) tail r zero h enough base = absurd (
      omega (
        arith,
        length-append (entry_bytes e ++ entries_bytes es) tail,
        length-append (entry_bytes e) (entries_bytes es),
        length-entry_bytes e,
      ))
  replay_entries (e ∷ es) tail r (suc fuel) h enough base =
      ap (replay_loop lossy (suc fuel)) (append_assoc (entry_bytes e) (entries_bytes es) tail)
      ∙ replay_entry fuel e (entries_bytes es ++ tail) h.0
      ∙ ap (prepend (if not (is_committed e.flags) then [] else (e.txn_id, e.ops) ∷ [])) (
          replay_entries es tail r fuel h.1
            (omega (
              arith,
              length-append (entry_bytes e ++ entries_bytes es) tail,
              length-append (entry_bytes e) (entries_bytes es),
              length-append (entries_bytes es) tail,
              length-entry_bytes e,
            ))
            base)
      ∙ prepend-prepend _ (committed_of es) r
      ∙ ap (λ ts. prepend ts r) (committed-cons e es)
