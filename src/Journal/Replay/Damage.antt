-- ===== src/Journal/Replay/Damage.antt =====
-- What the recovery returns for whole, torn and corrupted journals.
use embeddenator_fs.Prelude.{
  ℕ, zero, suc, ◌+◌, ◌<◌, ◌≤◌, ◌≡◌, ◌≢◌, refl, sym, ap, ◌∙◌, List, [], ◌∷◌, ◌++◌, false, length,
  drop, length-append, take_append, append-nil, arith, All, le→ltb, lt→ltb,
}
use embeddenator_fs.Prelude.Bytes.{IsByte}
use embeddenator_fs.Journal.Result.{Error, ok, err, ◌>>=◌, unexpected_eof, checksum_mismatch}
use embeddenator_fs.Journal.Record.{RecordHeader, header_to_bytes, verify_checksum}
use embeddenator_fs.Journal.Record.RoundTrip.{
  verify_checksum-stamped, verify_checksum_changed, length-header_to_bytes,
}
use embeddenator_fs.Journal.Replay.{ops_to_bytes, read_payload, with_record, replay_loop, replay}
use embeddenator_fs.Journal.Replay.RoundTrip.{
  Entry, IsEntry, header_of_entry, stamped_of, stamped-payload_len,
}
use embeddenator_fs.Journal.Replay.History.{
  entries_bytes, committed_of, replay_round, replay_entries,
}

module _ (lossy : List ℕ → List ℕ) where
  short_tail : (tail : List ℕ) (fuel : ℕ) → length tail < 32 → replay_loop lossy fuel tail ≡ ok []
  unfolding replay_loop
  short_tail tail zero h = rw (lt→ltb (length tail) 32 h)
  short_tail tail (suc fuel) h = rw (lt→ltb (length tail) 32 h)

  -- The recovery of a file of whole records, behind which fewer than 32 bytes stand (none, or a
  -- header cut short), returns the committed transactions in the order of their records.
  pub replay-entries_bytes :
      (es : List Entry) (tail : List ℕ)
      → All (IsEntry lossy) es
      → length tail < 32
      → replay lossy (entries_bytes es ++ tail) ≡ ok (committed_of es)
  unfolding replay
  replay-entries_bytes es tail h short =
      replay_entries lossy es tail (ok []) (length (entries_bytes es ++ tail)) h (omega arith)
        (λ f enough. short_tail tail f short)
      ∙ ap ok (append-nil (committed_of es))

  -- The recovery fails at a record that it cannot accept.
  round_fails :
      (fuel : ℕ) (e : Entry) (body : List ℕ) (x : Error)
      → IsEntry lossy e
      → read_payload (stamped_of e) body ≡ err x
      → replay_loop lossy
          (suc fuel)
          (header_to_bytes (header_of_entry e) (ops_to_bytes e.ops) ++ body)
        ≡ err x
  round_fails fuel e body x h bad =
      replay_round lossy fuel e body h
      ∙ ap
          (λ r. r >>= λ p.
            with_record lossy (stamped_of e) p
              (replay_loop lossy fuel (drop (stamped_of e).payload_len body)))
          bad

  history_fails :
      (es : List Entry) (e : Entry) (body : List ℕ) (x : Error)
      → All (IsEntry lossy) es
      → IsEntry lossy e
      → read_payload (stamped_of e) body ≡ err x
      → replay lossy
          (entries_bytes es ++ (header_to_bytes (header_of_entry e) (ops_to_bytes e.ops) ++ body))
        ≡ err x
  unfolding replay
  history_fails es e body x hs h bad =
      let header = header_to_bytes (header_of_entry e) (ops_to_bytes e.ops) in
      replay_entries lossy es (header ++ body) (err x)
        (length (entries_bytes es ++ (header ++ body))) hs (omega arith)
        (at_fuel header (length-append header body)
          (length-header_to_bytes (header_of_entry e) (ops_to_bytes e.ops))
          (λ f. round_fails f e body x h bad))
    where
      at_fuel :
          (header : List ℕ)
          → length (header ++ body) ≡ length header + length body
          → length header ≡ 32
          → ((f : ℕ) → replay_loop lossy (suc f) (header ++ body) ≡ err x)
          → (f : ℕ) → length (header ++ body) ≤ f
          → replay_loop lossy f (header ++ body) ≡ err x
      at_fuel header a b k zero l = absurd (omega arith)
      at_fuel header a b k (suc f) l = k f

  payload_cut :
      (hd : RecordHeader) (body : List ℕ)
      → length body < hd.payload_len
      → read_payload hd body ≡ err unexpected_eof
  unfolding read_payload
  payload_cut hd body h = rw (lt→ltb (length body) hd.payload_len h)

  -- A record that is cut inside its payload makes the recovery fail, whatever whole records stand
  -- in front of it: no transaction is returned.
  pub replay_torn_payload :
      (es : List Entry) (e : Entry) (body missing : List ℕ)
      → All (IsEntry lossy) es
      → IsEntry lossy e
      → missing ≢ []
      → ops_to_bytes e.ops ≡ body ++ missing
      → replay lossy
          (entries_bytes es ++ (header_to_bytes (header_of_entry e) (ops_to_bytes e.ops) ++ body))
        ≡ err unexpected_eof
  replay_torn_payload es e body missing hs h some_missing cut =
      history_fails es e body unexpected_eof hs h (
        payload_cut (stamped_of e) body (
          omega (
            arith,
            stamped-payload_len lossy e h,
            ap length cut,
            length-append body missing,
            at_least_one missing some_missing,
          )))
    where
      at_least_one : (xs : List ℕ) → xs ≢ [] → 1 ≤ length xs
      at_least_one [] n = absurd (n refl)
      at_least_one (x ∷ xs) n = omega arith

  payload_wrong :
      (hd : RecordHeader) (payload rest : List ℕ)
      → hd.payload_len ≡ length payload
      → verify_checksum hd payload ≡ false
      → read_payload hd (payload ++ rest) ≡ err checksum_mismatch
  unfolding read_payload
  payload_wrong hd payload rest l v = rw (
    le→ltb (length (payload ++ rest)) hd.payload_len (omega (arith, length-append payload rest, l)),
    take_append hd.payload_len payload rest (sym l),
    v,
  )

  -- A record in which one byte of the payload was changed makes the recovery fail with a checksum
  -- error, whatever whole records stand in front of it and whatever stands behind it.
  pub replay_changed_payload :
      (es : List Entry) (e : Entry) (pre post rest : List ℕ) (x y : ℕ)
      → All (IsEntry lossy) es
      → IsEntry lossy e
      → All IsByte pre
      → All IsByte post
      → IsByte x
      → IsByte y
      → x ≢ y
      → ops_to_bytes e.ops ≡ pre ++ (x ∷ post)
      → replay lossy (
          entries_bytes es
          ++ (header_to_bytes (header_of_entry e) (ops_to_bytes e.ops)
              ++ ((pre ++ (y ∷ post)) ++ rest)))
        ≡ err checksum_mismatch
  replay_changed_payload es e pre post rest x y hs h kp kq kx ky ne written =
      history_fails es e ((pre ++ (y ∷ post)) ++ rest) checksum_mismatch hs h (
        payload_wrong (stamped_of e) (pre ++ (y ∷ post)) rest
          (stamped-payload_len lossy e h ∙ ap length written ∙ same_length)
          (verify_checksum_changed (stamped_of e) pre post x y kp kq kx ky ne (
            ap (verify_checksum (stamped_of e)) (sym written)
            ∙ verify_checksum-stamped (header_of_entry e) (ops_to_bytes e.ops))))
    where
      same_length : length (pre ++ (x ∷ post)) ≡ length (pre ++ (y ∷ post))
      same_length = length-append pre (x ∷ post) ∙ sym (length-append pre (y ∷ post))
