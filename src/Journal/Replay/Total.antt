-- ===== src/Journal/Replay/Total.antt =====
-- The loops of the recovery end on every file.
use embeddenator_fs.Prelude.{
  ℕ, zero, suc, ◌+◌, ◌≤◌, ◌≡◌, ◌≢◌, refl, inl, inr, List, false, ltb, not, length, take, drop,
  length-drop, arith, Bool-cases,
}
use embeddenator_fs.Journal.Result.{Result, ok, err, stuck, ◌>>=◌}
use embeddenator_fs.Journal.Record.{RecordHeader, header_from_bytes, header_size, is_committed}
use embeddenator_fs.Journal.Op.{JournalOp}
use embeddenator_fs.Journal.Op.Progress.{op_from_bytes_consumed}
use embeddenator_fs.Journal.Replay.{parse_ops, read_payload, with_record, replay_loop, replay}

-- A chain of steps that end ends.
bind-ne-stuck {ℓ κ} :
    {A : Type ℓ} {B : Type κ} (r : Result A) (f : A → Result B)
    → r ≢ stuck
    → ((a : A) → f a ≢ stuck)
    → (r >>= f) ≢ stuck
bind-ne-stuck (ok a) f h k = k a
bind-ne-stuck (err e) f h k = λ p. cc p
bind-ne-stuck stuck f h k = absurd (h refl)

module _ (lossy : List ℕ → List ℕ) where
  pub parse_ops-ne-stuck :
      (fuel : ℕ) (payload : List ℕ) (pos : ℕ)
      → length payload ≤ fuel + pos
      → parse_ops lossy fuel payload pos ≢ stuck
  unfolding parse_ops
  parse_ops-ne-stuck zero payload pos h = λ e. ground arith
  parse_ops-ne-stuck (suc fuel) payload pos h = elim (Bool-cases (ltb pos (length payload))) [
    | inr done ↦ rw done (λ e. cc e)
    | inl more ↦ elim (op_from_bytes_consumed lossy (drop pos payload)) [
      | inl (e, p) ↦ rw (more, p) (λ q. cc q)
      | inr (op, n, p, lo, hi) ↦
          rw (more, p)
            (bind-ne-stuck (parse_ops lossy fuel payload (pos + n)) _
              (parse_ops-ne-stuck fuel payload (pos + n) (omega arith)) (λ ops e. cc e))
    ]
  ]

  header-ne-stuck : (bytes : List ℕ) → header_from_bytes bytes ≢ stuck
  unfolding header_from_bytes
  header-ne-stuck bytes e = ground arith

  payload-ne-stuck : (h : RecordHeader) (body : List ℕ) → read_payload h body ≢ stuck
  unfolding read_payload
  payload-ne-stuck h body e = ground arith

  with_record-ne-stuck :
      (h : RecordHeader) (payload : List ℕ) (later : Result (List (ℕ × List JournalOp)))
      → later ≢ stuck
      → with_record lossy h payload later ≢ stuck
  unfolding with_record
  with_record-ne-stuck h payload later k = elim (Bool-cases (not (is_committed h.flags))) [
    | inl other ↦ rw other k
    | inr known ↦ rw known (
        bind-ne-stuck (parse_ops lossy (length payload) payload 0) _
          (parse_ops-ne-stuck (length payload) payload 0 (omega arith))
          (λ ops. bind-ne-stuck later _ k (λ ts e. cc e)))
  ]

  replay_loop-ne-stuck :
      (fuel : ℕ) (file : List ℕ) → length file ≤ fuel → replay_loop lossy fuel file ≢ stuck
  unfolding replay_loop
  replay_loop-ne-stuck zero file h = λ e. ground arith
  replay_loop-ne-stuck (suc fuel) file h = elim (Bool-cases (ltb (length file) header_size)) [
    | inl short ↦ rw short (λ e. cc e)
    | inr long ↦ rw long (
        bind-ne-stuck (header_from_bytes (take header_size file)) _ (header-ne-stuck _) (λ header.
          bind-ne-stuck (read_payload header (drop header_size file)) _ (payload-ne-stuck header _)
            (λ payload. with_record-ne-stuck header payload _ (
              replay_loop-ne-stuck fuel (drop header.payload_len (drop header_size file)) (
                omega (
                  arith,
                  length-drop header.payload_len (drop header_size file),
                  length-drop header_size file,
                  not_short long,
                ))))))
  ]
    where
      not_short : ltb (length file) header_size ≡ false → header_size ≤ length file
      not_short e = ground arith

  -- The recovery ends on every file, in the transactions or in an error: neither the loop over
  -- the records nor the loop over the operations of a payload runs out of fuel.
  pub replay-ne-stuck : (file : List ℕ) → replay lossy file ≢ stuck
  unfolding replay
  replay-ne-stuck file = replay_loop-ne-stuck (length file) file (omega arith)
