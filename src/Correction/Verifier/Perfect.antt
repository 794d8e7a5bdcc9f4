-- ===== src/Correction/Verifier/Perfect.antt =====
-- When the verifier reports a perfect reconstruction.
use embeddenator_fs.Prelude.{
  ℕ, ◌+◌, ◌-◌, ◌^◌, ◌<◌, ◌≡◌, ◌≢◌, refl, ap, ◌∙◌, none, some, List, [], ◌∷◌, true, leb,
  if◌then◌else◌, length, arith,
}
use embeddenator_fs.Prelude.Assoc.{
  nat_key, lookup, insert, lookup-insert, lookup-insert_self, without_absent,
}
use embeddenator_fs.Prelude.Bytes.{bytes_eq_refl}
use embeddenator_fs.Correction.{compute_hash}
use embeddenator_fs.Correction.Verifier.{
  ReconstructionVerifier, Tally, collect_hashes, from_chunks, verify_chunk, verify_step,
  verify_loop, verify_all,
}

-- No chunk id stands in the list twice.
abbrev pub IsDistinct : List (ℕ × List ℕ) → Type 0
IsDistinct [] = Unit
IsDistinct ((id, bytes) ∷ chunks) = (lookup id chunks ≡ none) × IsDistinct chunks

module _ (sha256 : List ℕ → List ℕ) where
  -- The ids that the rest of the chunks does not name keep their hash.
  lookup-collect_hashes :
      (chunks m : List (ℕ × List ℕ)) (j : ℕ)
      → lookup j chunks ≡ none
      → lookup j (collect_hashes sha256 chunks m) ≡ lookup j m
  unfolding collect_hashes lookup
  lookup-collect_hashes [] m j h = refl
  lookup-collect_hashes ((id, bytes) ∷ chunks) m j h = ground (
    arith,
    lookup-collect_hashes chunks (insert id (compute_hash sha256 bytes) m) j,
    lookup-insert id j (compute_hash sha256 bytes) m,
  )

  -- None of the chunks has an entry in the map.
  abbrev IsFresh : List (ℕ × List ℕ) → List (ℕ × List ℕ) → Type 0
  IsFresh [] m = Unit
  IsFresh ((id, bytes) ∷ chunks) m = (lookup id m ≡ none) × IsFresh chunks m

  IsFresh-insert :
      (chunks m : List (ℕ × List ℕ)) (id : ℕ) (h : List ℕ)
      → lookup id chunks ≡ none
      → IsFresh chunks m
      → IsFresh chunks (insert id h m)
  unfolding lookup
  IsFresh-insert [] m id h absent f = tt
  IsFresh-insert ((j, bytes) ∷ chunks) m id h absent f =
      (ground (arith, lookup-insert id j h m), IsFresh-insert chunks m id h (ground arith) f.1)

  length-collect_hashes :
      (chunks m : List (ℕ × List ℕ))
      → IsDistinct chunks
      → IsFresh chunks m
      → length (collect_hashes sha256 chunks m) ≡ length chunks + length m
  unfolding collect_hashes insert
  length-collect_hashes [] m d f = omega arith
  length-collect_hashes ((id, bytes) ∷ chunks) m d f =
      let h = compute_hash sha256 bytes in
      length-collect_hashes chunks (insert id h m) d.1 (IsFresh-insert chunks m id h d.0 f.1)
      ∙ omega (arith, ap length (without_absent id m f.0))

  -- Every chunk is found under its id with its own hash.
  abbrev AllVerify : ReconstructionVerifier → List (ℕ × List ℕ) → Type 0
  AllVerify v [] = Unit
  AllVerify v ((id, bytes) ∷ chunks) = (verify_chunk sha256 v id bytes ≡ true) × AllVerify v chunks

  known_verifies :
      (v : ReconstructionVerifier) (id : ℕ) (bytes : List ℕ)
      → lookup id v.expected_hashes ≡ some (compute_hash sha256 bytes)
      → verify_chunk sha256 v id bytes ≡ true
  unfolding verify_chunk
  known_verifies v id bytes e = rw (e, verify_chunk) (bytes_eq_refl (compute_hash sha256 bytes))

  collected_verify :
      (chunks m : List (ℕ × List ℕ))
      → IsDistinct chunks
      → AllVerify (record { expected_hashes = collect_hashes sha256 chunks m }) chunks
  unfolding collect_hashes
  collected_verify [] m d = tt
  collected_verify ((id, bytes) ∷ chunks) m d =
      let h = compute_hash sha256 bytes in
      (
        known_verifies _ id bytes
            (lookup-collect_hashes chunks (insert id h m) id d.0 ∙ lookup-insert_self id h m),
        collected_verify chunks (insert id h m) d.1,
      )

  verify_loop_all :
      (v : ReconstructionVerifier) (chunks : List (ℕ × List ℕ)) (t : Tally)
      → AllVerify v chunks
      → t.verified + length chunks < 2 ^ 64
      → verify_loop sha256 v chunks t ≡ record t { verified = t.verified + length chunks }
  unfolding verify_loop verify_step
  verify_loop_all v [] t a r = ground arith
  verify_loop_all v ((id, bytes) ∷ chunks) t a r =
      ground (arith, verify_loop_all v chunks (record t { verified = t.verified + 1 }) a.1)

  -- A verifier made from chunks with distinct ids reports those chunks as a perfect
  -- reconstruction: all verified, none failed, none missing.
  pub verify_all-from_chunks :
      (chunks : List (ℕ × List ℕ))
      → IsDistinct chunks
      → length chunks < 2 ^ 64
      → verify_all sha256 (from_chunks sha256 chunks) chunks ≡ record {
        verified = length chunks;
        failed = 0;
        missing = 0;
        failed_ids = [];
        perfect = true;
      }
  unfolding verify_all from_chunks
  verify_all-from_chunks chunks d r = ground (
    arith,
    length-collect_hashes chunks [] d (no_entries chunks),
    verify_loop_all (from_chunks sha256 chunks) chunks
        (record { verified = 0; failed = 0; failed_ids = [] }) (collected_verify chunks [] d),
  )
    where
      no_entries : (cs : List (ℕ × List ℕ)) → IsFresh cs []
      no_entries [] = tt
      no_entries ((id, bytes) ∷ cs) = (unfold lookup in refl, no_entries cs)

  verify_loop_counts :
      (v : ReconstructionVerifier) (chunks : List (ℕ × List ℕ)) (t : Tally)
      → t.verified + t.failed + length chunks < 2 ^ 63
      → (verify_loop sha256 v chunks t).verified + (verify_loop sha256 v chunks t).failed
        ≡ t.verified + t.failed + length chunks
  unfolding verify_loop
  verify_loop_counts v [] t r = omega arith
  verify_loop_counts v (c ∷ chunks) t r =
      let step = one_counted v c t (omega arith) in
      verify_loop_counts v chunks (verify_step sha256 v c t) (omega (arith, step))
      ∙ omega (arith, step)
    where
      one_counted :
          (v : ReconstructionVerifier) (c : ℕ × List ℕ) (t : Tally)
          → t.verified + t.failed + 1 < 2 ^ 63
          → (verify_step sha256 v c t).verified + (verify_step sha256 v c t).failed
            ≡ t.verified + t.failed + 1
      one_counted v (id, bytes) t r = unfold verify_step in ground arith

  -- For fewer than 2^63 chunks and hashes, each chunk is counted as verified or as failed, and
  -- `missing` is the number of expected hashes less the number of chunks given; if more chunks are
  -- given than hashes are expected, that difference wraps around 2^64.
  pub verify_all-missing :
      (v : ReconstructionVerifier) (chunks : List (ℕ × List ℕ))
      → length chunks < 2 ^ 63
      → length v.expected_hashes < 2 ^ 63
      → ((verify_all sha256 v chunks).verified + (verify_all sha256 v chunks).failed
          ≡ length chunks)
        × ((verify_all sha256 v chunks).missing ≡ (
            if leb (length chunks) (length v.expected_hashes)
            then length v.expected_hashes - length chunks
            else length v.expected_hashes + 2 ^ 64 - length chunks))
  unfolding verify_all
  verify_all-missing v chunks r q =
      let n =
        verify_loop_counts v chunks (record { verified = 0; failed = 0; failed_ids = [] })
          (omega arith) in
      (omega (arith, n), ground (arith, n))

  -- The verifier of two chunks with different ids reports a perfect reconstruction when it is given
  -- the first chunk twice and the second never.
  pub verify_all_repeated :
      (id id' : ℕ) (bytes bytes' : List ℕ)
      → id ≢ id'
      → (verify_all sha256
          (from_chunks sha256 ((id, bytes) ∷ (id', bytes') ∷ []))
          ((id, bytes) ∷ (id, bytes) ∷ [])).perfect
        ≡ true
  unfolding verify_all from_chunks collect_hashes verify_loop verify_step
  verify_all_repeated id id' bytes bytes' ne =
      let chunks : List (ℕ × List ℕ) = (id, bytes) ∷ (id', bytes') ∷ [] in
      let found : verify_chunk sha256 (from_chunks sha256 chunks) id bytes ≡ true =
        (collected_verify chunks []
          (unfold lookup in ground arith, (unfold lookup in refl, tt))).0 in
      ground (
        arith,
        found,
        length-collect_hashes chunks [] (unfold lookup in ground arith, (unfold lookup in refl, tt))
            (unfold lookup in refl, (unfold lookup in refl, tt)),
      )
