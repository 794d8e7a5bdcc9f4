-- ===== src/Correction/Store/RoundTrip.antt =====
-- What is read back from a `CorrectionStore` after `add`.
use embeddenator_fs.Prelude.{
  ℕ, ◌/◌, ◌<◌, ◌≤◌, ◌≡◌, ◌≢◌, ◌⊎◌, inl, inr, refl, sym, ◌∙◌, Option, none, some, List, Bool-cases,
  arith, if◌then◌else◌, length,
}
use embeddenator_fs.Prelude.Assoc.{nat_key, lookup, insert, lookup-insert, lookup-insert_self}
use embeddenator_fs.Prelude.Bytes.{bytes_eq, bytes_eq_iff, bytes_eq_refl}
use embeddenator_fs.Prelude.Run.{Run, ok, panic, ok_injective, panic_ne_ok}
use embeddenator_fs.Correction.{
  ChunkCorrection, CorrectionType, compute_correction, apply_correction, apply, verify,
  new_correction, compute_hash, compute_data_parity, diff_positions,
}
use embeddenator_fs.Correction.Strategy.{apply-compute_correction, compute_correction-exact_iff}
use embeddenator_fs.Correction.Store.{CorrectionStore, record_correction, get, add, apply_stored}

module _ (sha256 : List ℕ → List ℕ) where
  abbrev made : ℕ → List ℕ → CorrectionType → ChunkCorrection
  made id o c = record {
    chunk_id = id;
    correction = c;
    hash = compute_hash sha256 o;
    parity = compute_data_parity o;
  }

  get-record_correction :
      (s : CorrectionStore) (id j : ℕ) (o : List ℕ) (c : ChunkCorrection)
      → get (record_correction s id o c) j ≡ lookup j (insert id c s.corrections)
  unfolding get record_correction
  get-record_correction s id j o c = ground arith

  add-made :
      (s : CorrectionStore) (id : ℕ) (o a : List ℕ) (c : CorrectionType)
      → compute_correction o a ≡ ok c
      → add sha256 s id o a ≡ ok (record_correction s id o (made id o c))
  unfolding add new_correction
  add-made s id o a c e = rw e

  stored_result :
      (t : CorrectionStore) (id : ℕ) (a : List ℕ) (c : ChunkCorrection)
      → get t id ≡ some c
      → apply_stored sha256 t id a
        ≡ (if verify sha256 c (apply c a) then some (apply c a) else none)
  unfolding apply_stored
  stored_result t id a c e = rw (e, apply_stored)

  apply_added :
      (s : CorrectionStore) (id : ℕ) (o a : List ℕ) (c : CorrectionType)
      → apply_stored sha256 (record_correction s id o (made id o c)) id a ≡ (
          if bytes_eq (compute_hash sha256 (apply_correction c a)) (compute_hash sha256 o)
          then some (apply_correction c a)
          else none)
  apply_added s id o a c =
      stored_result (record_correction s id o (made id o c)) id a (made id o c) (
        get-record_correction s id id o (made id o c)
        ∙ lookup-insert_self id (made id o c) s.corrections)
      ∙ (unfold apply verify in refl)

  -- For an approximation of the length of the original, `add` succeeds on any store, `apply` with
  -- that id and approximation then returns the original, and the other ids keep their corrections.
  pub apply_stored-add :
      (s : CorrectionStore) (id : ℕ) (o a : List ℕ)
      → length o ≡ length a
      → (t : CorrectionStore) × (add sha256 s id o a ≡ ok t)
        × (apply_stored sha256 t id a ≡ some o)
        × ((j : ℕ) → id ≢ j → get t j ≡ get s j)
  apply_stored-add s id o a e =
      let (c, computed, mends) = apply-compute_correction o a e in
      (
        record_correction s id o (made id o c),
        add-made s id o a c computed,
        apply_added s id o a c ∙ rw (mends, bytes_eq_refl (compute_hash sha256 o)),
        λ j ne.
            get-record_correction s id j o (made id o c)
            ∙ unfold get in ground (arith, lookup-insert id j (made id o c) s.corrections),
      )

  abbrev Refused : List ℕ → Option (List ℕ) → Type 0
  Refused o found =
      (found ≢ some o)
      × ((found ≡ none)
          ⊎ ((r : List ℕ) × (r ≢ o)
              × (compute_hash sha256 r ≡ compute_hash sha256 o)
              × (found ≡ some r)))

  Refused-unless_collision :
      (o r : List ℕ)
      → r ≢ o
      → Refused o
          (if bytes_eq (compute_hash sha256 r) (compute_hash sha256 o) then some r else none)
  Refused-unless_collision o r ne =
      elim (Bool-cases (bytes_eq (compute_hash sha256 r) (compute_hash sha256 o))) [
        | inl same ↦ rw same ((λ p. ne (cc p)), inr (r, ne, (bytes_eq_iff _ _).0 same, refl))
        | inr differ ↦ rw differ ((λ p. cc p), inl refl)
      ]

  -- Where the lengths differ and at most half as many bytes as the original has differ, `apply`
  -- after a successful `add` returns nothing, unless the digests of two slices of different lengths
  -- start with the same 8 bytes; it never returns the original.
  pub apply_stored-add_unequal :
      (s t : CorrectionStore) (id : ℕ) (o a : List ℕ)
      → length a ≢ length o
      → length (diff_positions o a) ≤ length o / 2
      → add sha256 s id o a ≡ ok t
      → (apply_stored sha256 t id a ≢ some o)
        × ((apply_stored sha256 t id a ≡ none)
            ⊎ ((r : List ℕ) × (r ≢ o)
                × (compute_hash sha256 r ≡ compute_hash sha256 o)
                × (apply_stored sha256 t id a ≡ some r)))
  apply_stored-add_unequal s t id o a ne few e = go (compute_correction o a) refl
    where
      not_exact : ¬ ((length a ≡ length o) ⊎ (length o / 2 < length (diff_positions o a)))
      not_exact (inl p) = ne p
      not_exact (inr p) = omega arith

      panics : compute_correction o a ≡ panic → add sha256 s id o a ≡ panic
      panics p = unfold add new_correction in rw p

      go :
          (m : Run CorrectionType)
          → compute_correction o a ≡ m
          → Refused o (apply_stored sha256 t id a)
      go panic p = panic_ne_ok (sym (panics p) ∙ e)
      go (ok c) p =
          let q : record_correction s id o (made id o c) ≡ t =
            ok_injective (sym (add-made s id o a c p) ∙ e) in
          rw (← q, apply_added s id o a c)
            (Refused-unless_collision o (apply_correction c a)
              (λ same. not_exact ((compute_correction-exact_iff o a c p).0 same)))
