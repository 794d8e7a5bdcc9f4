-- ===== src/Correction/Exact.antt =====
-- The correction of an approximation that has the length of the original gives the original back.
use native.Mathlib.Decide.{dec_lt}
use embeddenator_fs.Prelude.{
  ℕ, zero, suc, ◌+◌, ◌-◌, ◌≤◌, ◌<◌, min, max, bit_xor, ◌≡◌, refl, sym, ap, ◌∙◌, List, ◌∷◌, ◌++◌,
  map, Bool-cases, inl, inr, ◌⊎◌, arith, ◌==◌, ==_iff, lt→ltb, le→leb, take_all, length, get_or,
  set, take, drop, get_or_ext, length-append, length-take, length-drop, length-set, get_or-set_self,
  get_or-set_ne, get_or-append_left, get_or-append_right, get_or-take, get_or-drop,
}
use embeddenator_fs.Prelude.Xor.{bit_xor_difference}
use embeddenator_fs.Prelude.Bytes.{slice}
use embeddenator_fs.Prelude.Run.{ok}
use embeddenator_fs.Correction.{
  CorrectionType, block_replace, diff_positions_from, diff_positions, first_diff, last_diff, span,
  flip_of, block_correction, apply_bit_flips, apply_block, apply_correction,
}
use embeddenator_fs.Correction.Diff.{diff_step, diff_bounds, diff_outside}

-- The flips of the scan from `i` mend a slice that agrees with the original below `i` and with
-- the approximation from `i` on.
apply_flips_mends :
    (n i : ℕ) (o a r : List ℕ)
    → i + n ≡ length o
    → length r ≡ length o
    → ((j : ℕ) → j < i → get_or r j 0 ≡ get_or o j 0)
    → ((j : ℕ) → i ≤ j → get_or r j 0 ≡ get_or a j 0)
    → apply_bit_flips (map flip_of (diff_positions_from n i o a)) r ≡ o
apply_flips_mends zero i o a r e l below above =
    unfold diff_positions_from apply_bit_flips in get_or_ext 0 r o l (λ j h. below j (omega arith))
apply_flips_mends (suc n) i o a r e l below above = elim (diff_step n i o a) [
  | inl (same, s) ↦
      ap (λ ds. apply_bit_flips (map flip_of ds) r) s
      ∙ apply_flips_mends n (i + 1) o a r (omega arith) l
          (λ j h. elim (Bool-cases (j == i)) [
            | inl q ↦ rw ((==_iff j i).0 q) (above i (omega arith) ∙ sym same)
            | inr q ↦ below j (ground arith)
          ])
          (λ j h. above j (omega arith))
  | inr (differs, s) ↦
      let fixed = set r i (bit_xor (get_or r i 0) (bit_xor (get_or o i 0) (get_or a i 0))) in
      ap (λ ds. apply_bit_flips (map flip_of ds) r) s
      ∙ flip_in_bounds (i) (bit_xor (get_or o i 0) (get_or a i 0))
          (map flip_of (diff_positions_from n (i + 1) o a)) r (omega arith)
      ∙ apply_flips_mends n (i + 1) o a fixed (omega arith) (length-set r i _ ∙ l)
          (λ j h. elim (Bool-cases (i == j)) [
            | inl q ↦ rw (← (==_iff i j).0 q) (get_or-set_self 0 r i _ (omega arith) ∙ mended)
            | inr q ↦ get_or-set_ne 0 r i j _ (ground arith) ∙ below j (ground arith)
          ])
          (λ j h. get_or-set_ne 0 r i j _ (omega arith) ∙ above j (omega arith))
]
  where
    flip_in_bounds :
        (pos mask : ℕ) (flips : List (ℕ × ℕ)) (result : List ℕ)
        → pos < length result
        → apply_bit_flips ((pos, mask) ∷ flips) result
          ≡ apply_bit_flips flips (set result pos (bit_xor (get_or result pos 0) mask))
    flip_in_bounds pos mask flips result h =
        unfold apply_bit_flips in rw (lt→ltb pos (length result) h)

    mended : bit_xor (get_or r i 0) (bit_xor (get_or o i 0) (get_or a i 0)) ≡ get_or o i 0
    mended =
        ap (λ t. bit_xor t (bit_xor (get_or o i 0) (get_or a i 0))) (above i (omega arith))
        ∙ bit_xor_difference (get_or o i 0) (get_or a i 0)

pub bit_flips_exact :
    (o a : List ℕ) → length o ≡ length a → apply_bit_flips (map flip_of (diff_positions o a)) a ≡ o
bit_flips_exact o a e =
    apply_flips_mends (max (length o) (length a)) 0 o a a (omega arith) (sym e)
      (λ j h. absurd (omega arith)) (λ j h. refl)

-- What `apply_block` writes for the block `original[s..e]`.
splice_eq :
    (o a : List ℕ) (s e : ℕ)
    → length o ≡ length a
    → s < e
    → e ≤ length o
    → apply_block s (slice o s e) a ≡ take s a ++ (slice o s e ++ drop e a)
unfolding apply_block
splice_eq o a s e l lt le =
    rw (lt→ltb s (length a) (omega arith), at_end)
      (ap (λ t. take s a ++ (t ++ drop e a)) (take_all (e - s) (slice o s e) (omega (arith, size))))
  where
    size : length (slice o s e) ≡ e - s
    size = length-take (e - s) (drop s o) ∙ omega (arith, length-drop s o)

    at_end : min (s + length (slice o s e)) (length a) ≡ e
    at_end = omega (arith, size)

-- Replacing a range outside of which the two agree gives the original.
apply_block_mends :
    (o a : List ℕ) (s e : ℕ)
    → length o ≡ length a
    → s < e
    → e ≤ length o
    → ((j : ℕ) → j < length o → (j < s) ⊎ (e ≤ j) → get_or o j 0 ≡ get_or a j 0)
    → apply_block s (slice o s e) a ≡ o
apply_block_mends o a s e l lt le agree =
    splice_eq o a s e l lt le
    ∙ get_or_ext 0 (take s a ++ (slice o s e ++ drop e a)) o whole pointwise
  where
    front : length (take s a) ≡ s
    front = length-take s a ∙ omega arith

    size : length (slice o s e) ≡ e - s
    size = length-take (e - s) (drop s o) ∙ omega (arith, length-drop s o)

    whole : length (take s a ++ (slice o s e ++ drop e a)) ≡ length o
    whole = omega (
      arith,
      length-append (take s a) (slice o s e ++ drop e a),
      length-append (slice o s e) (drop e a),
      front,
      size,
      length-drop e a,
    )

    middle : (j : ℕ) → s ≤ j → j < e → get_or (slice o s e) (j - s) 0 ≡ get_or o j 0
    middle j lo hi =
        let p : s + (j - s) ≡ j = omega arith in
        get_or-take 0 (e - s) (drop s o) (j - s) (omega arith)
        ∙ get_or-drop 0 s o (j - s)
        ∙ ap (λ t. get_or o t 0) p

    behind : (j : ℕ) → e ≤ j → j < length o → get_or (drop e a) (j - s - (e - s)) 0 ≡ get_or o j 0
    behind j lo hi =
        let p : e + (j - s - (e - s)) ≡ j = omega arith in
        get_or-drop 0 e a (j - s - (e - s)) ∙ ap (λ t. get_or a t 0) p ∙ sym (agree j hi (inr lo))

    inner :
        (j : ℕ) → s ≤ j → j < length o → get_or (slice o s e ++ drop e a) (j - s) 0 ≡ get_or o j 0
    inner j lo hi = elim (dec_lt j e) [
      | yes p ↦
          get_or-append_left 0 (slice o s e) (drop e a) (j - s) (omega (arith, size))
          ∙ middle j lo p
      | no p ↦
          get_or-append_right 0 (slice o s e) (drop e a) (j - s) (omega (arith, size))
          ∙ ap (λ t. get_or (drop e a) (j - s - t) 0) size
          ∙ behind j (omega arith) hi
    ]

    pointwise :
        (j : ℕ)
        → j < length (take s a ++ (slice o s e ++ drop e a))
        → get_or (take s a ++ (slice o s e ++ drop e a)) j 0 ≡ get_or o j 0
    pointwise j h = elim (dec_lt j s) [
      | yes p ↦
          get_or-append_left 0 (take s a) _ j (omega (arith, front))
          ∙ get_or-take 0 s a j p
          ∙ sym (agree j (omega (arith, whole)) (inl p))
      | no p ↦
          get_or-append_right 0 (take s a) _ j (omega (arith, front))
          ∙ ap (λ t. get_or (slice o s e ++ drop e a) (j - t) 0) front
          ∙ inner j (omega arith) (omega (arith, whole))
    ]

-- With equal lengths the block is well formed and mends the approximation.
pub block_exact :
    (o a : List ℕ)
    → length o ≡ length a
    → 0 < length (diff_positions o a)
    → (c : CorrectionType) × (block_correction o (diff_positions o a) ≡ ok c)
      × (apply_correction c a ≡ o)
block_exact o a e p =
    let ds = diff_positions o a in
    let end = min (first_diff ds + span ds) (length o) in
    let bounds = diff_bounds (max (length o) (length a)) 0 o a p in
    (
      block_replace (first_diff ds) (slice o (first_diff ds) end),
      unfold block_correction in rw (le→leb (first_diff ds) end (omega (arith, bounds))),
      unfold apply_correction in
          apply_block_mends o a (first_diff ds) end e (omega (arith, bounds)) (omega arith)
            (λ j h out.
              diff_outside (max (length o) (length a)) 0 o a p j (omega arith) (omega arith)
                (outside j h out (omega (arith, bounds)))),
    )
  where
    outside :
        (j : ℕ)
        → j < length o
        → (j < first_diff (diff_positions o a))
          ⊎ (min (first_diff (diff_positions o a) + span (diff_positions o a)) (length o) ≤ j)
        → first_diff (diff_positions o a) ≤ last_diff (diff_positions o a)
        → (j < first_diff (diff_positions o a)) ⊎ (last_diff (diff_positions o a) < j)
    outside j h (inl q) b = inl q
    outside j h (inr q) b = inr (omega arith)
