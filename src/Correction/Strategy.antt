-- ===== src/Correction/Strategy.antt =====
-- What `compute_correction` promises: exactness, panics and the size of what it stores.
use embeddenator_fs.Prelude.{
  ℕ, suc, ◌+◌, ◌-◌, ◌*◌, ◌/◌, ◌≤◌, ◌<◌, min, max, ◌≡◌, refl, sym, ap, ◌∙◌, ◌↔◌, List, [], ◌∷◌, ◌++◌,
  map, true, false, Bool-cases, ◌&&◌, inl, inr, ◌⊎◌, arith, ltb, ◌==◌, ==_iff, length, take, drop,
  get_or_ext, length-append, length-take, length-drop, length-set,
}
use embeddenator_fs.Prelude.Bytes.{bytes_eq, bytes_eq_iff}
use embeddenator_fs.Prelude.Run.{Run, ok, ok_injective}
use embeddenator_fs.Correction.{
  CorrectionType, none, bit_flips, trit_flips, block_replace, verbatim, diff_positions, first_diff,
  span, flip_of, block_correction, choose_correction, compute_correction, apply_bit_flips,
  apply_block, apply_correction, correction_size,
}
use embeddenator_fs.Correction.Diff.{diff_none}
use embeddenator_fs.Correction.Exact.{bit_flips_exact, block_exact}

no_difference : (o a : List ℕ) → length o ≡ length a → length (diff_positions o a) ≡ 0 → a ≡ o
no_difference o a e z =
    get_or_ext 0 a o (sym e)
      (λ j h. sym (diff_none (max (length o) (length a)) 0 o a z j (omega arith) (omega arith)))

abbrev MendedBy : List ℕ → List ℕ → Run CorrectionType → Type 0
MendedBy o a r = (c : CorrectionType) × (r ≡ ok c) × (apply_correction c a ≡ o)

choose_exact :
    (o a : List ℕ) → length o ≡ length a → MendedBy o a (choose_correction o (diff_positions o a))
choose_exact o a e =
    let ds = diff_positions o a in
    elim (Bool-cases (length ds == 0)) [
      | inl z ↦ (
        none,
        unfold choose_correction in rw z,
        unfold apply_correction in no_difference o a e ((==_iff _ _).0 z),
      )
      | inr z ↦ elim (Bool-cases (ltb (length o / 2) (length ds))) [
        | inl many ↦
            (verbatim o, unfold choose_correction in rw (z, many), unfold apply_correction in refl)
        | inr few ↦ elim (Bool-cases (ltb 10 (length ds) && ltb (span ds) (length ds * 9))) [
          | inl clustered ↦
              let (c, made, mends) = block_exact o a e (ground arith) in
              (c, unfold choose_correction in rw (z, few, clustered) made, mends)
          | inr sparse ↦ (
            bit_flips (map flip_of ds),
            unfold choose_correction in rw (z, few, sparse),
            unfold apply_correction in bit_flips_exact o a e,
          )
        ]
      ]
    ]

-- For an approximation of the length of the original, `compute_correction` returns (it does not
-- panic), and applying its result to the approximation gives the original.
pub apply-compute_correction :
    (o a : List ℕ)
    → length o ≡ length a
    → (c : CorrectionType) × (compute_correction o a ≡ ok c) × (apply_correction c a ≡ o)
apply-compute_correction o a e = elim (Bool-cases (bytes_eq o a)) [
  | inl same ↦ (
    none,
    unfold compute_correction in rw same,
    unfold apply_correction in sym ((bytes_eq_iff o a).0 same),
  )
  | inr differ ↦
      let (c, made, mends) = choose_exact o a e in
      (c, unfold compute_correction in rw differ made, mends)
]

pub length-apply_bit_flips :
    (flips : List (ℕ × ℕ)) (r : List ℕ) → length (apply_bit_flips flips r) ≡ length r
unfolding apply_bit_flips
length-apply_bit_flips [] r = refl
length-apply_bit_flips ((pos, mask) ∷ flips) r = elim (Bool-cases (ltb pos (length r))) [
  | inl h ↦ rw h (length-apply_bit_flips flips _ ∙ length-set r pos _)
  | inr h ↦ rw h (length-apply_bit_flips flips r)
]

pub length-apply_block :
    (start : ℕ) (block r : List ℕ) → length (apply_block start block r) ≡ length r
unfolding apply_block
length-apply_block start block r = elim (Bool-cases (ltb start (length r))) [
  | inl h ↦ rw h (
      omega (
        arith,
        inside h,
        length-append (take start r) (take (end - start) block ++ drop end r),
        length-append (take (end - start) block) (drop end r),
        length-take start r,
        length-take (end - start) block,
        length-drop end r,
      ))
  | inr h ↦ rw h
]
  where
    end : ℕ
    end = min (start + length block) (length r)

    inside : ltb start (length r) ≡ true → start < length r
    inside h = ground arith

-- Where few bytes differ, what is chosen does not change the length.
few_keep_length :
    (o a : List ℕ) (ds : List (ℕ × ℕ × ℕ)) (c : CorrectionType)
    → length ds ≤ length o / 2
    → choose_correction o ds ≡ ok c
    → length (apply_correction c a) ≡ length a
unfolding choose_correction block_correction apply_correction
few_keep_length o a ds none few h = refl
few_keep_length o a ds (bit_flips flips) few h = length-apply_bit_flips flips a
few_keep_length o a ds (trit_flips flips) few h = ground arith
few_keep_length o a ds (block_replace start block) few h = length-apply_block start block a
few_keep_length o a ds (verbatim bytes) few h = ground arith

many_verbatim :
    (o a : List ℕ) (c : CorrectionType)
    → length o / 2 < length (diff_positions o a)
    → choose_correction o (diff_positions o a) ≡ ok c
    → apply_correction c a ≡ o
unfolding choose_correction apply_correction
many_verbatim o a c h e = ground arith

pub compute-choose :
    (o a : List ℕ)
    → bytes_eq o a ≡ false
    → compute_correction o a ≡ choose_correction o (diff_positions o a)
unfolding compute_correction
compute-choose o a h = rw h

exact_forward :
    (o a : List ℕ) (c : CorrectionType)
    → compute_correction o a ≡ ok c
    → apply_correction c a ≡ o
    → (length a ≡ length o) ⊎ (length o / 2 < length (diff_positions o a))
exact_forward o a c made mends = elim (Bool-cases (bytes_eq o a)) [
  | inl same ↦ inl (ap length (sym ((bytes_eq_iff o a).0 same)))
  | inr differ ↦ elim (Bool-cases (ltb (length o / 2) (length (diff_positions o a)))) [
    | inl many ↦ inr (ground arith)
    | inr few ↦ inl (
        sym (
          few_keep_length o a (diff_positions o a) c (ground arith)
            (sym (compute-choose o a differ) ∙ made))
        ∙ ap length mends)
  ]
]

exact_backward :
    (o a : List ℕ) (c : CorrectionType)
    → compute_correction o a ≡ ok c
    → (length a ≡ length o) ⊎ (length o / 2 < length (diff_positions o a))
    → apply_correction c a ≡ o
exact_backward o a c made (inl e) =
    let (c', made', mends) = apply-compute_correction o a (sym e) in
    ap (λ t. apply_correction t a) (ok_injective (sym made ∙ made')) ∙ mends
exact_backward o a c made (inr many) = elim (Bool-cases (bytes_eq o a)) [
  | inl same ↦ unfold compute_correction apply_correction in ground (arith, (bytes_eq_iff o a).0)
  | inr differ ↦ many_verbatim o a c many (sym (compute-choose o a differ) ∙ made)
]

-- A correction that `compute_correction` returned restores the original exactly when the
-- approximation has the length of the original or more than half as many bytes as the original
-- has differ, counting the bytes past the end of a slice as 0.
pub compute_correction-exact_iff :
    (o a : List ℕ) (c : CorrectionType)
    → compute_correction o a ≡ ok c
    → (apply_correction c a ≡ o)
      ↔ ((length a ≡ length o) ⊎ (length o / 2 < length (diff_positions o a)))
compute_correction-exact_iff o a c made = (exact_forward o a c made, exact_backward o a c made)

length-map {ℓ κ} :
    {A : Type ℓ} {B : Type κ} (f : A → B) (xs : List A) → length (map f xs) ≡ length xs
length-map f [] = refl
length-map f (x ∷ xs) = ap suc (length-map f xs)

choose_size :
    (o : List ℕ) (ds : List (ℕ × ℕ × ℕ)) (c : CorrectionType)
    → choose_correction o ds ≡ ok c
    → correction_size c * 2 ≤ length o * 9
unfolding choose_correction block_correction correction_size
choose_size o ds none h = omega arith
choose_size o ds (bit_flips flips) h = ground (arith, length-map flip_of ds)
choose_size o ds (trit_flips flips) h = ground arith
choose_size o ds (block_replace start block) h = ground (
  arith,
  length-take (min (first_diff ds + span ds) (length o) - first_diff ds) (drop (first_diff ds) o),
)
choose_size o ds (verbatim bytes) h = ground arith

-- What `compute_correction` stores is at most 9/2 of the size of the original.
pub correction_size_bound :
    (o a : List ℕ) (c : CorrectionType)
    → compute_correction o a ≡ ok c
    → correction_size c * 2 ≤ length o * 9
correction_size_bound o a c h = elim (Bool-cases (bytes_eq o a)) [
  | inl same ↦ unfold compute_correction correction_size in ground arith
  | inr differ ↦ choose_size o (diff_positions o a) c (sym (compute-choose o a differ) ∙ h)
]
