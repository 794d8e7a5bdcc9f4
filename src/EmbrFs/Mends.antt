-- ===== src/EmbrFs/Mends.antt =====
-- A correction that was computed from a short decoding mends a longer one in the same bytes.
use embeddenator_fs.Prelude.{
  ℕ, zero, suc, ◌+◌, ◌-◌, ◌≤◌, ◌<◌, min, bit_xor, ◌≡◌, ◌≢◌, refl, sym, subst, ap, ◌∙◌, List, [],
  ◌∷◌, ◌++◌, append-nil, append_assoc, Bool-cases, leb_cases, lt→ltb, le→ltb, inl, inr, true, arith,
  length, length-append, length-take, length-drop, get_or, get_or-append_left, set, length-set,
  take, drop, take-append-drop,
}
use embeddenator_fs.Prelude.Bytes.{bytes_eq}
use embeddenator_fs.Prelude.Run.{ok, ok_injective}
use embeddenator_fs.Correction.{
  CorrectionType, Trit, none, bit_flips, trit_flips, block_replace, verbatim, diff_positions,
  block_correction, choose_correction, first_diff, span, compute_correction, apply_bit_flips,
  apply_block, apply_correction,
}
use embeddenator_fs.Correction.Strategy.{compute-choose, apply-compute_correction}
use embeddenator_fs.Manifest.Entry.Offsets.Ranges.{take_split, drop_split}

module _ {ℓ} {A : Type ℓ} where
  set-append_left :
      (xs ys : List A) (i : ℕ) (v : A) → i < length xs → set (xs ++ ys) i v ≡ set xs i v ++ ys
  set-append_left [] ys i v h = absurd (omega arith)
  set-append_left (x ∷ xs) ys zero v h = refl
  set-append_left (x ∷ xs) ys (suc i) v h =
      ap (λ t. x ∷ t) (set-append_left xs ys i v (omega arith))

  set-append_right :
      (xs ys : List A) (i : ℕ) (v : A)
      → length xs ≤ i
      → set (xs ++ ys) i v ≡ xs ++ set ys (i - length xs) v
  set-append_right [] ys i v h = let e : i ≡ i - 0 = omega arith in ap (λ t. set ys t v) e
  set-append_right (x ∷ xs) ys zero v h = absurd (omega arith)
  set-append_right (x ∷ xs) ys (suc i) v h =
      let e : i - length xs ≡ suc i - suc (length xs) = omega arith in
      ap (λ t. x ∷ t) (set-append_right xs ys i v (omega arith))
      ∙ ap (λ k. x ∷ (xs ++ set ys k v)) e

-- What a longer approximation becomes: `o`, and at most as many bytes more as it had more.
abbrev pub Extends : List ℕ → List ℕ → List ℕ → Type 0
Extends o t result = (more : List ℕ) × (result ≡ o ++ more) × (length more ≤ length t)

flips-Extends :
    (flips : List (ℕ × ℕ)) (a t : List ℕ)
    → Extends (apply_bit_flips flips a) t (apply_bit_flips flips (a ++ t))
unfolding apply_bit_flips
flips-Extends [] a t = (t, refl, omega arith)
flips-Extends ((pos, mask) ∷ flips) a t = elim (leb_cases (length a) pos) [
  | inl (_, behind) ↦ elim (leb_cases (length (a ++ t)) pos) [
    | inl (_, out) ↦
        rw (le→ltb pos (length a) behind, le→ltb pos (length (a ++ t)) out)
          (flips-Extends flips a t)
    | inr (_, inside) ↦
        let v = bit_xor (get_or (a ++ t) pos 0) mask in
        let (more, e, l) = flips-Extends flips a (set t (pos - length a) v) in
        rw
          (
            le→ltb pos (length a) behind,
            lt→ltb pos (length (a ++ t)) inside,
            set-append_right a t pos v behind,
          )
          (more, e, omega (arith, l, length-set t (pos - length a) v))
  ]
  | inr (_, before) ↦
      let v = bit_xor (get_or a pos 0) mask in
      rw
        (
          lt→ltb pos (length a) before,
          lt→ltb pos (length (a ++ t)) (omega (arith, before, length-append a t)),
          get_or-append_left 0 a t pos before,
          set-append_left a t pos v before,
        )
        (flips-Extends flips (set a pos v) t)
]

apply_block_append :
    (start : ℕ) (block a t : List ℕ)
    → start + length block ≤ length a
    → apply_block start block (a ++ t) ≡ apply_block start block a ++ t
unfolding apply_block
apply_block_append start block a t fits =
    let len = length-append a t in
    let end = start + length block in
    let e1 : min end (length a) ≡ end = omega (arith, fits) in
    let e2 : min end (length (a ++ t)) ≡ end = omega (arith, fits, len) in
    let z1 : start - length a ≡ 0 = omega (arith, fits) in
    let z2 : end - length a ≡ 0 = omega (arith, fits) in
    let front : take start (a ++ t) ≡ take start a =
      take_split start a t ∙ rw (z1) (append-nil (take start a)) in
    let back : drop end (a ++ t) ≡ drop end a ++ t = drop_split end a t ∙ rw (z2) refl in
    elim (leb_cases (length a) start) [
      | inl (_, at_end) ↦ elim (leb_cases (length (a ++ t)) start) [
        | inl (_, out) ↦
            rw (le→ltb start (length a) at_end, le→ltb start (length (a ++ t)) out) refl
        | inr (_, inside) ↦
            let none_written : end - start ≡ 0 = omega (arith, fits, at_end) in
            let same : end ≡ start = omega (arith, fits, at_end) in
            rw
              (
                le→ltb start (length a) at_end,
                lt→ltb start (length (a ++ t)) inside,
                e2,
                none_written,
              )
              (ap (λ k. take start (a ++ t) ++ drop k (a ++ t)) same
                ∙ take-append-drop start (a ++ t))
      ]
      | inr (_, inside) ↦
          rw
            (
              lt→ltb start (length a) inside,
              lt→ltb start (length (a ++ t)) (omega (arith, inside, len)),
              e1,
              e2,
              front,
              back,
            )
            (sym (
              append_assoc (take start a) (take (end - start) block ++ drop end a) t
              ∙ ap (λ r. take start a ++ r)
                  (append_assoc (take (end - start) block) (drop end a) t)))
    ]

block-Extends :
    (start : ℕ) (block a t : List ℕ)
    → start + length block ≤ length a
    → Extends (apply_block start block a) t (apply_block start block (a ++ t))
unfolding apply_block
block-Extends start block a t fits = (t, apply_block_append start block a t fits, omega arith)

block_fits :
    (o : List ℕ) (ds : List (ℕ × ℕ × ℕ)) (start : ℕ) (block : List ℕ)
    → choose_correction o ds ≡ ok (block_replace start block)
    → start + length block ≤ length o
unfolding choose_correction block_correction
block_fits o ds start block made = ground (
  arith,
  length-take (min (first_diff ds + span ds) (length o) - first_diff ds) (drop (first_diff ds) o),
  length-drop (first_diff ds) o,
)

no_trit_flips :
    (o : List ℕ) (ds : List (ℕ × ℕ × ℕ)) (flips : List (ℕ × Trit × Trit))
    → choose_correction o ds ≢ ok (trit_flips flips)
unfolding choose_correction block_correction
no_trit_flips o ds flips made = ground arith

chosen-Extends :
    (o a t : List ℕ) (c : CorrectionType)
    → length o ≡ length a
    → choose_correction o (diff_positions o a) ≡ ok c
    → Extends (apply_correction c a) t (apply_correction c (a ++ t))
unfolding apply_correction
chosen-Extends o a t none e made = (t, refl, omega arith)
chosen-Extends o a t (bit_flips flips) e made = flips-Extends flips a t
chosen-Extends o a t (trit_flips flips) e made =
    absurd (no_trit_flips o (diff_positions o a) flips made)
chosen-Extends o a t (block_replace start block) e made =
    block-Extends start block a t
      (omega (arith, e, block_fits o (diff_positions o a) start block made))
chosen-Extends o a t (verbatim bytes) e made = ([], sym (append-nil bytes), omega arith)

unchanged : (o a : List ℕ) → bytes_eq o a ≡ true → compute_correction o a ≡ ok none
unfolding compute_correction
unchanged o a same = rw same refl

-- A correction that was computed from the first bytes of a longer approximation gives the original
-- back, with at most as many bytes behind it as the approximation has more.
pub compute_correction-Extends :
    (o a t : List ℕ) (c : CorrectionType)
    → length o ≡ length a
    → compute_correction o a ≡ ok c
    → Extends o t (apply_correction c (a ++ t))
compute_correction-Extends o a t c e made =
    let (c', made', mends) = apply-compute_correction o a e in
    let exact : apply_correction c a ≡ o =
      ap (λ k. apply_correction k a) (ok_injective (sym made ∙ made')) ∙ mends in
    subst (λ r. Extends r t (apply_correction c (a ++ t))) exact (computed o a t c e made)
  where
    computed :
        (o a t : List ℕ) (c : CorrectionType)
        → length o ≡ length a
        → compute_correction o a ≡ ok c
        → Extends (apply_correction c a) t (apply_correction c (a ++ t))
    computed o a t c e made = elim (Bool-cases (bytes_eq o a)) [
      | inl same ↦
          let is_none : none ≡ c = ok_injective (sym (unchanged o a same) ∙ made) in
          subst (λ k. Extends (apply_correction k a) t (apply_correction k (a ++ t))) is_none
            (unfold apply_correction in (t, refl, omega arith))
      | inr differ ↦ chosen-Extends o a t c e (sym (compute-choose o a differ) ∙ made)
    ]
