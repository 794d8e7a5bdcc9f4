-- ===== src/Correction/Diff.antt =====
-- The scan for differences: where two slices agree, and the order of the positions found.
use native.Mathlib.Decide.{dec_lt}
use embeddenator_fs.Prelude.{
  ℕ, zero, suc, ◌+◌, ◌≤◌, ◌<◌, ◌≡◌, refl, ap, ◌≢◌, List, [], ◌∷◌, Bool-cases, inl, inr, ◌⊎◌, arith,
  ◌==◌, ==_iff, length, get_or,
}
use embeddenator_fs.Correction.{diff_positions_from, first_diff, last_diff}

pub length-diff_positions_from : (n i : ℕ) (o a : List ℕ) → length (diff_positions_from n i o a) ≤ n
unfolding diff_positions_from
length-diff_positions_from zero i o a = omega arith
length-diff_positions_from (suc n) i o a = ground (arith, length-diff_positions_from n (i + 1) o a)

-- One round of the scan.
pub diff_step :
    (n i : ℕ) (o a : List ℕ)
    → ((get_or o i 0 ≡ get_or a i 0)
        × (diff_positions_from (suc n) i o a ≡ diff_positions_from n (i + 1) o a))
      ⊎ ((get_or o i 0 ≢ get_or a i 0)
          × (diff_positions_from (suc n) i o a
              ≡ (i, get_or o i 0, get_or a i 0) ∷ diff_positions_from n (i + 1) o a))
unfolding diff_positions_from
diff_step n i o a = elim (Bool-cases (get_or o i 0 == get_or a i 0)) [
  | inl e ↦ inl ((==_iff _ _).0 e, rw e)
  | inr e ↦ inr (λ p. ground arith, rw e)
]

last_diff-cons :
    (d : ℕ × ℕ × ℕ) (ds : List (ℕ × ℕ × ℕ)) → 0 < length ds → last_diff (d ∷ ds) ≡ last_diff ds
unfolding last_diff
last_diff-cons d [] h = absurd (omega arith)
last_diff-cons d (e ∷ ds) h = refl

first_diff-cons : (d : ℕ × ℕ × ℕ) (ds : List (ℕ × ℕ × ℕ)) → first_diff (d ∷ ds) ≡ d.0
unfolding first_diff
first_diff-cons d ds = refl

-- All positions found lie in the scanned range.
pub diff_bounds :
    (n i : ℕ) (o a : List ℕ)
    → 0 < length (diff_positions_from n i o a)
    → (i ≤ first_diff (diff_positions_from n i o a))
      × (first_diff (diff_positions_from n i o a) ≤ last_diff (diff_positions_from n i o a))
      × (last_diff (diff_positions_from n i o a) < i + n)
diff_bounds zero i o a h = absurd (unfold diff_positions_from in omega arith)
diff_bounds (suc n) i o a h = elim (diff_step n i o a) [
  | inl (e, s) ↦ ground (arith, s, diff_bounds n (i + 1) o a)
  | inr (e, s) ↦ rw s (cons_bounds (diff_positions_from n (i + 1) o a) (diff_bounds n (i + 1) o a))
]
  where
    cons_bounds :
        (ds : List (ℕ × ℕ × ℕ))
        → (0 < length ds
            → (i + 1 ≤ first_diff ds) × (first_diff ds ≤ last_diff ds) × (last_diff ds < i + 1 + n))
        → (i ≤ first_diff ((i, get_or o i 0, get_or a i 0) ∷ ds))
          × (first_diff ((i, get_or o i 0, get_or a i 0) ∷ ds)
              ≤ last_diff ((i, get_or o i 0, get_or a i 0) ∷ ds))
          × (last_diff ((i, get_or o i 0, get_or a i 0) ∷ ds) < i + suc n)
    cons_bounds [] ih = unfold first_diff last_diff in omega arith
    cons_bounds (d ∷ ds) ih = unfold first_diff last_diff in omega (arith, ih (omega arith))

-- Nothing found, nothing differs.
pub diff_none :
    (n i : ℕ) (o a : List ℕ)
    → length (diff_positions_from n i o a) ≡ 0
    → (j : ℕ) → i ≤ j
    → j < i + n
    → get_or o j 0 ≡ get_or a j 0
diff_none zero i o a h j lo hi = absurd (omega arith)
diff_none (suc n) i o a h j lo hi = elim (diff_step n i o a) [
  | inl (e, s) ↦ elim (Bool-cases (i == j)) [
    | inl q ↦ ground (arith, (==_iff i j).0 q)
    | inr q ↦ diff_none n (i + 1) o a (rw s at h) j (ground arith) (omega arith)
  ]
  | inr (e, s) ↦ absurd (omega (arith, ap length s))
]

-- Before the first and behind the last position found nothing differs.
pub diff_outside :
    (n i : ℕ) (o a : List ℕ)
    → 0 < length (diff_positions_from n i o a)
    → (j : ℕ) → i ≤ j
    → j < i + n
    → (j < first_diff (diff_positions_from n i o a)) ⊎ (last_diff (diff_positions_from n i o a) < j)
    → get_or o j 0 ≡ get_or a j 0
diff_outside zero i o a h j lo hi out = absurd (omega arith)
diff_outside (suc n) i o a h j lo hi out = elim (diff_step n i o a) [
  | inl (e, s) ↦ elim (Bool-cases (i == j)) [
    | inl q ↦ ground (arith, (==_iff i j).0 q)
    | inr q ↦ diff_outside n (i + 1) o a (rw s at h) j (ground arith) (omega arith) (rw s at out)
  ]
  | inr (e, s) ↦ elim out [
    | inl q ↦
        absurd
          (omega (arith, lo, first_diff-cons (i, get_or o i 0, get_or a i 0) _, ap first_diff s))
    | inr q ↦ elim (dec_lt 0 (length (diff_positions_from n (i + 1) o a))) [
      | yes p ↦
          diff_outside n (i + 1) o a p j (omega (arith, diff_bounds (suc n) i o a h)) (omega arith)
            (inr
              (omega (arith, ap last_diff s, last_diff-cons (i, get_or o i 0, get_or a i 0) _ p)))
      | no p ↦
          diff_none n (i + 1) o a (omega arith) j (omega (arith, diff_bounds (suc n) i o a h))
            (omega arith)
    ]
  ]
]
