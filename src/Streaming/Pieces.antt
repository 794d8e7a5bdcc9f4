-- ===== src/Streaming/Pieces.antt =====
-- Lists taken and dropped in two steps.
use embeddenator_fs.Prelude.{
  ℕ, zero, suc, ◌+◌, ◌-◌, ◌≤◌, ◌≡◌, refl, sym, ap, ◌∙◌, none, some, List, [], ◌∷◌, ◌++◌, get_elem?,
  take, drop, arith,
}
use embeddenator_fs.Manifest.Entry.Offsets.Ranges.{take_nil, drop_nil}

nil_ne_cons : (x : ℕ) (xs : List ℕ) → ◌≡◌ {A = List ℕ} [] (x ∷ xs) → ⊥
nil_ne_cons x xs h = cc

head_of : (y x : ℕ) (xs ys : List ℕ) → y ∷ xs ≡ x ∷ ys → some y ≡ some x
head_of y x xs ys h = cc

tail_of : (y x : ℕ) (xs ys : List ℕ) → y ∷ xs ≡ x ∷ ys → xs ≡ ys
tail_of y x xs ys h = cc

pub drop_head :
    (i x : ℕ) (xs ys : List ℕ)
    → drop i xs ≡ x ∷ ys
    → (get_elem? xs i ≡ some x) × (drop (i + 1) xs ≡ ys)
drop_head i x [] ys h = absurd (nil_ne_cons x ys (sym (drop_nil i) ∙ h))
drop_head zero x (y ∷ xs) ys h = (head_of y x xs ys h, tail_of y x xs ys h)
drop_head (suc i) x (y ∷ xs) ys h =
    let (a, b) = drop_head i x xs ys h in
    let next : suc i + 1 ≡ suc (i + 1) = omega arith in (a, ap (λ n. drop n (y ∷ xs)) next ∙ b)

pub drop_end : (i : ℕ) (xs : List ℕ) → drop i xs ≡ [] → get_elem? xs i ≡ none
drop_end i [] h = refl
drop_end zero (y ∷ xs) h = absurd (nil_ne_cons y xs (sym h))
drop_end (suc i) (y ∷ xs) h = drop_end i xs h

pub drop-drop : (n m : ℕ) (xs : List ℕ) → drop m (drop n xs) ≡ drop (n + m) xs
drop-drop zero m xs = let same : m ≡ 0 + m = omega arith in ap (λ k. drop k xs) same
drop-drop (suc n) m [] = drop_nil m ∙ sym (drop_nil (suc n + m))
drop-drop (suc n) m (x ∷ xs) =
    let next : suc (n + m) ≡ suc n + m = omega arith in
    drop-drop n m xs ∙ ap (λ k. drop k (x ∷ xs)) next

pub take_two : (n m : ℕ) (xs : List ℕ) → n ≤ m → take n xs ++ take (m - n) (drop n xs) ≡ take m xs
take_two zero m xs h = let same : m - 0 ≡ m = omega arith in ap (λ k. take k xs) same
take_two (suc n) zero xs h = absurd (omega arith)
take_two (suc n) (suc m) [] h = take_nil (suc m - suc n)
take_two (suc n) (suc m) (x ∷ xs) h =
    let same : suc m - suc n ≡ m - n = omega arith in
    ap (λ t. x ∷ t) (ap (λ k. take n xs ++ take k (drop n xs)) same ∙ take_two n m xs (omega arith))
