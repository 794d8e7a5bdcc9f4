-- ===== src/Prelude/Bytes.antt =====
-- Little-endian words, and slices of a byte list.
use Prim.Native.Nat.{ℕ, zero, suc, ◌+◌, ◌-◌, ◌*◌, ◌/◌, ◌%◌, ◌^◌, ◌<◌}
use mathlib.Core.Path.{◌≡◌, refl, ap, ◌∙◌}
use mathlib.Core.Bool.{Bool, true, false, ◌&&◌}
use mathlib.Core.Logic.{◌↔◌}
use mathlib.Core.List.{List, [], ◌∷◌, ◌++◌}
use native.Mathlib.Omega.{arith}
use native.Mathlib.Nat.{pow-suc}
use embeddenator_fs.Prelude.Tests.{◌==◌}
use embeddenator_fs.Prelude.Lists.{length, take, drop, All, take_append, drop_append}

abbrev pub IsByte : ℕ → Type 0
IsByte b = b < 256

abbrev pub IsU32 : ℕ → Type 0
IsU32 n = n < 2 ^ 32

abbrev pub IsU64 : ℕ → Type 0
IsU64 n = n < 2 ^ 64

-- `x.to_le_bytes()` of an n-byte word, and `from_le_bytes`.
unfoldable pub to_le : ℕ → ℕ → List ℕ
to_le zero x = []
to_le (suc n) x = (x % 256) ∷ to_le n (x / 256)

unfoldable pub from_le : List ℕ → ℕ
from_le [] = 0
from_le (b ∷ bs) = b + 256 * from_le bs

pub length-to_le : (n x : ℕ) → length (to_le n x) ≡ n
unfolding to_le
length-to_le zero x = refl
length-to_le (suc n) x = ap suc (length-to_le n (x / 256))

pub to_le-IsByte : (n x : ℕ) → All IsByte (to_le n x)
unfolding to_le
to_le-IsByte zero x = tt
to_le-IsByte (suc n) x = (omega arith, to_le-IsByte n (x / 256))

-- A word that fits its bytes is read back.
pub from_le-to_le : (n x : ℕ) → x < 256 ^ n → from_le (to_le n x) ≡ x
unfolding to_le from_le
from_le-to_le zero x h = omega arith
from_le-to_le (suc n) x h = omega (arith, from_le-to_le n (x / 256) (omega (arith, pow-suc 256 n)))

-- Bytes that are read as a word are the bytes of that word.
pub to_le-from_le : (bs : List ℕ) → All IsByte bs → to_le (length bs) (from_le bs) ≡ bs
unfolding to_le from_le
to_le-from_le [] h = refl
to_le-from_le (b ∷ bs) (hb, hs) =
    ap (λ t. t ∷ to_le (length bs) ((b + 256 * from_le bs) / 256)) (omega arith)
    ∙ ap (λ t. b ∷ to_le (length bs) t) (omega arith)
    ∙ ap (λ t. b ∷ t) (to_le-from_le bs hs)

pub from_le-lt : (bs : List ℕ) → All IsByte bs → from_le bs < 256 ^ length bs
unfolding from_le
from_le-lt [] h = omega arith
from_le-lt (b ∷ bs) (hb, hs) = omega (arith, pow-suc 256 (length bs), from_le-lt bs hs)

-- `data[a..b]`, for a ≤ b ≤ data.len().
abbrev pub slice : List ℕ → ℕ → ℕ → List ℕ
slice bytes a b = take (b - a) (drop a bytes)

module _ {ℓ κ} {A : Type ℓ} (P : A → Type κ) where
  pub All-append : (xs ys : List A) → All P xs → All P ys → All P (xs ++ ys)
  All-append [] ys hx hy = hy
  All-append (x ∷ xs) ys hx hy = (hx.0, All-append xs ys hx.1 hy)

  pub All-take : (n : ℕ) (xs : List A) → All P xs → All P (take n xs)
  All-take zero xs h = tt
  All-take (suc n) [] h = tt
  All-take (suc n) (x ∷ xs) h = (h.0, All-take n xs h.1)

  pub All-drop : (n : ℕ) (xs : List A) → All P xs → All P (drop n xs)
  All-drop zero xs h = h
  All-drop (suc n) [] h = tt
  All-drop (suc n) (x ∷ xs) h = All-drop n xs h.1

-- The slice at the place where `mid` stands.
pub slice_at :
    (pre mid post : List ℕ) (a b : ℕ)
    → length pre ≡ a
    → a + length mid ≡ b
    → slice (pre ++ (mid ++ post)) a b ≡ mid
slice_at pre mid post a b p q =
    ap (λ t. take (b - a) t) (drop_append a pre (mid ++ post) p)
    ∙ take_append (b - a) mid post (omega arith)

pub from_le-slice_at :
    (pre post : List ℕ) (n x a b : ℕ)
    → length pre ≡ a
    → a + n ≡ b
    → x < 256 ^ n
    → from_le (slice (pre ++ (to_le n x ++ post)) a b) ≡ x
from_le-slice_at pre post n x a b p q h =
    ap from_le (slice_at pre (to_le n x) post a b p (omega (arith, length-to_le n x)))
    ∙ from_le-to_le n x h

-- `==` of byte slices.
unfoldable pub bytes_eq : List ℕ → List ℕ → Bool
bytes_eq [] [] = true
bytes_eq (x ∷ xs) (y ∷ ys) = x == y && bytes_eq xs ys
bytes_eq _ _ = false

pub bytes_eq_iff : (xs ys : List ℕ) → (bytes_eq xs ys ≡ true) ↔ (xs ≡ ys)
unfolding bytes_eq
bytes_eq_iff [] [] = (λ h. refl, λ h. refl)
bytes_eq_iff [] (y ∷ ys) = (λ h. cc, λ h. cc)
bytes_eq_iff (x ∷ xs) [] = (λ h. cc, λ h. cc)
bytes_eq_iff (x ∷ xs) (y ∷ ys) =
    (λ h. ground (arith, bytes_eq_iff xs ys), λ h. ground (arith, bytes_eq_iff xs ys))

pub bytes_eq_refl : (xs : List ℕ) → bytes_eq xs xs ≡ true
bytes_eq_refl xs = (bytes_eq_iff xs xs).1 refl
