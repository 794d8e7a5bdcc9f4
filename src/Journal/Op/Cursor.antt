-- ===== src/Journal/Op/Cursor.antt =====
-- Reading at a position of which it is known what stands behind it.
use embeddenator_fs.Prelude.{
  ℕ, zero, suc, ◌+◌, ◌-◌, ◌^◌, ◌<◌, ◌≤◌, ◌≡◌, refl, sym, ap, ◌∙◌, List, [], ◌∷◌, ◌++◌, length, take,
  drop, length-append, length-drop, take_append, drop_append, arith, le→ltb,
}
use embeddenator_fs.Prelude.Bytes.{to_le, from_le, from_le-to_le, length-to_le, slice}
use embeddenator_fs.Journal.Result.{Error, ok}
use embeddenator_fs.Journal.Record.{word_at}
use embeddenator_fs.Journal.Op.{read_word, read_bytes}

-- `rest` is what stands in `bytes` from `pos` on.
pub record At (bytes : List ℕ) (pos : ℕ) (rest : List ℕ) : Type 0 where
  pub dropped : drop pos bytes ≡ rest
  pub within : pos ≤ length bytes

drop-nil {ℓ} : {A : Type ℓ} (n : ℕ) → drop {A = A} n [] ≡ []
drop-nil zero = refl
drop-nil (suc n) = refl

drop-drop {ℓ} : {A : Type ℓ} (n m : ℕ) (xs : List A) → drop m (drop n xs) ≡ drop (n + m) xs
drop-drop zero m xs = let e : m ≡ 0 + m = omega arith in ap (λ t. drop t xs) e
drop-drop (suc n) m [] = drop-nil m ∙ sym (drop-nil (suc n + m))
drop-drop (suc n) m (x ∷ xs) =
    let e : suc (n + m) ≡ suc n + m = omega arith in drop-drop n m xs ∙ ap (λ t. drop t (x ∷ xs)) e

pub At-start : (b : ℕ) (bytes rest : List ℕ) → bytes ≡ rest → At (b ∷ bytes) 1 rest
At-start b bytes rest e = record { dropped = e; within = omega arith }

pub At-fits :
    (bytes : List ℕ) (pos n : ℕ) (mid rest : List ℕ)
    → At bytes pos (mid ++ rest)
    → length mid ≡ n
    → pos + n ≤ length bytes
At-fits bytes pos n mid rest at e =
    omega (arith, at.within, length-drop pos bytes, ap length at.dropped, length-append mid rest)

pub At-slice :
    (bytes : List ℕ) (pos n : ℕ) (mid rest : List ℕ)
    → At bytes pos (mid ++ rest)
    → length mid ≡ n
    → slice bytes pos (pos + n) ≡ mid
At-slice bytes pos n mid rest at e =
    let width : pos + n - pos ≡ length mid = omega (arith, e) in
    ap (λ t. take t (drop pos bytes)) width
    ∙ ap (λ t. take (length mid) t) at.dropped
    ∙ take_append (length mid) mid rest refl

pub At-next :
    (bytes : List ℕ) (pos n : ℕ) (mid rest : List ℕ)
    → At bytes pos (mid ++ rest)
    → length mid ≡ n
    → At bytes (pos + n) rest
At-next bytes pos n mid rest at e = record {
  dropped = sym (drop-drop pos n bytes) ∙ ap (λ t. drop n t) at.dropped ∙ drop_append n mid rest e;
  within = At-fits bytes pos n mid rest at e;
}

pub read_bytes-At :
    (e : Error) (bytes : List ℕ) (pos n : ℕ) (mid rest : List ℕ)
    → At bytes pos (mid ++ rest)
    → length mid ≡ n
    → read_bytes e n bytes pos ≡ ok (mid, pos + n)
unfolding read_bytes
read_bytes-At e bytes pos n mid rest at l = rw (
  le→ltb (length bytes) (pos + n) (At-fits bytes pos n mid rest at l),
  At-slice bytes pos n mid rest at l,
)

pub word_at-At :
    (bytes : List ℕ) (pos n x : ℕ) (rest : List ℕ)
    → At bytes pos (to_le n x ++ rest)
    → x < 256 ^ n
    → word_at bytes pos (pos + n) ≡ x
word_at-At bytes pos n x rest at h =
    ap from_le (At-slice bytes pos n (to_le n x) rest at (length-to_le n x)) ∙ from_le-to_le n x h

pub read_word-At :
    (e : Error) (bytes : List ℕ) (pos n x : ℕ) (rest : List ℕ)
    → At bytes pos (to_le n x ++ rest)
    → x < 256 ^ n
    → read_word e n bytes pos ≡ ok (x, pos + n)
unfolding read_word
read_word-At e bytes pos n x rest at h = rw (
  le→ltb (length bytes) (pos + n) (At-fits bytes pos n (to_le n x) rest at (length-to_le n x)),
  word_at-At bytes pos n x rest at h,
)

pub At-word :
    (bytes : List ℕ) (pos n x : ℕ) (rest : List ℕ)
    → At bytes pos (to_le n x ++ rest)
    → At bytes (pos + n) rest
At-word bytes pos n x rest at = At-next bytes pos n (to_le n x) rest at (length-to_le n x)
