-- ===== src/Delta/Appended.antt =====
-- The new chunks of an append: they hold the bytes that the last chunk has no room for.
use embeddenator_fs.Prelude.{
  ℕ, zero, suc, ◌+◌, ◌-◌, ◌*◌, ◌/◌, ◌%◌, ◌<◌, ◌≤◌, ◌≡◌, refl, sym, ap, ◌∙◌, subst, min, none,
  Option, List, [], ◌∷◌, ◌++◌, leb, ◌==◌, if◌then◌else◌, length, take, drop, take-append-drop,
  take_all, drop_all, length-drop, ◌↔◌, ==_iff, arith, Bool-cases, inl, inr,
}
use native.Mathlib.Nat.{
  add-mul, div-add-mod', mod-lt, div-lt_iff_lt-mul, mul-le-mul_right, le_of_mul-le-mul_right,
  lt_of_mul-lt-mul_right, lt-div-mul-add, add-mul-div_right, add-mul-mod_self_right,
}
use embeddenator_fs.Types.{ChunkOffset}
use embeddenator_fs.Delta.{
  NewChunk, append, appended_chunks, remaining_in_last, div_ceil, analyze_delta, analyze_append,
}

-- The bytes of the chunks, one after the other.
unfoldable pub new_bytes : List NewChunk → List ℕ
new_bytes [] = []
new_bytes (c ∷ cs) = c.bytes ++ new_bytes cs

drop-drop : (a b : ℕ) (xs : List ℕ) → drop a (drop b xs) ≡ drop (a + b) xs
drop-drop a zero xs = let e : a ≡ a + 0 = omega arith in ap (λ t. drop t xs) e
drop-drop zero (suc b) xs = let e : suc b ≡ 0 + suc b = omega arith in ap (λ t. drop t xs) e
drop-drop (suc a) (suc b) [] = let e : suc a + suc b ≡ suc (a + suc b) = omega arith in rw e refl
drop-drop (suc a) (suc b) (x ∷ xs) =
    let e : suc a + suc b ≡ suc (suc a + b) = omega arith in rw e (drop-drop (suc a) b xs)

take_at_most : (n m : ℕ) (xs : List ℕ) → m ≡ min n (length xs) → take m xs ≡ take n xs
take_at_most n zero [] h = sym (take_all n [] (omega arith))
take_at_most zero zero (x ∷ xs) h = refl
take_at_most (suc n) zero (x ∷ xs) h = absurd (omega arith)
take_at_most n (suc m) [] h = absurd (omega arith)
take_at_most zero (suc m) (x ∷ xs) h = absurd (omega arith)
take_at_most (suc n) (suc m) (x ∷ xs) h = ap (λ t. x ∷ t) (take_at_most n m xs (omega arith))

new_bytes-appended_chunks :
    (file_size chunk_size n : ℕ) (xs : List ℕ) (start : ℕ)
    → length xs ≤ start + n * chunk_size
    → new_bytes (appended_chunks file_size chunk_size n xs start) ≡ drop start xs
unfolding new_bytes appended_chunks
new_bytes-appended_chunks f s zero xs a h = sym (drop_all a xs (omega arith))
new_bytes-appended_chunks f s (suc n) xs a h =
    let rest = new_bytes-appended_chunks f s n xs (a + s) (omega (arith, add-mul n 1 s)) in
    let first : take (min (a + s) (length xs) - a) (drop a xs) ≡ take s (drop a xs) =
      take_at_most s (min (a + s) (length xs) - a) (drop a xs) (omega (arith, length-drop a xs)) in
    let next : drop (a + s) xs ≡ drop s (drop a xs) =
      (let e : a + s ≡ s + a = omega arith in ap (λ t. drop t xs) e) ∙ sym (drop-drop s a xs) in
    ap (λ t. t ++ new_bytes (appended_chunks f s n xs (a + s))) first
    ∙ ap (λ t. take s (drop a xs) ++ t) (rest ∙ next)
    ∙ take-append-drop s (drop a xs)

-- A file of `a` bytes fits in `n` chunks just when it has at most `n`.
pub div_ceil-le_iff : (a n s : ℕ) → 0 < s → (div_ceil a s ≤ n) ↔ (a ≤ n * s)
unfolding div_ceil
div_ceil-le_iff a n s h =
    let whole = div-add-mod' a s in
    elim (Bool-cases (a % s == 0)) [
      | inl e ↦
          (let exact : a ≡ a / s * s = omega (arith, whole, (==_iff (a % s) 0).0 e) in
            rw e (
              λ p. omega (arith, exact, mul-le-mul_right s p),
              λ p. le_of_mul-le-mul_right (subst (λ t. t ≤ n * s) exact p) h,
            ))
      | inr e ↦
          (let more : 0 < a % s = ground (arith, e) in
            rw e (
              λ p. omega (arith, (div-lt_iff_lt-mul {x = a} {y = n} h).0 (omega arith)),
              λ p.
                  omega
                    (arith, lt_of_mul-lt-mul_right s {m = a / s} {n = n} (omega (arith, whole))),
            ))
    ]

pub div_ceil_enough : (a s : ℕ) → 0 < s → a ≤ div_ceil a s * s
div_ceil_enough a s h = (div_ceil-le_iff a (div_ceil a s) s h).0 (omega arith)

div_ceil-suc : (m s : ℕ) → 0 < s → div_ceil (suc m) s ≡ m / s + 1
div_ceil-suc m s h =
    let at_most =
      (div_ceil-le_iff (suc m) (m / s + 1) s h).1
        (omega (arith, lt-div-mul-add {a = m} h, add-mul (m / s) 1 s)) in
    let at_least =
      (div-lt_iff_lt-mul {x = m} {y = div_ceil (suc m) s} h).1
        (omega (arith, div_ceil_enough (suc m) s h)) in
    omega (arith, at_most, at_least)

div_ceil-add-mul : (e d s : ℕ) → 0 < s → div_ceil (e + d * s) s ≡ div_ceil e s + d
unfolding div_ceil
div_ceil-add-mul e d s h = rw (add-mul-div_right e d h, add-mul-mod_self_right e d s) (ground arith)

-- The free bytes of the last chunk fill the file up to a whole number of chunks.
remaining_in_last_lem :
    (file_size chunk_size : ℕ)
    → 0 < chunk_size
    → file_size + remaining_in_last file_size chunk_size
      ≡ div_ceil file_size chunk_size * chunk_size
unfolding remaining_in_last
remaining_in_last_lem zero s h =
    let none_yet : div_ceil 0 s ≡ 0 = omega (arith, (div_ceil-le_iff 0 0 s h).1 (omega arith)) in
    rw none_yet (omega arith)
remaining_in_last_lem (suc m) s h =
    let chunks : div_ceil (suc m) s ≡ m / s + 1 = div_ceil-suc m s h in
    rw chunks (ground (arith, div-add-mod' m s, mod-lt m h, add-mul (m / s) 1 s))

-- The number of chunks of a file is the one whose last chunk begins inside the file.
div_ceil_unique : (a n s : ℕ) → 0 < s → a ≤ n * s → n * s < a + s → div_ceil a s ≡ n
div_ceil_unique a n s h fits short =
    let at_most = (div_ceil-le_iff a n s h).1 fits in
    let at_least : n < div_ceil a s + 1 =
      lt_of_mul-lt-mul_right s {m = n} {n = div_ceil a s + 1}
        (omega (arith, short, div_ceil_enough a s h, add-mul (div_ceil a s) 1 s)) in
    omega (arith, at_most, at_least)

remaining_in_last-chunks :
    (f s n : ℕ) → 0 < s → f ≤ n * s → n * s < f + s → remaining_in_last f s ≡ n * s - f
remaining_in_last-chunks f s n h fits short =
    let full : f + remaining_in_last f s ≡ n * s =
      remaining_in_last_lem f s h ∙ ap (λ t. t * s) (div_ceil_unique f n s h fits short) in
    omega (arith, full)

pub length-appended_chunks :
    (file_size chunk_size n : ℕ) (xs : List ℕ) (start : ℕ)
    → length (appended_chunks file_size chunk_size n xs start) ≡ n
unfolding appended_chunks
length-appended_chunks f s zero xs a = refl
length-appended_chunks f s (suc n) xs a = ap suc (length-appended_chunks f s n xs (a + s))

-- For a positive chunk size and a file of `chunks` chunks, the last of which may be short, the new
-- chunks of an append hold the appended bytes behind those that fill the file up to `chunks` whole
-- chunks, whole and in order.
pub append-new_bytes :
    (bytes : List ℕ) (file_size chunk_size chunks : ℕ) (offsets : Option (List ChunkOffset))
    → 0 < chunk_size
    → file_size ≤ chunks * chunk_size
    → chunks * chunk_size < file_size + chunk_size
    → new_bytes (analyze_delta (append bytes) file_size chunk_size offsets).new_chunks
      ≡ drop (chunks * chunk_size - file_size) bytes
unfolding analyze_delta analyze_append
append-new_bytes bytes f s n offsets h fits short =
    let r = remaining_in_last f s in
    let e = if leb (length bytes) r then 0 else length bytes - r in
    new_bytes-appended_chunks f s (div_ceil e s) bytes r (ground (arith, div_ceil_enough e s h))
    ∙ ap (λ t. drop t bytes) (remaining_in_last-chunks f s n h fits short)

-- The chunks of a file and the new chunks of an append are together as many as the chunks of the
-- file with the appended bytes, when the chunk size is positive.
pub append-div_ceil :
    (bytes : List ℕ) (file_size chunk_size : ℕ)
    → 0 < chunk_size
    → div_ceil file_size chunk_size
        + length (analyze_delta (append bytes) file_size chunk_size none).new_chunks
      ≡ div_ceil (file_size + length bytes) chunk_size
unfolding analyze_delta analyze_append
append-div_ceil bytes f s h =
    let r = remaining_in_last f s in
    let e = if leb (length bytes) r then 0 else length bytes - r in
    let full = remaining_in_last_lem f s h in
    rw (length-appended_chunks f s (div_ceil e s) bytes r)
      (elim (Bool-cases (leb (length bytes) r)) [
        | inl fits ↦ rw fits (
            let at_most =
              (div_ceil-le_iff (f + length bytes) (div_ceil f s) s h).1
                (ground (arith, full, fits)) in
            let at_least =
              (div_ceil-le_iff f (div_ceil (f + length bytes) s) s h).1
                (omega (arith, div_ceil_enough (f + length bytes) s h)) in
            omega (arith, at_most, at_least, (div_ceil-le_iff 0 0 s h).1 (omega arith)))
        | inr more ↦ rw more (
            let split : f + length bytes ≡ length bytes - r + div_ceil f s * s =
              ground (arith, full, more) in
            rw split (omega (arith, div_ceil-add-mul (length bytes - r) (div_ceil f s) s h)))
      ])
