-- ===== src/Fuse/Reply.antt =====
-- The replies of `readdir`, whatever the kernel's buffer holds.
use embeddenator_fs.Prelude.{
  ℕ, zero, suc, ◌+◌, ◌≤◌, ◌≡◌, ◌⊎◌, inl, inr, refl, sym, ap, ◌∙◌, subst, some, List, [], ◌∷◌, ◌++◌,
  append_assoc, append-nil, Bool, true, false, length, get_elem?, take, drop, Bool-cases, arith,
}
use embeddenator_fs.Fuse.State.{EngramFs}
use embeddenator_fs.Fuse.Request.{Listed, entries_of, emit, readdir}

-- The entries with the numbers that the loop gives them.
abbrev pub number : ℕ → List Listed → List (ℕ × Listed)
number i [] = []
number i (e ∷ es) = (i + 1, e) ∷ number (i + 1) es

number-drop : (n i : ℕ) (es : List Listed) → number (n + i) (drop n es) ≡ drop n (number i es)
number-drop zero i es = let same : 0 + i ≡ i = omega arith in ap (λ j. number j es) same
number-drop (suc n) i [] = refl
number-drop (suc n) i (e ∷ es) =
    let next : suc n + i ≡ n + (i + 1) = omega arith in
    ap (λ j. number j (drop n es)) next ∙ number-drop n (i + 1) es

-- A buffer takes an entry at its end, or is full, says so, and stays as it is.
pub record IsBuffer {ℓ} {B : Type ℓ} (add : B → ℕ → Listed → Bool × B)
    (view : B → List (ℕ × Listed)) : Type ℓ where
  pub accepts :
      (b : B) (i : ℕ) (e : Listed)
      → (add b i e).0 ≡ false
      → view (add b i e).1 ≡ view b ++ ((i, e) ∷ [])
  pub refuses : (b : B) (i : ℕ) (e : Listed) → (add b i e).0 ≡ true → view (add b i e).1 ≡ view b

module _ {ℓ} {B : Type ℓ} (add : B → ℕ → Listed → Bool × B) (view : B → List (ℕ × Listed))
    (buffer : IsBuffer add view) where
  -- The first `k` entries were added to `b`, and then none was left, or the buffer was full.
  abbrev pub Delivered : B → List (ℕ × Listed) → B → Type ℓ
  Delivered b entries r =
      (k : ℕ) × (view r ≡ view b ++ take k entries)
      × ((length entries ≤ k)
          ⊎ ((c : B) × (i : ℕ) × (e : Listed) × (get_elem? entries k ≡ some (i, e))
              × (view c ≡ view b ++ take k entries)
              × ((add c i e).0 ≡ true)))

  grown :
      (b : B) (i : ℕ) (e : Listed) (es : List (ℕ × Listed)) (k : ℕ)
      → (add b (i + 1) e).0 ≡ false
      → view (add b (i + 1) e).1 ++ take k es ≡ view b ++ take (suc k) ((i + 1, e) ∷ es)
  grown b i e es k taken =
      ap (λ l. l ++ take k es) (buffer.accepts b (i + 1) e taken)
      ∙ append_assoc (view b) ((i + 1, e) ∷ []) (take k es)

  emit-Delivered : (b : B) (i : ℕ) (es : List Listed) → Delivered b (number i es) (emit add b i es)
  unfolding emit
  emit-Delivered b i [] = (0, sym (append-nil (view b)), inl (omega arith))
  emit-Delivered b i (e ∷ es) = elim (Bool-cases (add b (i + 1) e).0) [
    | inl full ↦
        let same = sym (append-nil (view b)) in
        rw (emit, full)
          (0, buffer.refuses b (i + 1) e full ∙ same, inr (b, i + 1, e, refl, same, full))
    | inr taken ↦
        let (k, v, stop) = emit-Delivered (add b (i + 1) e).1 (i + 1) es in
        let step = grown b i e (number (i + 1) es) k taken in
        rw (emit, taken)
          (
            suc k,
            v ∙ step,
            elim stop [
              | inl all ↦ inl (omega arith)
              | inr (c, j, f, at, w, full) ↦ inr (c, j, f, at, w ∙ step, full)
            ],
          )
  ]

  -- A call of `readdir` that starts at an offset adds the entries after it, in order and without a gap,
  -- each under the number of the one that follows; it stops only at the end of the directory, or where
  -- the buffer refuses the next entry. So a call that starts at the number of the last entry that was
  -- delivered goes on where the one before it stopped.
  pub readdir-Delivered :
      (fs : EngramFs) (ino offset : ℕ) (b : B)
      → Delivered b (drop offset (number 0 (entries_of fs ino))) (readdir add fs ino offset b)
  unfolding readdir
  readdir-Delivered fs ino offset b =
      let es = entries_of fs ino in
      let start : offset + 0 ≡ offset = omega arith in
      subst (λ l. Delivered b l (readdir add fs ino offset b))
        (ap (λ j. number j (drop offset es)) (sym start) ∙ number-drop offset 0 es)
        (emit-Delivered b offset (drop offset es))
