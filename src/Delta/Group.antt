-- ===== src/Delta/Group.antt =====
-- Grouping changes by chunk loses, adds and moves none.
use embeddenator_fs.Prelude.{
  ℕ, ◌/◌, ◌%◌, ◌<◌, ◌≡◌, refl, sym, subst, ap, ◌∙◌, Option, List, [], ◌∷◌, ◌++◌, map, append_assoc,
  append-nil, Bool, true, false, ◌&&◌, not, ltb, leb, ◌==◌, ==_iff, ==_refl, leb_cases, ◌*◌,
  if◌then◌else◌, arith, Bool-cases, inl, inr,
}
use native.Mathlib.Nat.{div-add-mod'}
use embeddenator_fs.Types.{ChunkOffset}
use embeddenator_fs.Delta.{
  Change, ChunkModification, multi_byte_replace, push_change, group_changes, modification,
  get_chunk_id, analyze_delta,
}

-- The changes that a map of groups holds for a chunk.
pub changes_in : ℕ → List (ℕ × List Change) → List Change
changes_in k [] = []
changes_in k ((j, cs) ∷ m) = (if j == k then cs else []) ++ changes_in k m

-- The changes that an analysis reports for a chunk id, over all modifications of that id.
unfoldable pub changes_of : ℕ → List ChunkModification → List Change
changes_of k [] = []
changes_of k (m ∷ ms) = (if m.chunk_id == k then m.byte_changes else []) ++ changes_of k ms

absent : ℕ → List (ℕ × List Change) → Bool
absent k [] = true
absent k ((j, cs) ∷ m) = not (j == k) && absent k m

-- No chunk has two groups, as in a map.
pub IsGrouped : List (ℕ × List Change) → Type 0
IsGrouped [] = Unit
IsGrouped ((k, cs) ∷ m) = (absent k m ≡ true) × IsGrouped m

pub no_groups : IsGrouped []
unfolding IsGrouped
no_groups = tt

pub no_changes : (k : ℕ) → changes_in k [] ≡ []
unfolding changes_in
no_changes k = refl

changes_in-absent : (k : ℕ) (m : List (ℕ × List Change)) → absent k m ≡ true → changes_in k m ≡ []
unfolding changes_in absent
changes_in-absent k [] h = refl
changes_in-absent k ((j, cs) ∷ m) h = ground (arith, changes_in-absent k m)

absent-push_change :
    (k j : ℕ) (c : Change) (m : List (ℕ × List Change))
    → absent j (push_change k c m) ≡ (not (k == j) && absent j m)
unfolding absent push_change
absent-push_change k j c [] = ground arith
absent-push_change k j c ((i, cs) ∷ m) = ground (arith, absent-push_change k j c m)

pub push_change-IsGrouped :
    (k : ℕ) (c : Change) (m : List (ℕ × List Change)) → IsGrouped m → IsGrouped (push_change k c m)
unfolding IsGrouped push_change absent
push_change-IsGrouped k c [] h = (refl, tt)
push_change-IsGrouped k c ((j, cs) ∷ m) h = elim (Bool-cases (j == k)) [
  | inl same ↦ rw same h
  | inr other ↦
      rw other (absent-push_change k j c m ∙ ground (arith, h.0), push_change-IsGrouped k c m h.1)
]

head_only :
    (k j : ℕ) (c : Change) (cs : List Change) (m : List (ℕ × List Change))
    → absent k m ≡ true
    → (if k == j then cs ++ (c ∷ []) else []) ++ changes_in j m
      ≡ ((if k == j then cs else []) ++ changes_in j m) ++ (if k == j then c ∷ [] else [])
head_only k j c cs m h = elim (Bool-cases (k == j)) [
  | inl e ↦
      (let same : k ≡ j = (==_iff k j).0 e in
        let gone : changes_in j m ≡ [] =
          subst (λ t. changes_in t m ≡ []) same (changes_in-absent k m h) in
        rw (e, gone, append-nil, append-nil) refl)
  | inr e ↦ rw (e, append-nil) refl
]

pub changes_in-push_change :
    (k j : ℕ) (c : Change) (m : List (ℕ × List Change))
    → IsGrouped m
    → changes_in j (push_change k c m) ≡ changes_in j m ++ (if k == j then c ∷ [] else [])
unfolding changes_in push_change IsGrouped
changes_in-push_change k j c [] h = append-nil _
changes_in-push_change k j c ((i, cs) ∷ m) h = elim (Bool-cases (i == k)) [
  | inl same ↦
      rw (same, (==_iff i k).0 same)
        (head_only k j c cs m (subst (λ t. absent t m ≡ true) ((==_iff i k).0 same) h.0))
  | inr other ↦ rw other (
      ap (λ t. (if i == j then cs else []) ++ t) (changes_in-push_change k j c m h.1)
      ∙ sym (
          append_assoc (if i == j then cs else []) (changes_in j m)
            (if k == j then c ∷ [] else [])))
]

-- The changes of a delta that lie in the file and in chunk `k`, by their offset in the chunk.
unfoldable pub in_chunk : ℕ → ℕ → ℕ → List Change → List Change
in_chunk file_size chunk_size k [] = []
in_chunk file_size chunk_size k ((offset, old_val, new_val) ∷ changes) =
    (if ltb offset file_size && (offset / chunk_size == k)
      then (offset % chunk_size, old_val, new_val) ∷ []
      else [])
    ++ in_chunk file_size chunk_size k changes

changes_in-group_changes :
    (file_size chunk_size k : ℕ) (changes : List Change) (m : List (ℕ × List Change))
    → IsGrouped m
    → changes_in k (group_changes file_size chunk_size changes m)
      ≡ changes_in k m ++ in_chunk file_size chunk_size k changes
unfolding group_changes in_chunk
changes_in-group_changes f s k [] m h = sym (append-nil _)
changes_in-group_changes f s k ((o, a, b) ∷ cs) m h = elim (Bool-cases (leb f o)) [
  | inl e ↦
      (let out : ltb o f ≡ false = ground (arith, e) in
        rw (e, out) (changes_in-group_changes f s k cs m h))
  | inr e ↦
      (let in_file : ltb o f ≡ true = ground (arith, e) in
        let c : Change = (o % s, a, b) in
        rw (e, in_file)
          (changes_in-group_changes f s k cs (push_change (o / s) c m)
              (push_change-IsGrouped (o / s) c m h)
            ∙ ap (λ t. t ++ in_chunk f s k cs) (changes_in-push_change (o / s) k c m h)
            ∙ append_assoc (changes_in k m) (if o / s == k then c ∷ [] else [])
                (in_chunk f s k cs)))
]

-- The chunks of the groups lie in the file.
pub AreInFile : ℕ → ℕ → List (ℕ × List Change) → Type 0
AreInFile file_size chunk_size [] = Unit
AreInFile file_size chunk_size ((k, cs) ∷ m) =
    (k * chunk_size < file_size) × AreInFile file_size chunk_size m

pub none_in_file : (file_size chunk_size : ℕ) → AreInFile file_size chunk_size []
unfolding AreInFile
none_in_file f s = tt

pub chunk_in_file : (o f s : ℕ) → o < f → o / s * s < f
chunk_in_file o f s h = omega (arith, div-add-mod' o s)

pub push_change-AreInFile :
    (f s k : ℕ) (c : Change) (m : List (ℕ × List Change))
    → k * s < f
    → AreInFile f s m
    → AreInFile f s (push_change k c m)
unfolding AreInFile push_change
push_change-AreInFile f s k c [] lt h = (lt, tt)
push_change-AreInFile f s k c ((j, cs) ∷ m) lt h = elim (Bool-cases (j == k)) [
  | inl same ↦ rw same h
  | inr other ↦ rw other (h.0, push_change-AreInFile f s k c m lt h.1)
]

group_changes-AreInFile :
    (f s : ℕ) (changes : List Change) (m : List (ℕ × List Change))
    → AreInFile f s m
    → AreInFile f s (group_changes f s changes m)
unfolding group_changes
group_changes-AreInFile f s [] m h = h
group_changes-AreInFile f s ((o, a, b) ∷ cs) m h = elim (leb_cases f o) [
  | inl (out, _) ↦ rw out (group_changes-AreInFile f s cs m h)
  | inr (inside, lt) ↦ rw inside (
      group_changes-AreInFile f s cs (push_change (o / s) (o % s, a, b) m)
        (push_change-AreInFile f s (o / s) (o % s, a, b) m (chunk_in_file o f s lt) h))
]

-- The id of chunk `k` is that of no other chunk of the file.
abbrev pub HasOwnId : ℕ → ℕ → Option (List ChunkOffset) → ℕ → Type 0
HasOwnId file_size chunk_size offsets k =
    (j : ℕ) → j * chunk_size < file_size → get_chunk_id j offsets ≡ get_chunk_id k offsets → j ≡ k

same_test :
    (offsets : Option (List ChunkOffset)) (j k : ℕ)
    → (get_chunk_id j offsets ≡ get_chunk_id k offsets → j ≡ k)
    → (get_chunk_id j offsets == get_chunk_id k offsets) ≡ (j == k)
same_test offsets j k alone = elim (Bool-cases (j == k)) [
  | inl same ↦
      ap (λ t. get_chunk_id t offsets == get_chunk_id k offsets) ((==_iff j k).0 same)
      ∙ ==_refl (get_chunk_id k offsets)
      ∙ sym same
  | inr other ↦ elim (Bool-cases (get_chunk_id j offsets == get_chunk_id k offsets)) [
    | inl same ↦
        same
        ∙ sym (
            (==_iff j k).1
              (alone ((==_iff (get_chunk_id j offsets) (get_chunk_id k offsets)).0 same)))
    | inr differ ↦ differ ∙ sym other
  ]
]

pub changes_of-modification :
    (f s k : ℕ) (offsets : Option (List ChunkOffset)) (m : List (ℕ × List Change))
    → HasOwnId f s offsets k
    → AreInFile f s m
    → changes_of (get_chunk_id k offsets) (map (modification offsets) m) ≡ changes_in k m
unfolding changes_of changes_in AreInFile
changes_of-modification f s k offsets [] alone h = refl
changes_of-modification f s k offsets ((j, cs) ∷ m) alone h =
    rw (same_test offsets j k (alone j h.0)) (
      ap (λ t. (if j == k then cs else []) ++ t)
        (changes_of-modification f s k offsets m alone h.1))

-- A multi-byte replacement reports for every chunk exactly the changes of that chunk that lie in
-- the file, in the order of the delta and at their offsets in the chunk; with and without an index
-- of offsets, for a chunk whose id is that of no other chunk of the file, and a positive chunk size.
pub multi_byte_replace-grouped :
    (changes : List Change) (file_size chunk_size k : ℕ) (offsets : Option (List ChunkOffset))
    → 0 < chunk_size
    → HasOwnId file_size chunk_size offsets k
    → changes_of
        (get_chunk_id k offsets)
        (analyze_delta (multi_byte_replace changes) file_size chunk_size offsets).modified_chunks
      ≡ in_chunk file_size chunk_size k changes
unfolding analyze_delta
multi_byte_replace-grouped changes f s k offsets positive alone =
    changes_of-modification f s k offsets (group_changes f s changes []) alone
      (group_changes-AreInFile f s changes [] (none_in_file f s))
    ∙ changes_in-group_changes f s k changes [] no_groups
    ∙ ap (λ t. t ++ in_chunk f s k changes) (no_changes k)
