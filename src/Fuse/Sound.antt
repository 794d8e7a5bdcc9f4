-- ===== src/Fuse/Sound.antt =====
-- The invariant of the table of inodes, and the steps of the inserts that keep it.
use embeddenator_fs.Prelude.{
  ℕ, ◌+◌, ◌^◌, ◌<◌, ◌≡◌, ◌≢◌, ◌⊎◌, inl, inr, sym, ap, ◌∙◌, Option, none, some, List, [], ◌∷◌, ◌++◌,
  false, ◌==◌, ==_iff, All, Bool-cases, arith,
}
use embeddenator_fs.Prelude.Bytes.{bytes_eq, bytes_eq_iff}
use embeddenator_fs.Prelude.Assoc.{
  nat_key, bytes_key, lookup, insert, lookup-insert, lookup-insert_self,
}
use embeddenator_fs.Fuse.Path.{root_path, filename}
use embeddenator_fs.Fuse.State.{FileKind, directory, FileAttr, DirEntry, EngramFs, root_ino}
use embeddenator_fs.Fuse.Insert.{store_node, after_alloc}

-- An entry names an inode that has a path with that name at its end, and attributes of that kind.
abbrev pub IsEntry : EngramFs → DirEntry → Type 0
IsEntry fs e =
    (p : List ℕ) × (a : FileAttr FileKind) × (lookup e.ino fs.inode_paths ≡ some p)
    × (filename p ≡ e.name)
    × (lookup e.ino fs.inodes ≡ some a)
    × (a.kind ≡ e.kind)

-- The root has its inode, the maps of paths and of inodes are each other's inverse, an inode with a path has attributes under
-- its own number and is below the next one, what has entries is a directory, and its entries are
-- entries of the table.
pub record IsSound (fs : EngramFs) : Type 0 where
  pub has_root : lookup root_path fs.path_inodes ≡ some root_ino
  pub path_back :
      (p : List ℕ) (i : ℕ) → lookup p fs.path_inodes ≡ some i → lookup i fs.inode_paths ≡ some p
  pub inode_back :
      (p : List ℕ) (i : ℕ) → lookup i fs.inode_paths ≡ some p → lookup p fs.path_inodes ≡ some i
  pub has_attr :
      (p : List ℕ) (i : ℕ)
      → lookup i fs.inode_paths ≡ some p
      → (a : FileAttr FileKind) × (lookup i fs.inodes ≡ some a) × (a.ino ≡ i)
  pub below : (p : List ℕ) (i : ℕ) → lookup i fs.inode_paths ≡ some p → i < fs.next_ino
  pub has_kind :
      (d : ℕ) (es : List DirEntry)
      → lookup d fs.directories ≡ some es
      → (a : FileAttr FileKind) × (lookup d fs.inodes ≡ some a) × (a.kind ≡ directory)
  pub has_path :
      (d : ℕ) (a : FileAttr FileKind)
      → lookup d fs.inodes ≡ some a
      → (p : List ℕ) × (lookup d fs.inode_paths ≡ some p)
  pub entries :
      (d : ℕ) (es : List DirEntry) → lookup d fs.directories ≡ some es → All (IsEntry fs) es

pub All-map {ℓ κ μ} :
    {A : Type ℓ} {P : A → Type κ} {Q : A → Type μ}
    → ((a : A) → P a → Q a)
    → (xs : List A) → All P xs
    → All Q xs
All-map f [] h = tt
All-map f (a ∷ xs) h = (f a h.0, All-map f xs h.1)

pub All-append {ℓ κ} :
    {A : Type ℓ} (P : A → Type κ) (xs : List A) (a : A) → All P xs → P a → All P (xs ++ (a ∷ []))
All-append P [] a h p = (p, tt)
All-append P (b ∷ xs) a h p = (h.0, All-append P xs a h.1 p)

-- What a map of numbers answers after an insert, at another key.
pub lookup-insert_ne {ℓ} :
    {V : Type ℓ} (k j : ℕ) (v : V) (m : List (ℕ × V))
    → (k ≢ j)
    → lookup j (insert k v m) ≡ lookup j m
lookup-insert_ne k j v m ne = ground (arith, lookup-insert k j v m, ==_iff k j)

pub lookup-insert_path :
    (p q : List ℕ) (v : ℕ) (m : List (List ℕ × ℕ))
    → ((q ≡ p) × (lookup q (insert p v m) ≡ some v))
      ⊎ ((bytes_eq p q ≡ false) × (lookup q (insert p v m) ≡ lookup q m))
lookup-insert_path p q v m = ground (arith, lookup-insert p q v m, bytes_eq_iff p q)

pub none_ne_some {ℓ} : {A : Type ℓ} {a : A} → ◌≡◌ {A = Option A} none (some a) → ⊥
none_ne_some h = cc

module _ (fs : EngramFs) (path : List ℕ) (attr : FileAttr FileKind) (sound : IsSound fs)
    (fresh : lookup path fs.path_inodes ≡ none) (room : fs.next_ino + 1 < 2 ^ 64)
    (own : attr.ino ≡ fs.next_ino) where
  abbrev after : EngramFs
  after = store_node (after_alloc fs) fs.next_ino path attr

  old_ne : (p : List ℕ) (i : ℕ) → lookup i fs.inode_paths ≡ some p → fs.next_ino ≢ i
  old_ne p i h e = omega (arith, sound.below p i h, e)

  store_has_root : lookup root_path after.path_inodes ≡ some root_ino
  store_has_root = elim (lookup-insert_path path root_path fs.next_ino fs.path_inodes) [
    | inl (e, q) ↦
        absurd
          (none_ne_some (sym fresh ∙ ap (λ p. lookup p fs.path_inodes) (sym e) ∙ sound.has_root))
    | inr (e, q) ↦ q ∙ sound.has_root
  ]

  store_path_back :
      (p : List ℕ) (i : ℕ)
      → lookup p after.path_inodes ≡ some i
      → lookup i after.inode_paths ≡ some p
  store_path_back p i h = elim (lookup-insert_path path p fs.next_ino fs.path_inodes) [
    | inl (e, q) ↦ grind (arith, lookup-insert_self fs.next_ino path fs.inode_paths)
    | inr (e, q) ↦
        let k = sound.path_back p i (sym q ∙ h) in
        lookup-insert_ne fs.next_ino i path fs.inode_paths (old_ne p i k) ∙ k
  ]

  -- What has a path after the insert: the new inode, or one from before.
  old_or_new :
      (p : List ℕ) (i : ℕ)
      → lookup i after.inode_paths ≡ some p
      → ((i ≡ fs.next_ino) × (p ≡ path)) ⊎ ((fs.next_ino ≢ i) × (lookup i fs.inode_paths ≡ some p))
  old_or_new p i h =
      ground (arith, lookup-insert fs.next_ino i path fs.inode_paths, ==_iff fs.next_ino i)

  store_inode_back :
      (p : List ℕ) (i : ℕ)
      → lookup i after.inode_paths ≡ some p
      → lookup p after.path_inodes ≡ some i
  store_inode_back p i h = elim (old_or_new p i h) [
    | inl (e, q) ↦ grind (arith, lookup-insert_self path fs.next_ino fs.path_inodes)
    | inr (ne, k) ↦ elim (lookup-insert_path path p fs.next_ino fs.path_inodes) [
      | inl (e, q) ↦ grind (arith, sound.inode_back p i k)
      | inr (e, q) ↦ q ∙ sound.inode_back p i k
    ]
  ]

  store_has_attr :
      (p : List ℕ) (i : ℕ)
      → lookup i after.inode_paths ≡ some p
      → (a : FileAttr FileKind) × (lookup i after.inodes ≡ some a) × (a.ino ≡ i)
  store_has_attr p i h = elim (old_or_new p i h) [
    | inl (e, q) ↦ (
      attr,
      ap (λ n. lookup n after.inodes) e ∙ lookup-insert_self fs.next_ino attr fs.inodes,
      own ∙ sym e,
    )
    | inr (ne, k) ↦
        let (a, b, c) = sound.has_attr p i k in
        (a, lookup-insert_ne fs.next_ino i attr fs.inodes ne ∙ b, c)
  ]

  store_below : (p : List ℕ) (i : ℕ) → lookup i after.inode_paths ≡ some p → i < after.next_ino
  store_below p i h = elim (old_or_new p i h) [
    | inl (e, q) ↦ omega arith
    | inr (ne, k) ↦ omega (arith, sound.below p i k)
  ]

  -- Attributes from before stay.
  kept_attr :
      (p : List ℕ) (i : ℕ)
      → lookup i fs.inode_paths ≡ some p
      → lookup i after.inodes ≡ lookup i fs.inodes
  kept_attr p i h = lookup-insert_ne fs.next_ino i attr fs.inodes (old_ne p i h)

  kept_path :
      (p : List ℕ) (i : ℕ) → lookup i fs.inode_paths ≡ some p → lookup i after.inode_paths ≡ some p
  kept_path p i h = lookup-insert_ne fs.next_ino i path fs.inode_paths (old_ne p i h) ∙ h

  store_has_kind :
      (d : ℕ) (es : List DirEntry)
      → lookup d after.directories ≡ some es
      → (a : FileAttr FileKind) × (lookup d after.inodes ≡ some a) × (a.kind ≡ directory)
  store_has_kind d es h =
      let (a, b, c) = sound.has_kind d es h in
      let (p, k) = sound.has_path d a b in (a, kept_attr p d k ∙ b, c)

  store_has_path :
      (d : ℕ) (a : FileAttr FileKind)
      → lookup d after.inodes ≡ some a
      → (p : List ℕ) × (lookup d after.inode_paths ≡ some p)
  store_has_path d a h = elim (Bool-cases (fs.next_ino == d)) [
    | inl e ↦ (
      path,
      ap (λ n. lookup n after.inode_paths) (sym ((==_iff fs.next_ino d).0 e))
          ∙ lookup-insert_self fs.next_ino path fs.inode_paths,
    )
    | inr e ↦
        let old : lookup d fs.inodes ≡ some a =
          ground (arith, lookup-insert fs.next_ino d attr fs.inodes) in
        let (p, k) = sound.has_path d a old in (p, kept_path p d k)
  ]

  store_entry : (e : DirEntry) → IsEntry fs e → IsEntry after e
  store_entry e (p, a, hp, hn, ha, hk) =
      (p, a, kept_path p e.ino hp, hn, kept_attr p e.ino hp ∙ ha, hk)

  pub store-IsSound : IsSound after
  store-IsSound = record {
    has_root = store_has_root;
    path_back = store_path_back;
    inode_back = store_inode_back;
    has_attr = store_has_attr;
    below = store_below;
    has_kind = store_has_kind;
    has_path = store_has_path;
    entries = λ d es h. All-map store_entry es (sound.entries d es h);
  }
