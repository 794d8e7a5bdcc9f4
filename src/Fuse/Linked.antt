-- ===== src/Fuse/Linked.antt =====
-- What the other steps of an insert do to the invariant: a directory's entries, the number of links,
-- and the maps of contents.
use embeddenator_fs.Prelude.{
  ℕ, ◌+◌, ◌%◌, ◌^◌, ◌≡◌, ◌≢◌, ◌⊎◌, inl, inr, refl, sym, ap, ◌∙◌, subst, some, List, [], ◌∷◌, ◌++◌,
  false, ◌==◌, ==_iff, All, Option-cases, Bool-cases, arith,
}
use embeddenator_fs.Prelude.Assoc.{
  nat_key, bytes_key, lookup, insert, lookup-insert, lookup-insert_self,
}
use embeddenator_fs.Fuse.State.{
  FileKind, directory, FileAttr, DirEntry, CachedFile, DeviceNode, EngramFs,
}
use embeddenator_fs.Fuse.Insert.{FuseError, Added, added, refused, push_entry, count_link, linked}
use embeddenator_fs.Fuse.Sound.{IsEntry, IsSound, All-map, All-append}

-- At a key of numbers: what was inserted, or what was there.
pub insert_cases :
    {V : Type 0} (k j : ℕ) (v w : V) (m : List (ℕ × V))
    → lookup j (insert k v m) ≡ some w
    → ((k ≡ j) × (v ≡ w)) ⊎ ((k ≢ j) × (lookup j m ≡ some w))
insert_cases k j v w m h = ground (arith, lookup-insert k j v m, ==_iff k j)

pub insert_at {ℓ} :
    {V : Type ℓ} (k j : ℕ) (v : V) (m : List (ℕ × V)) → k ≡ j → lookup j (insert k v m) ≡ some v
insert_at k j v m e = ap (λ i. lookup i (insert k v m)) (sym e) ∙ lookup-insert_self k v m

module _ (fs : EngramFs) (sound : IsSound fs) where
  -- The maps of contents are not part of it.
  pub others-IsSound :
      (files : List (ℕ × CachedFile)) (links : List (ℕ × List ℕ)) (nodes : List (ℕ × DeviceNode))
      → IsSound (record fs { file_cache = files; symlinks = links; devices = nodes })
  others-IsSound files links nodes = record {
    has_root = sound.has_root;
    path_back = sound.path_back;
    inode_back = sound.inode_back;
    has_attr = sound.has_attr;
    below = sound.below;
    has_kind = sound.has_kind;
    has_path = sound.has_path;
    entries = sound.entries;
  }

  pub directories-IsSound :
      (d : ℕ) (es : List DirEntry) (a : FileAttr FileKind)
      → lookup d fs.inodes ≡ some a
      → a.kind ≡ directory
      → All (IsEntry fs) es
      → IsSound (record fs { directories = insert d es fs.directories })
  directories-IsSound d es a ha hk h = record {
    has_root = sound.has_root;
    path_back = sound.path_back;
    inode_back = sound.inode_back;
    has_attr = sound.has_attr;
    below = sound.below;
    has_kind = λ j js e. elim (insert_cases d j es js fs.directories e) [
      | inl (p, q) ↦ (a, ap (λ n. lookup n fs.inodes) (sym p) ∙ ha, hk)
      | inr (ne, k) ↦ sound.has_kind j js k
    ];
    has_path = sound.has_path;
    entries = λ j js e. elim (insert_cases d j es js fs.directories e) [
      | inl (p, q) ↦ subst (λ l. All (IsEntry fs) l) q h
      | inr (ne, k) ↦ sound.entries j js k
    ];
  }

  pub push_entry-IsSound :
      (missing : FuseError) (d : ℕ) (e : DirEntry)
      → IsEntry fs e
      → IsSound (push_entry missing d e fs).1
  unfolding push_entry
  push_entry-IsSound missing d e he = elim (Option-cases (lookup d fs.directories)) [
    | inl q ↦ rw (push_entry, q) sound
    | inr (es, q) ↦
        let (a, ha, hk) = sound.has_kind d es q in
        rw (push_entry, q)
          (directories-IsSound d (es ++ (e ∷ [])) a ha hk
            (All-append (IsEntry fs) es e (sound.entries d es q) he))
  ]

  -- Another record of attributes, of the same kind and number.
  module _ (d : ℕ) (a b : FileAttr FileKind) (was : lookup d fs.inodes ≡ some a)
      (same_kind : b.kind ≡ a.kind) (same_ino : b.ino ≡ a.ino) where
    kind_of : (x y : FileAttr FileKind) → some x ≡ some y → x.kind ≡ y.kind
    kind_of x y e = cc

    ino_of : (x y : FileAttr FileKind) → some x ≡ some y → x.ino ≡ y.ino
    ino_of x y e = cc

    other : (i : ℕ) → (d == i) ≡ false → lookup i (insert d b fs.inodes) ≡ lookup i fs.inodes
    other i e = ground (arith, lookup-insert d i b fs.inodes)

    new_attr :
        (i : ℕ) (c : FileAttr FileKind)
        → lookup i fs.inodes ≡ some c
        → (c' : FileAttr FileKind) × (lookup i (insert d b fs.inodes) ≡ some c')
          × (c'.kind ≡ c.kind)
          × (c'.ino ≡ c.ino)
    new_attr i c h = elim (Bool-cases (d == i)) [
      | inl e ↦
          let same : d ≡ i = (==_iff d i).0 e in
          let eq : some a ≡ some c = sym was ∙ ap (λ n. lookup n fs.inodes) same ∙ h in
          (b, insert_at d i b fs.inodes same, same_kind ∙ kind_of a c eq, same_ino ∙ ino_of a c eq)
      | inr e ↦ (c, other i e ∙ h, refl, refl)
    ]

    new_entry :
        (e : DirEntry) → IsEntry fs e → IsEntry (record fs { inodes = insert d b fs.inodes }) e
    new_entry e (p, c, hp, hn, hc, hk) =
        let (c', hc', hk', hi') = new_attr e.ino c hc in (p, c', hp, hn, hc', hk' ∙ hk)

    pub inodes-IsSound : IsSound (record fs { inodes = insert d b fs.inodes })
    inodes-IsSound = record {
      has_root = sound.has_root;
      path_back = sound.path_back;
      inode_back = sound.inode_back;
      has_attr = λ p i h.
          let (c, hc, hi) = sound.has_attr p i h in
          let (c', hc', hk', hi') = new_attr i c hc in (c', hc', hi' ∙ hi);
      below = sound.below;
      has_kind = λ j es h.
          let (c, hc, hk) = sound.has_kind j es h in
          let (c', hc', hk', hi') = new_attr j c hc in (c', hc', hk' ∙ hk);
      has_path = λ j c h. elim (insert_cases d j b c fs.inodes h) [
        | inl (e, q) ↦ sound.has_path j a (ap (λ n. lookup n fs.inodes) (sym e) ∙ was)
        | inr (ne, k) ↦ sound.has_path j c k
      ];
      entries = λ j es h. All-map new_entry es (sound.entries j es h);
    }

  pub count_link-IsSound : (d : ℕ) → IsSound (count_link d fs)
  unfolding count_link
  count_link-IsSound d = elim (Option-cases (lookup d fs.inodes)) [
    | inl q ↦ rw (count_link, q) sound
    | inr (a, q) ↦
        rw (count_link, q)
          (inodes-IsSound d a (record a { nlink = (a.nlink + 1) % 2 ^ 32 }) q refl refl)
  ]

  pub linked-IsSound : (d : ℕ) (r : Added) → IsSound (linked d (r, fs)).1
  linked-IsSound d (refused e) = sound
  linked-IsSound d (added i) = count_link-IsSound d
