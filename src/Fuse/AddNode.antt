-- ===== src/Fuse/AddNode.antt =====
-- What the insert of a node does: to the table of inodes, and for the node itself.
use embeddenator_fs.Prelude.{
  ℕ, ◌+◌, ◌^◌, ◌≤◌, ◌<◌, ◌≡◌, inl, inr, refl, sym, ap, ◌∙◌, subst, none, some, List, length,
  Option-cases, arith,
}
use embeddenator_fs.Prelude.Assoc.{nat_key, bytes_key, lookup, lookup-insert_self}
use embeddenator_fs.Fuse.Path.{filename, normalize_path, parent_path}
use embeddenator_fs.Fuse.State.{FileKind, FileAttr, DirEntry, EngramFs}
use embeddenator_fs.Fuse.Insert.{
  FuseError, Added, added, refused, invalid_path, parent_directory_not_found, store_node,
  after_alloc, push_entry, in_parent, create_node, add_node, ensure_directory,
}
use embeddenator_fs.Fuse.Sound.{IsEntry, IsSound, store-IsSound}
use embeddenator_fs.Fuse.Linked.{others-IsSound, push_entry-IsSound}
use embeddenator_fs.Fuse.Ancestors.{parent_shorter}
use embeddenator_fs.Fuse.Ensured.{
  Same, push_entry-Same, push_entry_result, insert_old, refused_ne_added, Ensured,
  ensure_directory-Ensured,
}

push_entry_inodes :
    (missing : FuseError) (d : ℕ) (e : DirEntry) (fs : EngramFs)
    → (push_entry missing d e fs).1.inodes ≡ fs.inodes
unfolding push_entry
push_entry_inodes missing d e fs = elim (Option-cases (lookup d fs.directories)) [
  | inl q ↦ rw (push_entry, q) refl
  | inr (es, q) ↦ rw (push_entry, q) refl
]

-- What a kind of node keeps besides is in the maps of contents.
abbrev pub KeepsTable : (ℕ → EngramFs → EngramFs) → Type 0
KeepsTable keep =
    (n : ℕ) (s : EngramFs)
    → keep n s ≡ record s {
      file_cache = (keep n s).file_cache;
      symlinks = (keep n s).symlinks;
      devices = (keep n s).devices;
    }

module _ (attr_of : ℕ → FileAttr FileKind) (keep : ℕ → EngramFs → EngramFs) where
  -- What holds of the result of an insert at a normalized path `p`.
  pub record Inserted (fs : EngramFs) (p : List ℕ) (r : Added × EngramFs) : Type 0 where
    pub sound : IsSound r.1
    pub grown : r.1.next_ino ≤ fs.next_ino + length p
    pub old :
        (q : List ℕ) (i : ℕ) → lookup q fs.path_inodes ≡ some i → lookup q r.1.path_inodes ≡ some i
    pub new_path : (i : ℕ) → r.0 ≡ added i → lookup p r.1.path_inodes ≡ some i
    pub new_attr : (i : ℕ) → r.0 ≡ added i → lookup i r.1.inodes ≡ some (attr_of i)
    pub kept :
        (i : ℕ)
        → r.0 ≡ added i
        → (s : EngramFs) × (s.file_cache ≡ fs.file_cache)
          × (s.symlinks ≡ fs.symlinks)
          × (s.read_only ≡ fs.read_only)
          × Same (keep i s) r.1

module _ (attr_of : ℕ → FileAttr FileKind) (keep : ℕ → EngramFs → EngramFs)
    (own : (n : ℕ) → (attr_of n).ino ≡ n) (keeps : KeepsTable keep) where
  module _ (p : List ℕ) (parent : ℕ) (fs : EngramFs) where
    -- The state in which the node's entry is pushed.
    abbrev stored : EngramFs
    stored = store_node (after_alloc fs) fs.next_ino p (attr_of fs.next_ino)

    abbrev entry : DirEntry
    entry = record { ino = fs.next_ino; name = filename p; kind = (attr_of fs.next_ino).kind }

    create_node-Same : Same (keep fs.next_ino stored) (create_node attr_of keep p parent fs).1
    unfolding create_node
    create_node-Same =
        push_entry-Same parent_directory_not_found parent entry (keep fs.next_ino stored)

    create_node_result :
        (i : ℕ) → (create_node attr_of keep p parent fs).0 ≡ added i → i ≡ fs.next_ino
    unfolding create_node
    create_node_result i h =
        push_entry_result parent_directory_not_found parent i entry (keep fs.next_ino stored) h

    create_node_attr :
        lookup fs.next_ino (create_node attr_of keep p parent fs).1.inodes
        ≡ some (attr_of fs.next_ino)
    unfolding create_node
    create_node_attr =
        ap (lookup fs.next_ino) (
          push_entry_inodes parent_directory_not_found parent entry (keep fs.next_ino stored)
          ∙ ap (λ s. s.inodes) (keeps fs.next_ino stored))
        ∙ lookup-insert_self fs.next_ino (attr_of fs.next_ino) fs.inodes

    create_node-IsSound :
        IsSound fs
        → lookup p fs.path_inodes ≡ none
        → fs.next_ino + 1 < 2 ^ 64
        → IsSound (create_node attr_of keep p parent fs).1
    unfolding create_node
    create_node-IsSound sound fresh room =
        let n = fs.next_ino in
        let attr = attr_of n in
        let back = sym (keeps n stored) in
        let h = store-IsSound fs p attr sound fresh room (own n) in
        let kept = subst IsSound back (others-IsSound stored h _ _ _) in
        push_entry-IsSound (keep n stored) kept parent_directory_not_found parent entry (
          subst (λ s. IsEntry s entry) back
            (
              p,
              attr,
              lookup-insert_self n p fs.inode_paths,
              refl,
              lookup-insert_self n attr fs.inodes,
              refl,
            ))

  nothing_added :
      (fs s : EngramFs) (p : List ℕ) (e : FuseError)
      → IsSound s
      → s.next_ino ≤ fs.next_ino + length p
      → ((q : List ℕ) (i : ℕ) → lookup q fs.path_inodes ≡ some i → lookup q s.path_inodes ≡ some i)
      → Inserted attr_of keep fs p (refused e, s)
  nothing_added fs s p e sound grown old = record {
    sound = sound;
    grown = grown;
    old = old;
    new_path = λ i h. absurd (refused_ne_added e i h);
    new_attr = λ i h. absurd (refused_ne_added e i h);
    kept = λ i h. absurd (refused_ne_added e i h);
  }

  -- The creation in a parent that was found or made under its own path `q`.
  create_node_in :
      (fs : EngramFs) (p q : List ℕ) (r : Added × EngramFs)
      → Ensured fs q r
      → lookup p fs.path_inodes ≡ none
      → length q < length p
      → fs.next_ino + length p < 2 ^ 64
      → Inserted attr_of keep fs p (in_parent (create_node attr_of keep p) r)
  create_node_in fs p q (refused e, fs1) h fresh shorter room =
      nothing_added fs fs1 p e h.sound (omega (arith, h.grown)) h.old
  create_node_in fs p q (added parent, fs1) h fresh shorter room =
      let fresh1 = h.kept p shorter ∙ fresh in
      let s = stored p parent fs1 in
      let same = create_node-Same p parent fs1 in
      let paths = same.path_inodes ∙ ap (λ t. t.path_inodes) (keeps fs1.next_ino s) in
      let next = same.next_ino ∙ ap (λ t. t.next_ino) (keeps fs1.next_ino s) in
      record {
        sound = create_node-IsSound p parent fs1 h.sound fresh1 (omega (arith, h.grown));
        grown = omega (arith, next, h.grown);
        old = λ x i e.
            ap (lookup x) paths
            ∙ insert_old p x fs1.next_ino i fs1.path_inodes fresh1 (h.old x i e);
        new_path = λ i e.
            ap (lookup p) paths
            ∙ lookup-insert_self p fs1.next_ino fs1.path_inodes
            ∙ ap some (sym (create_node_result p parent fs1 i e));
        new_attr = λ i e.
            let is_next = sym (create_node_result p parent fs1 i e) in
            let inodes = (create_node attr_of keep p parent fs1).1.inodes in
            subst (λ n. lookup n inodes ≡ some (attr_of n)) is_next (create_node_attr p parent fs1);
        kept = λ i e.
            let is_next = sym (create_node_result p parent fs1 i e) in
            let r = (create_node attr_of keep p parent fs1).1 in
            (s, h.file_cache, h.symlinks, h.read_only, subst (λ n. Same (keep n s) r) is_next same);
      }

  pub add_node-Inserted :
      (exists : FuseError) (fs : EngramFs) (path : List ℕ)
      → IsSound fs
      → fs.next_ino + length (normalize_path path) < 2 ^ 64
      → Inserted attr_of keep fs (normalize_path path) (add_node exists attr_of keep fs path)
  unfolding add_node
  add_node-Inserted exists fs path sound room =
      let p = normalize_path path in
      elim (Option-cases (lookup p fs.path_inodes)) [
        | inr (ino, found) ↦
            rw (add_node, found) (nothing_added fs fs p exists sound (omega arith) (λ x i e. e))
        | inl fresh ↦ elim (Option-cases (parent_path p)) [
          | inl orphan ↦
              rw (add_node, fresh, orphan)
                (nothing_added fs fs p invalid_path sound (omega arith) (λ x i e. e))
          | inr (q, parent) ↦
              let shorter = parent_shorter path q parent in
              rw (add_node, fresh, parent)
                (create_node_in fs p (normalize_path q) (ensure_directory fs q)
                  (ensure_directory-Ensured fs q sound (omega arith)) fresh shorter room)
        ]
      ]
