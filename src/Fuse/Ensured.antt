-- ===== src/Fuse/Ensured.antt =====
-- What `ensure_directory` does to the table of inodes.
use embeddenator_fs.Prelude.{
  ℕ, zero, suc, ◌+◌, ◌^◌, ◌≤◌, ◌<◌, ◌≡◌, inl, inr, refl, sym, ap, ◌∙◌, none, some, List, [], length,
  Option-cases, Bool-cases, arith,
}
use embeddenator_fs.Prelude.Bytes.{bytes_eq, bytes_eq_iff}
use embeddenator_fs.Prelude.Assoc.{nat_key, bytes_key, lookup, insert, lookup-insert_self}
use embeddenator_fs.Fuse.Path.{root_path, filename, normalize_path, parent_path}
use embeddenator_fs.Fuse.State.{directory, DirEntry, EngramFs, root_ino}
use embeddenator_fs.Fuse.Insert.{
  FuseError, Added, added, refused, invalid_path, not_ended, parent_not_found, store_node,
  after_alloc, push_entry, count_link, linked, directory_attr, create_directory, in_parent,
  ensure_step, ensure_on, ensure_directory,
}
use embeddenator_fs.Fuse.Sound.{IsSound, store-IsSound, lookup-insert_path, none_ne_some}
use embeddenator_fs.Fuse.Linked.{directories-IsSound, push_entry-IsSound, linked-IsSound}
use embeddenator_fs.Fuse.Ancestors.{parent_shorter}

-- The parts of the state that linking leaves, with what the map of paths becomes.
pub record Same (fs r : EngramFs) : Type 0 where
  pub path_inodes : r.path_inodes ≡ fs.path_inodes
  pub next_ino : r.next_ino ≡ fs.next_ino
  pub file_cache : r.file_cache ≡ fs.file_cache
  pub symlinks : r.symlinks ≡ fs.symlinks
  pub devices : r.devices ≡ fs.devices
  pub read_only : r.read_only ≡ fs.read_only

abbrev pub same_refl : (fs : EngramFs) → Same fs fs
same_refl fs = record {
  path_inodes = refl;
  next_ino = refl;
  file_cache = refl;
  symlinks = refl;
  devices = refl;
  read_only = refl;
}

pub push_entry-Same :
    (missing : FuseError) (d : ℕ) (e : DirEntry) (fs : EngramFs)
    → Same fs (push_entry missing d e fs).1
unfolding push_entry
push_entry-Same missing d e fs = elim (Option-cases (lookup d fs.directories)) [
  | inl q ↦ rw (push_entry, q) (same_refl fs)
  | inr (es, q) ↦
      rw (push_entry, q)
        (record {
          path_inodes = refl;
          next_ino = refl;
          file_cache = refl;
          symlinks = refl;
          devices = refl;
          read_only = refl;
        })
]

count_link-Same : (d : ℕ) (fs : EngramFs) → Same fs (count_link d fs)
unfolding count_link
count_link-Same d fs = elim (Option-cases (lookup d fs.inodes)) [
  | inl q ↦ rw (count_link, q) (same_refl fs)
  | inr (a, q) ↦
      rw (count_link, q)
        (record {
          path_inodes = refl;
          next_ino = refl;
          file_cache = refl;
          symlinks = refl;
          devices = refl;
          read_only = refl;
        })
]

linked-Same : (d : ℕ) (r : Added) (fs : EngramFs) → Same fs (linked d (r, fs)).1
linked-Same d (refused e) fs = same_refl fs
linked-Same d (added i) fs = count_link-Same d fs

pub same_trans : {a b c : EngramFs} → Same a b → Same b c → Same a c
same_trans ab bc = record {
  path_inodes = bc.path_inodes ∙ ab.path_inodes;
  next_ino = bc.next_ino ∙ ab.next_ino;
  file_cache = bc.file_cache ∙ ab.file_cache;
  symlinks = bc.symlinks ∙ ab.symlinks;
  devices = bc.devices ∙ ab.devices;
  read_only = bc.read_only ∙ ab.read_only;
}

linked_result : (d i : ℕ) (r : Added × EngramFs) → (linked d r).0 ≡ added i → r.0 ≡ added i
linked_result d i (refused e, fs) h = h
linked_result d i (added j, fs) h = h

pub push_entry_result :
    (missing : FuseError) (d i : ℕ) (e : DirEntry) (fs : EngramFs)
    → (push_entry missing d e fs).0 ≡ added i
    → i ≡ e.ino
unfolding push_entry
push_entry_result missing d i e fs h = ground arith

module _ (p : List ℕ) (parent : ℕ) (fs : EngramFs) where
  -- The state in which the new directory's entry is pushed.
  abbrev stored : EngramFs
  stored =
      let s = store_node (after_alloc fs) fs.next_ino p (directory_attr fs.next_ino) in
      record s { directories = insert fs.next_ino [] s.directories }

  abbrev entry : DirEntry
  entry = record { ino = fs.next_ino; name = filename p; kind = directory }

  create_directory-Same : Same stored (create_directory p parent fs).1
  unfolding create_directory
  create_directory-Same =
      let r = push_entry parent_not_found parent entry stored in
      same_trans (push_entry-Same parent_not_found parent entry stored)
        (linked-Same parent (r.0) (r.1))

  create_directory_result : (i : ℕ) → (create_directory p parent fs).0 ≡ added i → i ≡ fs.next_ino
  unfolding create_directory
  create_directory_result i h =
      let r = push_entry parent_not_found parent entry stored in
      push_entry_result parent_not_found parent i entry stored (linked_result parent i r h)

  create_directory-IsSound :
      IsSound fs
      → lookup p fs.path_inodes ≡ none
      → fs.next_ino + 1 < 2 ^ 64
      → IsSound (create_directory p parent fs).1
  unfolding create_directory
  create_directory-IsSound sound fresh room =
      let n = fs.next_ino in
      let attr = directory_attr n in
      let s = store_node (after_alloc fs) n p attr in
      let s-sound = store-IsSound fs p attr sound fresh room refl in
      let h =
        directories-IsSound s s-sound n [] attr (lookup-insert_self n attr fs.inodes) refl tt in
      let r = push_entry parent_not_found parent entry stored in
      linked-IsSound (r.1)
        (push_entry-IsSound stored h parent_not_found parent entry (
          p,
          attr,
          lookup-insert_self n p fs.inode_paths,
          refl,
          lookup-insert_self n attr fs.inodes,
          refl,
        ))
        parent (r.0)

-- What it answers with is in the map of paths, what was there stays, what has a longer path is as it
-- was, and the numbers that it takes are at most the bytes of the path.
pub record Ensured (fs : EngramFs) (path : List ℕ) (r : Added × EngramFs) : Type 0 where
  pub sound : IsSound r.1
  pub grown : r.1.next_ino ≤ fs.next_ino + length path
  pub kept :
      (q : List ℕ) → length path < length q → lookup q r.1.path_inodes ≡ lookup q fs.path_inodes
  pub old :
      (q : List ℕ) (i : ℕ) → lookup q fs.path_inodes ≡ some i → lookup q r.1.path_inodes ≡ some i
  pub found : (i : ℕ) → r.0 ≡ added i → lookup path r.1.path_inodes ≡ some i
  pub file_cache : r.1.file_cache ≡ fs.file_cache
  pub symlinks : r.1.symlinks ≡ fs.symlinks
  pub read_only : r.1.read_only ≡ fs.read_only

pub insert_longer :
    (p x : List ℕ) (n : ℕ) (m : List (List ℕ × ℕ))
    → length p < length x
    → lookup x (insert p n m) ≡ lookup x m
insert_longer p x n m l = elim (lookup-insert_path p x n m) [
  | inl (e, q) ↦ absurd (omega (arith, ap length e))
  | inr (e, q) ↦ q
]

pub insert_old :
    (p x : List ℕ) (n i : ℕ) (m : List (List ℕ × ℕ))
    → lookup p m ≡ none
    → lookup x m ≡ some i
    → lookup x (insert p n m) ≡ some i
insert_old p x n i m fresh e = elim (lookup-insert_path p x n m) [
  | inl (same, q) ↦ absurd (none_ne_some (sym fresh ∙ ap (λ y. lookup y m) (sym same) ∙ e))
  | inr (other, q) ↦ q ∙ e
]

-- Where nothing changes.
unchanged :
    (fs : EngramFs) (path : List ℕ) (r : Added)
    → IsSound fs
    → ((i : ℕ) → r ≡ added i → lookup path fs.path_inodes ≡ some i)
    → Ensured fs path (r, fs)
unchanged fs path r sound found = record {
  sound = sound;
  grown = omega arith;
  kept = λ q h. refl;
  old = λ q i h. h;
  found = found;
  file_cache = refl;
  symlinks = refl;
  read_only = refl;
}

added_injective : (i j : ℕ) → added i ≡ added j → i ≡ j
added_injective i j h = cc

pub refused_ne_added : (e : FuseError) (i : ℕ) → refused e ≡ added i → ⊥
refused_ne_added e i h = cc

-- The creation in the parent, whose own path `q` is shorter.
create_in :
    (fs : EngramFs) (p q : List ℕ) (r : Added × EngramFs)
    → Ensured fs q r
    → lookup p fs.path_inodes ≡ none
    → length q < length p
    → fs.next_ino + length p < 2 ^ 64
    → Ensured fs p (in_parent (create_directory p) r)
create_in fs p q (refused e, fs1) h fresh shorter room = record {
  sound = h.sound;
  grown = omega (arith, h.grown);
  kept = λ x l. h.kept x (omega arith);
  old = h.old;
  found = λ i e'. absurd (refused_ne_added e i e');
  file_cache = h.file_cache;
  symlinks = h.symlinks;
  read_only = h.read_only;
}
create_in fs p q (added parent, fs1) h fresh shorter room =
    let fresh1 = h.kept p shorter ∙ fresh in
    let same = create_directory-Same p parent fs1 in
    record {
      sound = create_directory-IsSound p parent fs1 h.sound fresh1 (omega (arith, h.grown));
      grown = omega (arith, same.next_ino, h.grown);
      kept = λ x l.
          ap (lookup x) same.path_inodes
          ∙ insert_longer p x fs1.next_ino fs1.path_inodes l
          ∙ h.kept x (omega arith);
      old = λ x i e.
          ap (lookup x) same.path_inodes
          ∙ insert_old p x fs1.next_ino i fs1.path_inodes fresh1 (h.old x i e);
      found = λ i e.
          ap (lookup p) same.path_inodes
          ∙ lookup-insert_self p fs1.next_ino fs1.path_inodes
          ∙ ap some (sym (create_directory_result p parent fs1 i e));
      file_cache = same.file_cache ∙ h.file_cache;
      symlinks = same.symlinks ∙ h.symlinks;
      read_only = same.read_only ∙ h.read_only;
    }

-- Every run of the recursion keeps the invariant, and finds or makes its path.
ensure_on-Ensured :
    (n : ℕ) (fs : EngramFs) (path : List ℕ)
    → IsSound fs
    → fs.next_ino + length (normalize_path path) < 2 ^ 64
    → Ensured fs (normalize_path path) (ensure_on n fs path)
unfolding ensure_on ensure_step
ensure_on-Ensured zero fs path sound room =
    unchanged fs (normalize_path path) (refused not_ended) sound
      (λ i e. absurd (refused_ne_added not_ended i e))
ensure_on-Ensured (suc n) fs path sound room =
    let p = normalize_path path in
    elim (Bool-cases (bytes_eq p root_path)) [
      | inl root ↦
          let at_root = (bytes_eq_iff p root_path).0 root in
          rw (ensure_step, root)
            (unchanged fs p (added root_ino) sound (λ i e.
              ap (λ x. lookup x fs.path_inodes) at_root
              ∙ sound.has_root
              ∙ ap some (added_injective root_ino i e)))
      | inr other ↦ elim (Option-cases (lookup p fs.path_inodes)) [
        | inr (ino, found) ↦
            rw (ensure_step, other, found)
              (unchanged fs p (added ino) sound (λ i e. found ∙ ap some (added_injective ino i e)))
        | inl fresh ↦ elim (Option-cases (parent_path p)) [
          | inl orphan ↦
              rw (ensure_step, other, fresh, orphan)
                (unchanged fs p (refused invalid_path) sound
                  (λ i e. absurd (refused_ne_added invalid_path i e)))
          | inr (q, parent) ↦
              let shorter = parent_shorter path q parent in
              rw (ensure_step, other, fresh, parent)
                (create_in fs p (normalize_path q) (ensure_on n fs q)
                  (ensure_on-Ensured n fs q sound (omega arith)) fresh shorter room)
        ]
      ]
    ]

pub ensure_directory-Ensured :
    (fs : EngramFs) (path : List ℕ)
    → IsSound fs
    → fs.next_ino + length (normalize_path path) < 2 ^ 64
    → Ensured fs (normalize_path path) (ensure_directory fs path)
unfolding ensure_directory
ensure_directory-Ensured fs path sound room =
    ensure_on-Ensured (suc (length (normalize_path path))) fs path sound room
