-- ===== src/Fuse/Readback.antt =====
-- What is inserted is found under its path, and read back.
use embeddenator_fs.Prelude.{
  ℕ, ◌+◌, ◌*◌, ◌/◌, ◌^◌, ◌≤◌, ◌<◌, ◌≡◌, inl, inr, refl, sym, ap, ◌∙◌, subst, min, none, some, List,
  false, leb_cases, le→leb, length, take, drop, length-drop, drop_all, arith,
}
use embeddenator_fs.Prelude.Bytes.{bytes_eq}
use embeddenator_fs.Prelude.Run.{ok}
use embeddenator_fs.Prelude.Assoc.{nat_key, bytes_key, lookup, lookup-insert_self}
use embeddenator_fs.Types.{wrap64}
use embeddenator_fs.Manifest.Entry.Offsets.Ranges.{take_nil, take_of_min}
use embeddenator_fs.Fuse.Path.{root_path, normalize_path, parent_path}
use embeddenator_fs.Fuse.State.{
  CachedFile, EngramFs, default_attr, regular_file, lookup_path, get_attr, read_data, window_of,
  read_symlink,
}
use embeddenator_fs.Fuse.Insert.{
  added, refused, parent_directory_not_found, file_attr, blocks_of, keep_file, symlink_attr,
  keep_symlink, add_node, add_file, add_symlink, ensure_directory, ensure_step, create_node,
  push_entry,
}
use embeddenator_fs.Fuse.Request.{reply_data, readlink, is_symlink}
use embeddenator_fs.Fuse.Sound.{IsSound}
use embeddenator_fs.Fuse.Ancestors.{ensure_directory_unrolled}
use embeddenator_fs.Fuse.Operations.{add_file-Inserted, add_symlink-Inserted}

pub window_of_lem :
    (bytes : List ℕ) (offset size : ℕ)
    → length bytes ≤ 2 ^ 63
    → size < 2 ^ 32
    → window_of bytes offset size ≡ ok (take size (drop offset bytes))
unfolding window_of
window_of_lem bytes offset size hb hs = elim (leb_cases (length bytes) offset) [
  | inl (t, l) ↦
      rw (window_of, t)
        (sym (ap (λ rest. ok (take size rest)) (drop_all offset bytes l) ∙ ap ok (take_nil size)))
  | inr (t, l) ↦
      let no_wrap : wrap64 (offset + size) ≡ offset + size = omega arith in
      rw (window_of, t, no_wrap, le→leb offset (min (offset + size) (length bytes)) (omega arith))
        (ap (λ n. ok (take n (drop offset bytes))) (omega (arith, length-drop offset bytes))
          ∙ ap ok (take_of_min size (drop offset bytes)))
]

-- What the cache keeps of a file.
abbrev cached_file : List ℕ → ℕ → CachedFile
cached_file bytes i = record { data_of = bytes; attr = file_attr (length bytes) i }

-- A file that was inserted is found under the path that it was inserted under; its attributes name its
-- inode, its size in bytes and in blocks of 512 begun, a regular file, the permissions 0644 and one
-- link; and every read gives the bytes from the offset on, as many as were asked
-- for or are there; where the table was sound, its counter has room for the path, and the file is
-- no longer than a vector can be.
pub read_data-add_file :
    (fs fs' : EngramFs) (path bytes : List ℕ) (i offset size : ℕ)
    → IsSound fs
    → fs.next_ino + length (normalize_path path) < 2 ^ 64
    → length bytes ≤ 2 ^ 63
    → size < 2 ^ 32
    → add_file fs path bytes ≡ (added i, fs')
    → (lookup_path fs' path ≡ some i)
      × (get_attr fs' i
          ≡ some (record default_attr {
            ino = i;
            size = length bytes;
            blocks = (length bytes + 511) / 512;
            kind = regular_file;
            perm = 6 * 64 + 4 * 8 + 4;
            nlink = 1;
          }))
      × (read_data fs' i offset size ≡ ok (some (take size (drop offset bytes))))
unfolding lookup_path get_attr read_data keep_file file_attr blocks_of
read_data-add_file fs fs' path bytes i offset size sound room hb hs e =
    let h = add_file-Inserted fs path bytes sound room in
    let r = ap (λ x. x.0) e in
    let s = ap (λ x. x.1) e in
    let path_of =
      subst (λ x. lookup (normalize_path path) x.path_inodes ≡ some i) s (h.new_path i r) in
    let attr =
      subst (λ x. lookup i x.inodes ≡ some (file_attr (length bytes) i)) s (h.new_attr i r) in
    let (t, files, links, mode, same) = h.kept i r in
    let cached : lookup i fs'.file_cache ≡ some (cached_file bytes i) =
      ap (λ x. lookup i x.file_cache) (sym s)
      ∙ ap (lookup i) same.file_cache
      ∙ lookup-insert_self i (cached_file bytes i) t.file_cache in
    (path_of, attr, rw (read_data, cached, window_of_lem bytes offset size hb hs) refl)

-- The table has an entry for a symbolic link that was inserted, and `readlink` answers its target;
-- where the table was sound and its counter has room for the path.
pub readlink-add_symlink :
    (fs fs' : EngramFs) (path target : List ℕ) (i : ℕ)
    → IsSound fs
    → fs.next_ino + length (normalize_path path) < 2 ^ 64
    → add_symlink fs path target ≡ (added i, fs')
    → (lookup_path fs' path ≡ some i) × (readlink fs' i ≡ reply_data target)
unfolding lookup_path readlink get_attr read_symlink is_symlink keep_symlink symlink_attr
readlink-add_symlink fs fs' path target i sound room e =
    let h = add_symlink-Inserted fs path target sound room in
    let r = ap (λ x. x.0) e in
    let s = ap (λ x. x.1) e in
    let path_of =
      subst (λ x. lookup (normalize_path path) x.path_inodes ≡ some i) s (h.new_path i r) in
    let attr : lookup i fs'.inodes ≡ some (symlink_attr (length target) i) =
      subst (λ x. lookup i x.inodes ≡ some (symlink_attr (length target) i)) s (h.new_attr i r) in
    let (t, files, links, mode, same) = h.kept i r in
    let stored : lookup i fs'.symlinks ≡ some target =
      ap (λ x. lookup i x.symlinks) (sym s)
      ∙ ap (lookup i) same.symlinks
      ∙ lookup-insert_self i target t.symlinks in
    (path_of, rw (readlink, get_attr, attr, read_symlink, stored) refl)

ensured_there :
    (fs : EngramFs) (q : List ℕ) (d : ℕ)
    → bytes_eq (normalize_path q) root_path ≡ false
    → lookup (normalize_path q) fs.path_inodes ≡ some d
    → ensure_directory fs q ≡ (added d, fs)
unfolding ensure_step
ensured_there fs q d other there =
    ensure_directory_unrolled fs q ∙ rw (ensure_step, other, there) refl

created_orphan :
    (fs : EngramFs) (p bytes : List ℕ) (d : ℕ)
    → lookup d fs.directories ≡ none
    → let r = create_node (file_attr (length bytes)) (keep_file bytes) p d fs in
      (r.0 ≡ refused parent_directory_not_found) × (lookup p r.1.path_inodes ≡ some fs.next_ino)
unfolding create_node push_entry keep_file
created_orphan fs p bytes d file =
    rw (create_node, push_entry, file) (refl, lookup-insert_self p fs.next_ino fs.path_inodes)

-- An insert below a path that stands for something else than a directory, such as a file, fails; yet
-- the node that it refuses is then found under its path, with a new inode.
pub add_file-orphan :
    (fs : EngramFs) (path q bytes : List ℕ) (d : ℕ)
    → parent_path (normalize_path path) ≡ some q
    → bytes_eq (normalize_path q) root_path ≡ false
    → lookup (normalize_path q) fs.path_inodes ≡ some d
    → lookup d fs.directories ≡ none
    → lookup (normalize_path path) fs.path_inodes ≡ none
    → let r = add_file fs path bytes in
      (r.0 ≡ refused parent_directory_not_found) × (lookup_path r.1 path ≡ some fs.next_ino)
unfolding add_file add_node lookup_path
add_file-orphan fs path q bytes d parent other there file fresh =
    rw (add_file, add_node, fresh, parent, ensured_there fs q d other there)
      (created_orphan fs (normalize_path path) bytes d file)
