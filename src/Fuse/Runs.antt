-- ===== src/Fuse/Runs.antt =====
-- Runs of the inode table of src/fs/fuse_shim.rs, and the witnesses of its theorems.
use embeddenator_fs.Prelude.{
  ℕ, ◌+◌, ◌^◌, ◌<◌, ◌≡◌, ◌≢◌, refl, ap, none, some, List, [], ◌∷◌, ◌++◌, Bool, true, false, ltb,
  if◌then◌else◌, length, drop, arith,
}
use embeddenator_fs.Prelude.Bytes.{bytes_eq}
use embeddenator_fs.Prelude.Run.{ok}
use embeddenator_fs.Prelude.Assoc.{nat_key, bytes_key, lookup, insert, without}
use embeddenator_fs.Fuse.Path.{
  root_path, starts_with_slash, ends_with_slash, rooted, without_last_slash, normalize_path, rfind,
  cut_at, parent_path,
}
use embeddenator_fs.Fuse.State.{
  default_attr, regular_file, EngramFs, init_root, new_fs, lookup_path, get_attr, read_data,
}
use embeddenator_fs.Fuse.Insert.{
  added, refused, parent_directory_not_found, not_ended, push_entry, count_link, create_directory,
  ensure_step, ensure_on, ensure_directory, create_node, add_node, file_attr, keep_file, add_file,
  symlink_attr, keep_symlink, add_symlink,
}
use embeddenator_fs.Fuse.Request.{Listed, entries_of, readdir}
use embeddenator_fs.Fuse.Sound.{IsSound}
use embeddenator_fs.Fuse.Ancestors.{ensure_directory-ends}
use embeddenator_fs.Fuse.Operations.{file, link, call_all, new_fs-IsSound, call_all-new_fs-IsSound}
use embeddenator_fs.Fuse.Readback.{read_data-add_file, add_file-orphan}
use embeddenator_fs.Fuse.Reply.{number, IsBuffer, Delivered, readdir-Delivered}

-- "/a" and "/a/b".
abbrev path_a : List ℕ
path_a = 47 ∷ 97 ∷ []

abbrev path_ab : List ℕ
path_ab = 47 ∷ 97 ∷ 47 ∷ 98 ∷ []

abbrev some_bytes : List ℕ
some_bytes = 7 ∷ 8 ∷ 9 ∷ []

normalize_path_twice : normalize_path (98 ∷ 47 ∷ []) ≡ 47 ∷ 98 ∷ []
unfolding normalize_path rooted starts_with_slash without_last_slash ends_with_slash
normalize_path_twice = refl

normalized_a : normalize_path path_a ≡ path_a
unfolding normalize_path rooted starts_with_slash without_last_slash ends_with_slash
normalized_a = refl

normalized_ab : normalize_path path_ab ≡ path_ab
unfolding normalize_path rooted starts_with_slash without_last_slash ends_with_slash
normalized_ab = refl

call_all-new_fs-IsSound_example :
    IsSound (call_all (file path_ab some_bytes ∷ link path_ab some_bytes ∷ []) (new_fs true))
call_all-new_fs-IsSound_example =
    call_all-new_fs-IsSound (file path_ab some_bytes ∷ link path_ab some_bytes ∷ []) true
      (omega (arith, ap length normalized_ab))

-- "/a/b" is a file of a new file system, whose directory takes the inode 2.
abbrev with_ab : EngramFs
with_ab = (add_file (new_fs true) path_ab some_bytes).1

with_ab_added : (add_file (new_fs true) path_ab some_bytes) ≡ (added 3, with_ab)
unfolding new_fs init_root insert without lookup bytes_eq add_file add_node normalize_path rooted
    starts_with_slash without_last_slash ends_with_slash parent_path rfind cut_at ensure_directory
    ensure_on ensure_step create_directory create_node push_entry count_link keep_file file_attr
with_ab_added = refl

new_fs_room : (new_fs true).next_ino + length (normalize_path path_ab) < 2 ^ 64
unfolding new_fs init_root
new_fs_room = omega (arith, ap length normalized_ab)

read_data-add_file_example :
    (lookup_path with_ab path_ab ≡ some 3)
    × (get_attr with_ab 3
        ≡ some (record default_attr {
          ino = 3;
          size = 3;
          blocks = 1;
          kind = regular_file;
          perm = 420;
          nlink = 1;
        }))
    × (read_data with_ab 3 1 5 ≡ ok (some (8 ∷ 9 ∷ [])))
read_data-add_file_example =
    read_data-add_file (new_fs true) with_ab path_ab some_bytes 3 1 5 (new_fs-IsSound true)
      new_fs_room (omega arith) (omega arith) with_ab_added

abbrev with_link : EngramFs
with_link = (add_symlink (new_fs true) path_ab some_bytes).1

with_link_added : add_symlink (new_fs true) path_ab some_bytes ≡ (added 3, with_link)
unfolding new_fs init_root insert without lookup bytes_eq add_symlink add_node normalize_path rooted
    starts_with_slash without_last_slash ends_with_slash parent_path rfind cut_at ensure_directory
    ensure_on ensure_step create_directory create_node push_entry count_link keep_symlink
    symlink_attr
with_link_added = refl

-- "/a" is a file, so that "/a/b" has no directory.
abbrev with_a : EngramFs
with_a = (add_file (new_fs true) path_a some_bytes).1

with_a_parent : parent_path (normalize_path path_ab) ≡ some path_a
unfolding normalize_path rooted starts_with_slash without_last_slash ends_with_slash parent_path
    bytes_eq rfind cut_at
with_a_parent = refl

with_a_path : lookup (normalize_path path_a) with_a.path_inodes ≡ some 2
unfolding new_fs init_root insert without lookup bytes_eq add_file add_node normalize_path rooted
    starts_with_slash without_last_slash ends_with_slash parent_path rfind cut_at ensure_directory
    ensure_on ensure_step create_directory create_node push_entry count_link keep_file file_attr
with_a_path = refl

with_a_file : lookup 2 with_a.directories ≡ none
unfolding new_fs init_root insert without lookup bytes_eq add_file add_node normalize_path rooted
    starts_with_slash without_last_slash ends_with_slash parent_path rfind cut_at ensure_directory
    ensure_on ensure_step create_directory create_node push_entry count_link keep_file file_attr
with_a_file = refl

with_a_fresh : lookup (normalize_path path_ab) with_a.path_inodes ≡ none
unfolding new_fs init_root insert without lookup bytes_eq add_file add_node normalize_path rooted
    starts_with_slash without_last_slash ends_with_slash parent_path rfind cut_at ensure_directory
    ensure_on ensure_step create_directory create_node push_entry count_link keep_file file_attr
with_a_fresh = refl

path_a_other : bytes_eq (normalize_path path_a) root_path ≡ false
unfolding normalize_path rooted starts_with_slash without_last_slash ends_with_slash bytes_eq
path_a_other = refl

add_file-orphan_example :
    ((add_file with_a path_ab some_bytes).0 ≡ refused parent_directory_not_found)
    × (lookup_path (add_file with_a path_ab some_bytes).1 path_ab ≡ some with_a.next_ino)
add_file-orphan_example =
    add_file-orphan with_a path_ab path_a some_bytes 2 with_a_parent path_a_other with_a_path
      with_a_file with_a_fresh

-- A buffer for two entries.
abbrev add_two : List (ℕ × Listed) → ℕ → Listed → Bool × List (ℕ × Listed)
add_two b i e = if ltb (length b) 2 then (false, b ++ ((i, e) ∷ [])) else (true, b)

add_two-IsBuffer : IsBuffer add_two (λ b. b)
add_two-IsBuffer = record {
  accepts = λ b i e h. two_accepts b i e h;
  refuses = λ b i e h. two_refuses b i e h;
}
  where
    two_accepts :
        (b : List (ℕ × Listed)) (i : ℕ) (e : Listed)
        → (add_two b i e).0 ≡ false
        → (add_two b i e).1 ≡ b ++ ((i, e) ∷ [])
    two_accepts b i e h = ground arith

    two_refuses :
        (b : List (ℕ × Listed)) (i : ℕ) (e : Listed)
        → (add_two b i e).0 ≡ true
        → (add_two b i e).1 ≡ b
    two_refuses b i e h = ground arith

readdir-Delivered_example :
    Delivered add_two
      (λ b. b)
      add_two-IsBuffer
      []
      (drop 1 (number 0 (entries_of with_ab 1)))
      (readdir add_two with_ab 1 1 [])
readdir-Delivered_example = readdir-Delivered add_two (λ b. b) add_two-IsBuffer with_ab 1 1 []

-- Two paths that differ by a doubled slash are two files of one directory, with the same name.
doubled_slash : lookup_path (add_file with_a (47 ∷ path_a) (1 ∷ [])).1 (47 ∷ path_a) ≡ some 3
unfolding lookup_path new_fs init_root insert without lookup bytes_eq add_file add_node
    normalize_path rooted starts_with_slash without_last_slash ends_with_slash parent_path rfind
    cut_at ensure_directory ensure_on ensure_step create_directory create_node push_entry count_link
    keep_file file_attr
doubled_slash = refl

ensure_directory-ends_example :
    ((ensure_directory (new_fs true) path_ab).0 ≢ refused not_ended)
    × (ensure_directory (new_fs true) path_ab
        ≡ ensure_step (new_fs true) (normalize_path path_ab) (ensure_directory (new_fs true)))
    × (ensure_on 9 (new_fs true) path_ab ≡ ensure_directory (new_fs true) path_ab)
ensure_directory-ends_example =
    ensure_directory-ends (new_fs true) path_ab 9 (omega (arith, ap length normalized_ab))
