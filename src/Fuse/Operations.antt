-- ===== src/Fuse/Operations.antt =====
-- Sequences of inserts into a new file system.
use embeddenator_fs.Prelude.{
  ℕ, ◌+◌, ◌^◌, ◌≤◌, ◌<◌, ◌≡◌, refl, sym, ap, ◌∙◌, subst, some, List, [], ◌∷◌, Bool, ==_iff, length,
  All, arith,
}
use embeddenator_fs.Prelude.Bytes.{bytes_eq, bytes_eq_iff}
use embeddenator_fs.Prelude.Assoc.{nat_key, bytes_key, lookup, insert, without}
use embeddenator_fs.Fuse.Path.{root_path, normalize_path}
use embeddenator_fs.Fuse.State.{FileKind, EngramFs, root_ino, init_root, root_attr, new_fs}
use embeddenator_fs.Fuse.Insert.{
  Added, file_already_exists, symlink_already_exists, device_already_exists,
  special_file_already_exists, file_attr, keep_file, symlink_attr, keep_symlink, device_attr,
  keep_device, special_attr, add_file, add_symlink, add_device, add_special_file,
}
use embeddenator_fs.Fuse.Sound.{IsEntry, IsSound}
use embeddenator_fs.Fuse.AddNode.{Inserted, add_node-Inserted}

-- One call of an insert.
pub data Insert : Type 0 where
  file : List ℕ → List ℕ → Insert
  link : List ℕ → List ℕ → Insert
  device : List ℕ → Bool → ℕ → ℕ → List ℕ → Insert
  special : List ℕ → FileKind → Insert

abbrev pub path_of : Insert → List ℕ
path_of (file path bytes) = path
path_of (link path target) = path
path_of (device path is_char major minor bytes) = path
path_of (special path kind) = path

unfoldable pub call : Insert → EngramFs → Added × EngramFs
unfolding add_file add_symlink add_device add_special_file
call (file path bytes) fs = add_file fs path bytes
call (link path target) fs = add_symlink fs path target
call (device path is_char major minor bytes) fs = add_device fs path is_char major minor bytes
call (special path kind) fs = add_special_file fs path kind

unfoldable pub call_all : List Insert → EngramFs → EngramFs
unfolding call
call_all [] fs = fs
call_all (op ∷ ops) fs = call_all ops (call op fs).1

-- The bytes of all paths.
abbrev pub path_bytes : List Insert → ℕ
path_bytes [] = 0
path_bytes (op ∷ ops) = length (normalize_path (path_of op)) + path_bytes ops

pub add_file-Inserted :
    (fs : EngramFs) (path bytes : List ℕ)
    → IsSound fs
    → fs.next_ino + length (normalize_path path) < 2 ^ 64
    → Inserted
        (file_attr (length bytes))
        (keep_file bytes)
        fs
        (normalize_path path)
        (add_file fs path bytes)
unfolding add_file file_attr keep_file
add_file-Inserted fs path bytes sound room =
    add_node-Inserted (file_attr (length bytes)) (keep_file bytes) (λ n. refl) (λ n s. refl)
      file_already_exists fs path sound room

pub add_symlink-Inserted :
    (fs : EngramFs) (path target : List ℕ)
    → IsSound fs
    → fs.next_ino + length (normalize_path path) < 2 ^ 64
    → Inserted
        (symlink_attr (length target))
        (keep_symlink target)
        fs
        (normalize_path path)
        (add_symlink fs path target)
unfolding add_symlink symlink_attr keep_symlink
add_symlink-Inserted fs path target sound room =
    add_node-Inserted (symlink_attr (length target)) (keep_symlink target) (λ n. refl) (λ n s. refl)
      symlink_already_exists fs path sound room

-- Every insert keeps the invariant, and takes at most one number for each byte of its path.
pub call-IsSound :
    (op : Insert) (fs : EngramFs)
    → IsSound fs
    → fs.next_ino + length (normalize_path (path_of op)) < 2 ^ 64
    → IsSound (call op fs).1
      × ((call op fs).1.next_ino ≤ fs.next_ino + length (normalize_path (path_of op)))
unfolding call add_device device_attr keep_device add_special_file special_attr
call-IsSound (file path bytes) fs sound room =
    let h = add_file-Inserted fs path bytes sound room in (h.sound, h.grown)
call-IsSound (link path target) fs sound room =
    let h = add_symlink-Inserted fs path target sound room in (h.sound, h.grown)
call-IsSound (device path is_char major minor bytes) fs sound room =
    let h =
      add_node-Inserted (device_attr is_char major minor (length bytes))
        (keep_device is_char major minor bytes) (λ n. refl) (λ n s. refl) device_already_exists fs
        path sound room in
    (h.sound, h.grown)
call-IsSound (special path kind) fs sound room =
    let h =
      add_node-Inserted (special_attr kind) (λ n s. s) (λ n. refl) (λ n s. refl)
        special_file_already_exists fs path sound room in
    (h.sound, h.grown)

call_all-IsSound :
    (ops : List Insert) (fs : EngramFs)
    → IsSound fs
    → fs.next_ino + path_bytes ops < 2 ^ 64
    → IsSound (call_all ops fs)
unfolding call_all
call_all-IsSound [] fs sound room = sound
call_all-IsSound (op ∷ ops) fs sound room =
    let h = call-IsSound op fs sound (omega arith) in
    call_all-IsSound ops (call op fs).1 h.0 (omega (arith, h.1))

-- What a map with one entry answers.
one_path :
    (p : List ℕ) (i : ℕ)
    → lookup p ((root_path, root_ino) ∷ []) ≡ some i
    → (p ≡ root_path) × (i ≡ root_ino)
unfolding lookup
one_path p i h = ground (arith, bytes_eq_iff root_path p)

one_ino :
    {V : Type 0} (v w : V) (i : ℕ)
    → lookup i ((root_ino, v) ∷ []) ≡ some w
    → (i ≡ root_ino) × (w ≡ v)
unfolding lookup
one_ino v w i h = ground (arith, ==_iff root_ino i)

pub new_fs-IsSound : (read_only : Bool) → IsSound (new_fs read_only)
unfolding new_fs init_root insert without lookup bytes_eq
new_fs-IsSound read_only = record {
  has_root = refl;
  path_back = λ p i h.
      let e = one_path p i h in
      ap (λ j. lookup j ((root_ino, root_path) ∷ [])) e.1 ∙ ap some (sym e.0);
  inode_back = λ p i h.
      let e = one_ino root_path p i h in
      ap (λ q. lookup q ((root_path, root_ino) ∷ [])) e.1 ∙ ap some (sym e.0);
  has_attr = λ p i h.
      let e = one_ino root_path p i h in
      (root_attr, ap (λ j. lookup j ((root_ino, root_attr) ∷ [])) e.0, sym e.0);
  below = λ p i h. omega (arith, (one_ino root_path p i h).0);
  has_kind = λ d es h.
      let e = one_ino [] es d h in
      (root_attr, ap (λ j. lookup j ((root_ino, root_attr) ∷ [])) e.0, refl);
  has_path = λ d a h.
      let e = one_ino root_attr a d h in
      (root_path, ap (λ j. lookup j ((root_ino, root_path) ∷ [])) e.0);
  entries = λ d es h. subst (All (IsEntry (new_fs read_only))) (sym (one_ino [] es d h).1) tt;
}

-- However files, links, device nodes and special files are inserted into a new file system, whether
-- the inserts succeed or fail, the table of inodes stays sound, where the bytes of all paths leave the
-- counter of inodes below its bound.
pub call_all-new_fs-IsSound :
    (ops : List Insert) (read_only : Bool)
    → 2 + path_bytes ops < 2 ^ 64
    → IsSound (call_all ops (new_fs read_only))
unfolding new_fs init_root
call_all-new_fs-IsSound ops read_only room =
    call_all-IsSound ops (new_fs read_only) (new_fs-IsSound read_only) room
