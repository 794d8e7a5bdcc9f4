-- ===== src/Fuse/Insert.antt =====
-- The operations of `EngramFS` that insert a node. They share their steps: `add_node` is what the
-- code writes out in each of them.
use embeddenator_fs.Prelude.{
  ℕ, zero, suc, ◌+◌, ◌*◌, ◌^◌, ◌/◌, ◌%◌, none, some, List, [], ◌∷◌, ◌++◌, Bool, true, if◌then◌else◌,
  length, bit_or,
}
use embeddenator_fs.Prelude.Bytes.{bytes_eq}
use embeddenator_fs.Prelude.Assoc.{nat_key, bytes_key, lookup, insert}
use embeddenator_fs.Types.{wrap64}
use embeddenator_fs.Fuse.Path.{root_path, normalize_path, parent_path, filename}
use embeddenator_fs.Fuse.State.{
  FileKind, directory, regular_file, symlink, char_device, block_device, fifo, socket, FileAttr,
  default_attr, DirEntry, EngramFs, root_ino, new_fs,
}

-- The texts of the errors. `not_ended` is none of the code's: the fuel of `ensure_on` was used up.
pub data FuseError : Type 0 where
  file_already_exists symlink_already_exists device_already_exists : FuseError
  special_file_already_exists invalid_path parent_not_found : FuseError
  parent_directory_not_found not_ended : FuseError

pub data Added : Type 0 where
  added : ℕ → Added
  refused : FuseError → Added

-- The inserts that every kind of node makes, under the number that was allocated.
abbrev pub store_node : EngramFs → ℕ → List ℕ → FileAttr FileKind → EngramFs
store_node fs ino path attr = record fs {
  inodes = insert ino attr fs.inodes;
  inode_paths = insert ino path fs.inode_paths;
  path_inodes = insert path ino fs.path_inodes;
}

-- `alloc_ino`: the answer is `next_ino` as it was.
abbrev pub after_alloc : EngramFs → EngramFs
after_alloc fs = record fs { next_ino = wrap64 (fs.next_ino + 1) }

-- `directories.get_mut(&parent_ino)`, and the push of the entry where there is a directory.
unfoldable pub push_entry : FuseError → ℕ → DirEntry → EngramFs → Added × EngramFs
unfolding lookup insert
push_entry missing parent_ino entry fs = elim (lookup parent_ino fs.directories) [
  | none ↦ (refused missing, fs)
  | some entries ↦ (
    added entry.ino,
    record fs { directories = insert parent_ino (entries ++ (entry ∷ [])) fs.directories },
  )
]

-- `parent_attr.nlink += 1`, where the parent has attributes.
unfoldable pub count_link : ℕ → EngramFs → EngramFs
unfolding lookup insert
count_link parent_ino fs = elim (lookup parent_ino fs.inodes) [
  | none ↦ fs
  | some attr ↦ record fs {
    inodes = insert parent_ino (record attr { nlink = (attr.nlink + 1) % 2 ^ 32 }) fs.inodes;
  }
]

abbrev pub directory_attr : ℕ → FileAttr FileKind
directory_attr ino = record default_attr {
  ino = ino;
  size = 0;
  blocks = 0;
  kind = directory;
  perm = 493;
  nlink = 2;
}

-- What follows the push of a new directory's entry.
abbrev pub linked : ℕ → Added × EngramFs → Added × EngramFs
linked parent_ino (refused e, fs) = (refused e, fs)
linked parent_ino (added ino, fs) = (added ino, count_link parent_ino fs)

-- The creation of a directory whose parent is there.
unfoldable pub create_directory : List ℕ → ℕ → EngramFs → Added × EngramFs
unfolding insert filename push_entry count_link
create_directory path parent_ino fs =
    let ino = fs.next_ino in
    let stored = store_node (after_alloc fs) ino path (directory_attr ino) in
    linked parent_ino (
      push_entry parent_not_found parent_ino
        (record { ino = ino; name = filename path; kind = directory })
        (record stored { directories = insert ino [] stored.directories }))

-- What is done in the parent where it is there.
abbrev pub in_parent : (ℕ → EngramFs → Added × EngramFs) → Added × EngramFs → Added × EngramFs
in_parent create (refused e, fs) = (refused e, fs)
in_parent create (added parent_ino, fs) = create parent_ino fs

-- The body of `ensure_directory` on a path that is normalized, where `ensure` is the recursive call.
unfoldable pub ensure_step : EngramFs → List ℕ → (List ℕ → Added × EngramFs) → Added × EngramFs
unfolding parent_path lookup create_directory bytes_eq
ensure_step fs p ensure =
    if bytes_eq p root_path then (added root_ino, fs) else elim (lookup p fs.path_inodes) [
      | some ino ↦ (added ino, fs)
      | none ↦ elim (parent_path p) [
        | none ↦ (refused invalid_path, fs)
        | some parent ↦ in_parent (create_directory p) (ensure parent)
      ]
    ]

-- `ensure_directory` on fuel; it answers `not_ended` where there is none left.
unfoldable pub ensure_on : ℕ → EngramFs → List ℕ → Added × EngramFs
unfolding normalize_path ensure_step
ensure_on zero fs path = (refused not_ended, fs)
ensure_on (suc fuel) fs path = ensure_step fs (normalize_path path) (ensure_on fuel fs)

unfoldable pub ensure_directory : EngramFs → List ℕ → Added × EngramFs
unfolding ensure_on normalize_path
ensure_directory fs path = ensure_on (suc (length (normalize_path path))) fs path

-- The creation of a node in a parent: the attributes, the inserts of its kind, and its entry.
unfoldable pub create_node :
    (ℕ → FileAttr FileKind) → (ℕ → EngramFs → EngramFs) → List ℕ → ℕ → EngramFs → Added × EngramFs
unfolding insert filename push_entry
create_node attr_of keep path parent_ino fs =
    let ino = fs.next_ino in
    let attr = attr_of ino in
    push_entry parent_directory_not_found parent_ino
      (record { ino = ino; name = filename path; kind = attr.kind })
      (keep ino (store_node (after_alloc fs) ino path attr))

unfoldable pub add_node :
    FuseError
    → (ℕ → FileAttr FileKind)
    → (ℕ → EngramFs → EngramFs)
    → EngramFs
    → List ℕ
    → Added × EngramFs
unfolding normalize_path lookup parent_path ensure_directory create_node
add_node exists attr_of keep fs path =
    let p = normalize_path path in
    elim (lookup p fs.path_inodes) [
      | some ino ↦ (refused exists, fs)
      | none ↦ elim (parent_path p) [
        | none ↦ (refused invalid_path, fs)
        | some parent ↦ in_parent (create_node attr_of keep p) (ensure_directory fs parent)
      ]
    ]

-- `size.div_ceil(512)`
unfoldable pub blocks_of : ℕ → ℕ
blocks_of size = (size + 511) / 512

unfoldable pub file_attr : ℕ → ℕ → FileAttr FileKind
unfolding blocks_of
file_attr size ino = record default_attr {
  ino = ino;
  size = size;
  blocks = blocks_of size;
  kind = regular_file;
  perm = 420;
  nlink = 1;
}

unfoldable pub keep_file : List ℕ → ℕ → EngramFs → EngramFs
unfolding file_attr insert
keep_file bytes ino fs = record fs {
  file_cache =
      insert ino (record { data_of = bytes; attr = file_attr (length bytes) ino }) fs.file_cache;
}

unfoldable pub add_file : EngramFs → List ℕ → List ℕ → Added × EngramFs
unfolding add_node file_attr keep_file
add_file fs path bytes =
    add_node file_already_exists (file_attr (length bytes)) (keep_file bytes) fs path

unfoldable pub symlink_attr : ℕ → ℕ → FileAttr FileKind
symlink_attr size ino = record default_attr {
  ino = ino;
  size = size;
  blocks = 0;
  kind = symlink;
  perm = 511;
  nlink = 1;
}

unfoldable pub keep_symlink : List ℕ → ℕ → EngramFs → EngramFs
unfolding insert
keep_symlink target ino fs = record fs { symlinks = insert ino target fs.symlinks }

unfoldable pub add_symlink : EngramFs → List ℕ → List ℕ → Added × EngramFs
unfolding add_node symlink_attr keep_symlink
add_symlink fs path target =
    add_node symlink_already_exists (symlink_attr (length target)) (keep_symlink target) fs path

-- `(major << 8) | minor` on 32 bits.
unfoldable pub rdev_of : ℕ → ℕ → ℕ
rdev_of major minor = bit_or ((major * 256) % 2 ^ 32) minor

unfoldable pub device_attr : Bool → ℕ → ℕ → ℕ → ℕ → FileAttr FileKind
unfolding blocks_of rdev_of
device_attr is_char major minor size ino = record default_attr {
  ino = ino;
  size = size;
  blocks = blocks_of size;
  kind = if is_char then char_device else block_device;
  perm = 438;
  nlink = 1;
  rdev = rdev_of major minor;
}

unfoldable pub keep_device : Bool → ℕ → ℕ → List ℕ → ℕ → EngramFs → EngramFs
unfolding device_attr insert
keep_device is_char major minor bytes ino fs = record fs {
  devices = insert ino (record { major = major; minor = minor }) fs.devices;
  file_cache =
      insert ino
        (record { data_of = bytes; attr = device_attr is_char major minor (length bytes) ino })
        fs.file_cache;
}

unfoldable pub add_device : EngramFs → List ℕ → Bool → ℕ → ℕ → List ℕ → Added × EngramFs
unfolding add_node device_attr keep_device
add_device fs path is_char major minor bytes =
    add_node device_already_exists (device_attr is_char major minor (length bytes))
      (keep_device is_char major minor bytes) fs path

unfoldable pub special_attr : FileKind → ℕ → FileAttr FileKind
special_attr kind ino = record default_attr {
  ino = ino;
  size = 0;
  blocks = 0;
  kind = kind;
  perm = 438;
  nlink = 1;
}

unfoldable pub add_special_file : EngramFs → List ℕ → FileKind → Added × EngramFs
unfolding add_node special_attr
add_special_file fs path kind =
    add_node special_file_already_exists (special_attr kind) (λ ino fs1. fs1) fs path

abbrev pub add_fifo : EngramFs → List ℕ → Added × EngramFs
add_fifo fs path = add_special_file fs path fifo

abbrev pub add_socket : EngramFs → List ℕ → Added × EngramFs
add_socket fs path = add_special_file fs path socket

-- The builder: what each file's insert answers is dropped.
unfoldable pub builder : EngramFs
unfolding new_fs
builder = new_fs true

unfoldable pub with_file : EngramFs → List ℕ → List ℕ → EngramFs
unfolding add_file
with_file fs path bytes = (add_file fs path bytes).1

abbrev pub set_read_only : EngramFs → Bool → EngramFs
set_read_only fs read_only = record fs { read_only = read_only }
