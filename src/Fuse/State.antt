-- ===== src/Fuse/State.antt =====
-- The state of `EngramFS`, and the operations that only read it.
use embeddenator_fs.Prelude.{
  ℕ, ◌+◌, Option, none, some, List, [], ◌∷◌, Bool, ◌==◌, leb, if◌then◌else◌, length, take, drop,
  min, ◌-◌,
}
use embeddenator_fs.Prelude.Run.{Run, ok, panic}
use embeddenator_fs.Prelude.Bytes.{bytes_eq}
use embeddenator_fs.Prelude.Assoc.{nat_key, bytes_key, lookup, insert}
use embeddenator_fs.Types.{wrap64}
use embeddenator_fs.Fuse.Path.{root_path, normalize_path, parent_path}

pub data FileKind : Type 0 where
  directory regular_file symlink hardlink char_device block_device fifo socket : FileKind

-- The attributes, of which the kind is ours or the kernel's.
pub record FileAttr {ℓ} (K : Type ℓ) : Type ℓ where
  pub ino : ℕ
  pub size : ℕ
  pub blocks : ℕ
  pub kind : K
  pub perm : ℕ
  pub nlink : ℕ
  pub rdev : ℕ
  pub blksize : ℕ
  pub flags : ℕ

abbrev pub default_attr : FileAttr FileKind
default_attr = record {
  ino = 0;
  size = 0;
  blocks = 0;
  kind = regular_file;
  perm = 420;
  nlink = 1;
  rdev = 0;
  blksize = 4096;
  flags = 0;
}

pub record DirEntry : Type 0 where
  pub ino : ℕ
  pub name : List ℕ
  pub kind : FileKind

pub record CachedFile : Type 0 where
  pub data_of : List ℕ
  pub attr : FileAttr FileKind

pub record DeviceNode : Type 0 where
  pub major : ℕ
  pub minor : ℕ

pub record EngramFs : Type 0 where
  pub inodes : List (ℕ × FileAttr FileKind)
  pub inode_paths : List (ℕ × List ℕ)
  pub path_inodes : List (List ℕ × ℕ)
  pub directories : List (ℕ × List DirEntry)
  pub file_cache : List (ℕ × CachedFile)
  pub symlinks : List (ℕ × List ℕ)
  pub devices : List (ℕ × DeviceNode)
  pub next_ino : ℕ
  pub read_only : Bool
  pub attr_ttl : ℕ
  pub entry_ttl : ℕ

abbrev pub root_ino : ℕ
root_ino = 1

abbrev pub root_attr : FileAttr FileKind
root_attr = record default_attr {
  ino = root_ino;
  size = 0;
  blocks = 0;
  kind = directory;
  perm = 493;
  nlink = 2;
}

-- What `init_root` does.
unfoldable pub init_root : EngramFs → EngramFs
init_root fs = record fs {
  inodes = insert root_ino root_attr fs.inodes;
  inode_paths = insert root_ino root_path fs.inode_paths;
  path_inodes = insert root_path root_ino fs.path_inodes;
  directories = insert root_ino [] fs.directories;
}

-- The two times to live are one second.
unfoldable pub new_fs : Bool → EngramFs
unfolding init_root
new_fs read_only = init_root (record {
  inodes = [];
  inode_paths = [];
  path_inodes = [];
  directories = [];
  file_cache = [];
  symlinks = [];
  devices = [];
  next_ino = 2;
  read_only = read_only;
  attr_ttl = 1;
  entry_ttl = 1;
})

unfoldable pub lookup_path : EngramFs → List ℕ → Option ℕ
unfolding lookup normalize_path
lookup_path fs path = lookup (normalize_path path) fs.path_inodes

unfoldable pub get_attr : EngramFs → ℕ → Option (FileAttr FileKind)
unfolding lookup
get_attr fs ino = lookup ino fs.inodes

-- The bytes from `offset` on, at most `size` of them. The sum of the two is taken in 64 bits; a slice
-- whose end is before its start is a panic.
unfoldable pub window_of : List ℕ → ℕ → ℕ → Run (List ℕ)
window_of bytes offset size =
    let end = min (wrap64 (offset + size)) (length bytes) in
    if leb (length bytes) offset
    then ok []
    else if leb offset end
    then ok (take (end - offset) (drop offset bytes))
    else panic

unfoldable pub read_data : EngramFs → ℕ → ℕ → ℕ → Run (Option (List ℕ))
unfolding lookup window_of
read_data fs ino offset size = elim (lookup ino fs.file_cache) [
  | none ↦ ok none
  | some cached ↦ elim (window_of cached.data_of offset size) [
    | ok bytes ↦ ok (some bytes)
    | panic ↦ panic
  ]
]

unfoldable pub read_dir : EngramFs → ℕ → Option (List DirEntry)
unfolding lookup
read_dir fs ino = lookup ino fs.directories

-- `entries.iter().find(|e| e.name == name).map(|e| e.ino)`
unfoldable pub find_entry : List ℕ → List DirEntry → Option ℕ
unfolding bytes_eq
find_entry name [] = none
find_entry name (e ∷ entries) = if bytes_eq e.name name then some e.ino else find_entry name entries

unfoldable pub lookup_entry : EngramFs → ℕ → List ℕ → Option ℕ
unfolding lookup find_entry
lookup_entry fs parent_ino name = elim (lookup parent_ino fs.directories) [
  | none ↦ none
  | some entries ↦ find_entry name entries
]

unfoldable pub get_parent : EngramFs → ℕ → Option ℕ
unfolding lookup parent_path
get_parent fs ino = if ino == root_ino then some root_ino else elim (lookup ino fs.inode_paths) [
  | none ↦ none
  | some path ↦ elim (parent_path path) [ none ↦ none | some parent ↦ lookup parent fs.path_inodes ]
]

unfoldable pub read_symlink : EngramFs → ℕ → Option (List ℕ)
unfolding lookup
read_symlink fs ino = lookup ino fs.symlinks

unfoldable pub get_device : EngramFs → ℕ → Option DeviceNode
unfolding lookup
get_device fs ino = lookup ino fs.devices

abbrev pub file_count : EngramFs → ℕ
file_count fs = length fs.file_cache

abbrev pub symlink_count : EngramFs → ℕ
symlink_count fs = length fs.symlinks

abbrev pub device_count : EngramFs → ℕ
device_count fs = length fs.devices

-- The sum of the sizes that the attributes of the cached files have.
unfoldable pub sum_sizes : List (ℕ × CachedFile) → ℕ
sum_sizes [] = 0
sum_sizes ((ino, file) ∷ files) = wrap64 (file.attr.size + sum_sizes files)

unfoldable pub total_size : EngramFs → ℕ
unfolding sum_sizes
total_size fs = sum_sizes fs.file_cache
