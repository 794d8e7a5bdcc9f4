-- ===== src/Fuse/Request.antt =====
-- The callbacks of `impl fuser::Filesystem for EngramFS`, as functions of the file system to a reply.
-- A name that is not a text is `none`. `init` and `destroy` only print; `release` and `releasedir`
-- answer `ok`. The buffer of a directory's reply is fuser's: the parameter `add` of `emit`.
use embeddenator_fs.Prelude.{
  ℕ, ◌+◌, ◌/◌, ◌%◌, Option, none, some, List, [], ◌∷◌, ◌++◌, map, Bool, true, false, not, ◌&&◌,
  ◌==◌, if◌then◌else◌, drop, bit_and,
}
use embeddenator_fs.Prelude.Bytes.{bytes_eq}
use embeddenator_fs.Prelude.Run.{Run, ok, panic}
use embeddenator_fs.Prelude.Assoc.{nat_key, lookup}
use embeddenator_fs.Fuse.Path.{slash, root_path}
use embeddenator_fs.Fuse.State.{
  FileKind, directory, regular_file, symlink, hardlink, char_device, block_device, fifo, socket,
  FileAttr, DirEntry, EngramFs, get_attr, read_data, read_dir, lookup_entry, get_parent,
  read_symlink, file_count, total_size,
}
use embeddenator_fs.Fuse.Insert.{
  Added, added, refused, add_symlink, add_device, add_fifo, add_socket,
}

-- The kernel's kinds of files.
pub data KernelType : Type 0 where
  kernel_directory kernel_file kernel_symlink kernel_char_device : KernelType
  kernel_block_device named_pipe kernel_socket : KernelType

unfoldable pub to_kernel : FileKind → KernelType
to_kernel directory = kernel_directory
to_kernel regular_file = kernel_file
to_kernel symlink = kernel_symlink
to_kernel hardlink = kernel_file
to_kernel char_device = kernel_char_device
to_kernel block_device = kernel_block_device
to_kernel fifo = named_pipe
to_kernel socket = kernel_socket

unfoldable pub to_kernel_attr : FileAttr FileKind → FileAttr KernelType
unfolding to_kernel
to_kernel_attr a = record {
  ino = a.ino;
  size = a.size;
  blocks = a.blocks;
  kind = to_kernel a.kind;
  perm = a.perm;
  nlink = a.nlink;
  rdev = a.rdev;
  blksize = a.blksize;
  flags = a.flags;
}

pub data Errno : Type 0 where
  enoent erofs enotdir einval eio : Errno

pub record Statfs : Type 0 where
  pub blocks : ℕ
  pub files : ℕ
  pub bsize : ℕ
  pub namelen : ℕ
  pub frsize : ℕ

pub data Reply : Type 0 where
  reply_entry : ℕ → FileAttr KernelType → Reply
  reply_attr : ℕ → FileAttr KernelType → Reply
  reply_data : List ℕ → Reply
  reply_opened reply_ok : Reply
  reply_statfs : Statfs → Reply
  reply_error : Errno → Reply

-- The attributes of a node as an entry, or an error where it has none.
unfoldable pub entry_of : EngramFs → Errno → ℕ → Reply
unfolding get_attr to_kernel_attr
entry_of fs missing ino = elim (get_attr fs ino) [
  | none ↦ reply_error missing
  | some attr ↦ reply_entry fs.entry_ttl (to_kernel_attr attr)
]

unfoldable pub lookup_name : EngramFs → ℕ → Option (List ℕ) → Reply
unfolding lookup_entry entry_of
lookup_name fs parent none = reply_error enoent
lookup_name fs parent (some name) = elim (lookup_entry fs parent name) [
  | none ↦ reply_error enoent
  | some ino ↦ entry_of fs enoent ino
]

unfoldable pub getattr : EngramFs → ℕ → Reply
unfolding get_attr to_kernel_attr
getattr fs ino = elim (get_attr fs ino) [
  | none ↦ reply_error enoent
  | some attr ↦ reply_attr fs.attr_ttl (to_kernel_attr attr)
]

-- `offset as u64` of an offset that is not negative.
unfoldable pub read : EngramFs → ℕ → ℕ → ℕ → Run Reply
unfolding read_data
read fs ino offset size = elim (read_data fs ino offset size) [
  | panic ↦ panic
  | ok none ↦ ok (reply_error enoent)
  | ok (some bytes) ↦ ok (reply_data bytes)
]

-- `O_WRONLY | O_RDWR | O_APPEND | O_TRUNC` of Linux.
abbrev pub write_flags : ℕ
write_flags = 1539

unfoldable pub open_file : EngramFs → ℕ → ℕ → Reply
unfolding get_attr
open_file fs ino flags = elim (get_attr fs ino) [
  | none ↦ reply_error enoent
  | some attr ↦
      if fs.read_only && not (bit_and flags write_flags == 0)
      then reply_error erofs
      else reply_opened
]

unfoldable pub is_directory : FileKind → Bool
is_directory directory = true
is_directory _ = false

unfoldable pub is_symlink : FileKind → Bool
is_symlink symlink = true
is_symlink _ = false

unfoldable pub opendir : EngramFs → ℕ → Reply
unfolding get_attr is_directory
opendir fs ino = elim (get_attr fs ino) [
  | none ↦ reply_error enoent
  | some attr ↦ if is_directory attr.kind then reply_opened else reply_error enotdir
]

-- What a directory's reply lists: the number of a node, its kind and its name.
abbrev pub Listed : Type 0
Listed = ℕ × KernelType × List ℕ

abbrev pub dot : List ℕ
dot = 46 ∷ []

abbrev pub dot_dot : List ℕ
dot_dot = 46 ∷ 46 ∷ []

abbrev pub unwrap_or {ℓ} : {A : Type ℓ} → Option A → A → A
unwrap_or none d = d
unwrap_or (some a) d = a

unfoldable pub listed : DirEntry → Listed
unfolding to_kernel
listed e = (e.ino, to_kernel e.kind, e.name)

unfoldable pub entries_of : EngramFs → ℕ → List Listed
unfolding get_parent read_dir listed
entries_of fs ino =
    (ino, kernel_directory, dot)
    ∷ (unwrap_or (get_parent fs ino) ino, kernel_directory, dot_dot)
    ∷ map listed (unwrap_or (read_dir fs ino) [])

-- The loop over the entries with their numbers: it stops when the buffer `b` is full.
unfoldable pub emit {ℓ} : {B : Type ℓ} → (B → ℕ → Listed → Bool × B) → B → ℕ → List Listed → B
emit add b i [] = b
emit add b i (e ∷ entries) =
    let r = add b (i + 1) e in
    let rest = emit add (r.1) (i + 1) entries in if r.0 then r.1 else rest

unfoldable pub readdir {ℓ} : {B : Type ℓ} → (B → ℕ → Listed → Bool × B) → EngramFs → ℕ → ℕ → B → B
unfolding entries_of emit
readdir add fs ino offset b = emit add b offset (drop offset (entries_of fs ino))

-- The statistics, whose counts of free blocks and nodes are zero.
unfoldable pub statfs : EngramFs → Reply
unfolding total_size
statfs fs = reply_statfs (record {
  blocks = (total_size fs + 4095) / 4096;
  files = file_count fs;
  bsize = 4096;
  namelen = 255;
  frsize = 4096;
})

-- `W_OK` is 2.
unfoldable pub access : EngramFs → ℕ → ℕ → Reply
unfolding get_attr
access fs ino mask = elim (get_attr fs ino) [
  | none ↦ reply_error enoent
  | some attr ↦ if fs.read_only && not (bit_and mask 2 == 0) then reply_error erofs else reply_ok
]

unfoldable pub readlink : EngramFs → ℕ → Reply
unfolding get_attr read_symlink is_symlink
readlink fs ino = elim (get_attr fs ino) [
  | none ↦ reply_error enoent
  | some attr ↦
      if is_symlink attr.kind
      then elim (read_symlink fs ino) [ none ↦ reply_error eio | some target ↦ reply_data target ]
      else reply_error einval
]

-- The path of a name in a parent.
unfoldable pub child_path : List ℕ → List ℕ → List ℕ
unfolding bytes_eq
child_path parent name =
    if bytes_eq parent root_path then slash ∷ name else parent ++ (slash ∷ name)

-- What an insert is answered with.
unfoldable pub answer_insert : Added × EngramFs → Reply × EngramFs
unfolding entry_of
answer_insert (added ino, fs) = (entry_of fs eio ino, fs)
answer_insert (refused e, fs) = (reply_error eio, fs)

unfoldable pub symlink_in : EngramFs → ℕ → Option (List ℕ) → Option (List ℕ) → Reply × EngramFs
unfolding lookup child_path add_symlink answer_insert
symlink_in fs parent none target = (reply_error (if fs.read_only then erofs else einval), fs)
symlink_in fs parent (some name) none = (reply_error (if fs.read_only then erofs else einval), fs)
symlink_in fs parent (some name) (some target) =
    if fs.read_only then (reply_error erofs, fs) else elim (lookup parent fs.inode_paths) [
      | none ↦ (reply_error enoent, fs)
      | some parent_path ↦ answer_insert (add_symlink fs (child_path parent_path name) target)
    ]

-- The match on the kind of node in the mode, `mode & S_IFMT`, with the two halves of the number of
-- a device.
unfoldable pub make_node : EngramFs → List ℕ → ℕ → ℕ → Option (Added × EngramFs)
unfolding add_device
make_node fs path mode rdev =
    let file_type = bit_and mode 61440 in
    let major = (rdev / 256) % 256 in
    let minor = rdev % 256 in
    if file_type == 8192
    then some (add_device fs path true major minor [])
    else if file_type == 24576
    then some (add_device fs path false major minor [])
    else if file_type == 4096
    then some (add_fifo fs path)
    else if file_type == 49152
    then some (add_socket fs path)
    else none

unfoldable pub mknod : EngramFs → ℕ → Option (List ℕ) → ℕ → ℕ → Reply × EngramFs
unfolding lookup child_path make_node answer_insert
mknod fs parent none mode rdev = (reply_error (if fs.read_only then erofs else einval), fs)
mknod fs parent (some name) mode rdev =
    if fs.read_only then (reply_error erofs, fs) else elim (lookup parent fs.inode_paths) [
      | none ↦ (reply_error enoent, fs)
      | some parent_path ↦ elim (make_node fs (child_path parent_path name) mode rdev) [
        | none ↦ (reply_error einval, fs)
        | some r ↦ answer_insert r
      ]
    ]
