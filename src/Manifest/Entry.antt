-- ===== src/Manifest/Entry.antt =====
-- File entries of src/fs/versioned/manifest.rs. A path and a link target are lists of bytes. The times
-- of an entry are left out.
pub mod Offsets
use embeddenator_fs.Prelude.{
  ℕ, ◌+◌, ◌/◌, ◌%◌, Option, none, some, List, [], ◌∷◌, Bool, true, false, not, ◌==◌, if◌then◌else◌,
}
use embeddenator_fs.Types.{ChunkOffset, wrap64}

pub data FileType : Type 0 where
  regular directory symlink hardlink char_device block_device fifo socket : FileType

unfoldable pub has_content : FileType → Bool
has_content regular = true
has_content _ = false

unfoldable pub can_have_content : FileType → Bool
can_have_content regular = true
can_have_content char_device = true
can_have_content block_device = true
can_have_content _ = false

unfoldable pub is_metadata_only : FileType → Bool
is_metadata_only fifo = true
is_metadata_only socket = true
is_metadata_only _ = false

unfoldable pub is_link : FileType → Bool
is_link symlink = true
is_link hardlink = true
is_link _ = false

unfoldable pub is_device : FileType → Bool
is_device char_device = true
is_device block_device = true
is_device _ = false

pub record FilePermissions : Type 0 where
  pub uid : ℕ
  pub gid : ℕ
  pub mode : ℕ

-- 0644 and 0755, owned by root.
abbrev pub default_file : FilePermissions
default_file = record { uid = 0; gid = 0; mode = 420 }

abbrev pub default_dir : FilePermissions
default_dir = record { uid = 0; gid = 0; mode = 493 }

-- The bits 04000, 02000 and 01000 of the mode.
abbrev pub is_setuid : FilePermissions → Bool
is_setuid p = p.mode / 2048 % 2 == 1

abbrev pub is_setgid : FilePermissions → Bool
is_setgid p = p.mode / 1024 % 2 == 1

abbrev pub is_sticky : FilePermissions → Bool
is_sticky p = p.mode / 512 % 2 == 1

pub record VersionedFileEntry : Type 0 where
  pub path : List ℕ
  pub file_type : FileType
  pub permissions : FilePermissions
  pub symlink_target : Option (List ℕ)
  pub hardlink_target : Option (List ℕ)
  pub device_id : Option (ℕ × ℕ)
  pub is_text : Bool
  pub size : ℕ
  pub chunks : List ℕ
  pub chunk_offsets : Option (List ChunkOffset)
  pub deleted : Bool
  pub compression_codec : Option ℕ
  pub uncompressed_size : Option ℕ
  pub encoding_format : Option ℕ
  pub version : ℕ

abbrev pub new_with_metadata :
    List ℕ → FileType → FilePermissions → Bool → ℕ → List ℕ → VersionedFileEntry
new_with_metadata path file_type permissions is_text size chunks = record {
  path = path;
  file_type = file_type;
  permissions = permissions;
  symlink_target = none;
  hardlink_target = none;
  device_id = none;
  is_text = is_text;
  size = size;
  chunks = chunks;
  chunk_offsets = none;
  deleted = false;
  compression_codec = none;
  uncompressed_size = none;
  encoding_format = none;
  version = 0;
}

-- `VersionedFileEntry::new`
abbrev pub new_entry : List ℕ → Bool → ℕ → List ℕ → VersionedFileEntry
new_entry path is_text size chunks = new_with_metadata path regular default_file is_text size chunks

abbrev pub new_special : List ℕ → FileType → FilePermissions → VersionedFileEntry
new_special path file_type permissions = new_with_metadata path file_type permissions false 0 []

abbrev pub new_symlink : List ℕ → List ℕ → FilePermissions → VersionedFileEntry
new_symlink path target permissions = record (new_special path symlink permissions) {
  symlink_target = some target;
}

abbrev pub new_hardlink : List ℕ → List ℕ → FilePermissions → VersionedFileEntry
new_hardlink path target permissions = record (new_special path hardlink permissions) {
  hardlink_target = some target;
}

abbrev pub device_type : Bool → FileType
device_type is_char = if is_char then char_device else block_device

abbrev pub new_device_with_data :
    List ℕ → Bool → ℕ → ℕ → FilePermissions → ℕ → List ℕ → VersionedFileEntry
new_device_with_data path is_char major minor permissions size chunks =
    record (new_with_metadata path (device_type is_char) permissions false size chunks) {
      device_id = some (major, minor);
    }

abbrev pub new_device : List ℕ → Bool → ℕ → ℕ → FilePermissions → VersionedFileEntry
new_device path is_char major minor permissions =
    new_device_with_data path is_char major minor permissions 0 []

abbrev pub new_device_compressed :
    List ℕ → Bool → ℕ → ℕ → FilePermissions → ℕ → ℕ → ℕ → List ℕ → VersionedFileEntry
new_device_compressed path is_char major minor permissions compressed_size uncompressed_size codec
      chunks =
    record (new_device_with_data path is_char major minor permissions compressed_size chunks) {
      compression_codec = some codec;
      uncompressed_size = some uncompressed_size;
    }

abbrev pub new_compressed_with_metadata :
    List ℕ → FilePermissions → Bool → ℕ → ℕ → ℕ → List ℕ → VersionedFileEntry
new_compressed_with_metadata path permissions is_text compressed_size uncompressed_size codec
      chunks =
    record (new_with_metadata path regular permissions is_text compressed_size chunks) {
      compression_codec = some codec;
      uncompressed_size = some uncompressed_size;
    }

abbrev pub new_compressed : List ℕ → Bool → ℕ → ℕ → ℕ → List ℕ → VersionedFileEntry
new_compressed path is_text compressed_size uncompressed_size codec chunks =
    new_compressed_with_metadata path default_file is_text compressed_size uncompressed_size codec
      chunks

abbrev pub new_holographic : List ℕ → Bool → ℕ → List ℕ → ℕ → VersionedFileEntry
new_holographic path is_text size chunks format = record (new_entry path is_text size chunks) {
  encoding_format = some format;
}

-- `VersionedFileEntry::update`
abbrev pub update_entry : VersionedFileEntry → List ℕ → ℕ → VersionedFileEntry
update_entry e new_chunks new_size = record e {
  size = new_size;
  chunks = new_chunks;
  chunk_offsets = none;
  deleted = false;
  version = wrap64 (e.version + 1);
}

abbrev pub update_compressed : VersionedFileEntry → List ℕ → ℕ → ℕ → ℕ → VersionedFileEntry
update_compressed e new_chunks compressed_size uncompressed_size codec =
    record (update_entry e new_chunks compressed_size) {
      compression_codec = some codec;
      uncompressed_size = some uncompressed_size;
    }

abbrev pub mark_deleted : VersionedFileEntry → VersionedFileEntry
mark_deleted e = record e { deleted = true; version = wrap64 (e.version + 1) }
