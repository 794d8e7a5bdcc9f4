-- ===== src/Manifest.antt =====
-- `VersionedManifest` of src/fs/versioned/manifest.rs: the entries in a vector, an index from paths to
-- their places, and counters. A method holds the locks from its first line to its last, so that it is
-- one step on the state; an index behind the end of the vector panics.
pub mod Entry
pub mod Spec
pub mod Consistent
pub mod Refines
mod Runs
use embeddenator_fs.Prelude.{
  ℕ, ◌+◌, ◌-◌, ◌%◌, ◌^◌, Option, none, some, List, [], ◌∷◌, ◌++◌, Bool, true, false, not, ltb, leb,
  ◌==◌, if◌then◌else◌, length, get_elem?, set,
}
use embeddenator_fs.Prelude.Assoc.{lookup, insert as put, bytes_key}
use embeddenator_fs.Prelude.Run.{Run, panic}
use embeddenator_fs.Types.{VersionedResult, ok, err, VersionMismatch, wrap64}
use embeddenator_fs.Manifest.Entry.{VersionedFileEntry}

pub record Manifest : Type 0 where
  pub files : List VersionedFileEntry
  pub file_index : List (List ℕ × ℕ)
  pub global_version : ℕ
  pub total_chunks : ℕ

abbrev pub new_manifest : Manifest
new_manifest = record { files = []; file_index = []; global_version = 0; total_chunks = 0 }

-- `index.get(path).and_then(|&idx| files.get(idx))`
unfoldable pub entry_at : Manifest → List ℕ → Option VersionedFileEntry
entry_at m path = elim (lookup path m.file_index) [ none ↦ none | some idx ↦ get_elem? m.files idx ]

unfoldable pub get_file : Manifest → List ℕ → Option (VersionedFileEntry × ℕ)
get_file m path = elim (entry_at m path) [ none ↦ none | some e ↦ some (e, m.global_version) ]

unfoldable pub contains_path : Manifest → List ℕ → Bool
contains_path m path = elim (lookup path m.file_index) [ none ↦ false | some idx ↦ true ]

abbrev pub bump : Manifest → Manifest
bump m = record m { global_version = wrap64 (m.global_version + 1) }

abbrev pub refused : ℕ → ℕ → VersionedResult ℕ
refused expected actual = err (record { expected = expected; actual = actual })

unfoldable pub add_file : Manifest → VersionedFileEntry → VersionedResult ℕ × Manifest
add_file m entry = elim (lookup entry.path m.file_index) [
  | some idx ↦ (refused 0 m.global_version, m)
  | none ↦ (
    ok (wrap64 (m.global_version + 1)),
    bump (record m {
      files = m.files ++ (entry ∷ []);
      file_index = put entry.path (length m.files) m.file_index;
      total_chunks = wrap64 (m.total_chunks + length entry.chunks);
    }),
  )
]

-- `fetch_add` and `fetch_sub` of the difference.
unfoldable pub recount : ℕ → ℕ → ℕ → ℕ
recount total old_chunks new_chunks =
    if leb old_chunks new_chunks
    then wrap64 (total + (new_chunks - old_chunks))
    else wrap64 (total + (2 ^ 64 - (old_chunks - new_chunks) % 2 ^ 64))

-- The lines that `update_file` and `remove_file` share: the place of the path, the entry there, and its
-- version.
unfoldable pub with_entry :
    Manifest → List ℕ → ℕ → (ℕ → VersionedFileEntry → Manifest) → Run (VersionedResult ℕ × Manifest)
with_entry m path expected change = elim (lookup path m.file_index) [
  | none ↦ Run.ok (refused expected 0, m)
  | some idx ↦ elim (get_elem? m.files idx) [
    | none ↦ panic
    | some current ↦ Run.ok (
        if current.version == expected
        then (ok (wrap64 (m.global_version + 1)), bump (change idx current))
        else (refused expected current.version, m))
  ]
]

unfoldable pub update_file :
    Manifest → List ℕ → VersionedFileEntry → ℕ → Run (VersionedResult ℕ × Manifest)
unfolding with_entry recount
update_file m path entry expected = with_entry m path expected (λ idx current. record m {
  files = set m.files idx (record entry { version = wrap64 (expected + 1) });
  total_chunks = recount m.total_chunks (length current.chunks) (length entry.chunks);
})

unfoldable pub remove_file : Manifest → List ℕ → ℕ → Run (VersionedResult ℕ × Manifest)
unfolding with_entry
remove_file m path expected = with_entry m path expected (λ idx current. record m {
  files = set m.files idx (record current { deleted = true; version = wrap64 (expected + 1) });
})

unfoldable pub live_files : List VersionedFileEntry → List VersionedFileEntry
live_files [] = []
live_files (f ∷ fs) = let rest = live_files fs in if f.deleted then rest else f ∷ rest

unfoldable pub list_paths : List VersionedFileEntry → List (List ℕ)
list_paths [] = []
list_paths (f ∷ fs) = f.path ∷ list_paths fs

unfoldable pub list_files : Manifest → List (List ℕ)
unfolding live_files list_paths
list_files m = list_paths (live_files m.files)

-- The loop that rebuilds the index, from a place on.
unfoldable pub index_files : List VersionedFileEntry → ℕ → List (List ℕ × ℕ) → List (List ℕ × ℕ)
index_files [] idx index = index
index_files (f ∷ fs) idx index = index_files fs (idx + 1) (put f.path idx index)

unfoldable pub count_chunks : List VersionedFileEntry → ℕ
count_chunks [] = 0
count_chunks (f ∷ fs) = length f.chunks + count_chunks fs

unfoldable pub compact : Manifest → ℕ → VersionedResult ℕ × Manifest
unfolding live_files index_files count_chunks
compact m expected_version =
    let new_files = live_files m.files in
    let removed = length m.files - length new_files in
    let rebuilt = record m {
      files = new_files;
      file_index = index_files new_files 0 [];
      total_chunks = wrap64 (count_chunks new_files);
    } in
    if m.global_version == expected_version
    then (ok removed, if ltb 0 removed then bump rebuilt else rebuilt)
    else (refused expected_version m.global_version, m)

pub record ManifestStats : Type 0 where
  pub total_files : ℕ
  pub active_files : ℕ
  pub deleted_files : ℕ
  pub total_chunks : ℕ
  pub total_size_bytes : ℕ
  pub version : ℕ

unfoldable pub deleted_count : List VersionedFileEntry → ℕ
deleted_count [] = 0
deleted_count (f ∷ fs) = (if f.deleted then 1 else 0) + deleted_count fs

unfoldable pub total_size : List VersionedFileEntry → ℕ
total_size [] = 0
total_size (f ∷ fs) = f.size + total_size fs

unfoldable pub manifest_stats : Manifest → ManifestStats
unfolding deleted_count total_size
manifest_stats m = record {
  total_files = length m.files;
  active_files = length m.files - deleted_count m.files;
  deleted_files = deleted_count m.files;
  total_chunks = m.total_chunks;
  total_size_bytes = wrap64 (total_size m.files);
  version = m.global_version;
}
