-- ===== src/Manifest/Runs.antt =====
-- Runs of the manifest, and of reads of ranges.
use embeddenator_fs.Prelude.{
  ℕ, ◌≡◌, refl, some, List, [], ◌∷◌, false, true, arith, if◌then◌else◌, ◌==◌, take, drop, length,
}
use embeddenator_fs.Prelude.Run.{Run}
use embeddenator_fs.Manifest.{Manifest, new_manifest}
use embeddenator_fs.Manifest.Entry.{VersionedFileEntry, new_entry}
use embeddenator_fs.Manifest.Entry.Offsets.{offsets_from, chunks_for_range}
use embeddenator_fs.Manifest.Entry.Offsets.Ranges.{
  joined, sizes_of, read_ranges, chunks_for_range-read_ranges,
}
use embeddenator_fs.Manifest.Spec.{
  empty_catalog, ManifestOp, add, update, remove, spec_ops, run_ops, Represents,
}
use embeddenator_fs.Manifest.Consistent.{IsConsistent, new_manifest-IsConsistent}
use embeddenator_fs.Manifest.Refines.{run_ops-spec_ops, new_manifest-Represents}

-- Two files are added, one is changed, changed at a version that it no longer has, and removed.
abbrev some_ops : List ManifestOp
some_ops =
    add (new_entry (97 ∷ []) true 5 (1 ∷ []))
    ∷ add (new_entry (98 ∷ []) false 9 (2 ∷ 3 ∷ []))
    ∷ update (97 ∷ []) (new_entry (97 ∷ []) true 8 (4 ∷ [])) 0
    ∷ update (97 ∷ []) (new_entry (97 ∷ []) true 1 (5 ∷ [])) 0
    ∷ remove (97 ∷ []) 1
    ∷ []

run_ops-spec_ops_example :
    (m' : Manifest) × (run_ops some_ops new_manifest
      ≡ Run.ok ((spec_ops some_ops empty_catalog).0, m'))
    × IsConsistent m'
    × Represents m' (spec_ops some_ops empty_catalog).1
run_ops-spec_ops_example =
    run_ops-spec_ops some_ops new_manifest empty_catalog (tt, (tt, (refl, (refl, (tt, tt)))))
      new_manifest-IsConsistent new_manifest-Represents

-- What three chunks hold.
abbrev chunk_bytes : ℕ → List ℕ
chunk_bytes c = if c == 7 then 10 ∷ 11 ∷ 12 ∷ [] else if c == 8 then 20 ∷ 21 ∷ [] else 30 ∷ []

abbrev indexed_entry : VersionedFileEntry
indexed_entry = record (new_entry (97 ∷ []) false 6 (7 ∷ 8 ∷ 9 ∷ [])) {
  chunk_offsets = some (offsets_from 0 (7 ∷ 8 ∷ 9 ∷ []) (sizes_of chunk_bytes (7 ∷ 8 ∷ 9 ∷ [])));
}

six_bytes : 6 ≡ length (joined chunk_bytes (7 ∷ 8 ∷ 9 ∷ []))
unfolding joined
six_bytes = refl

chunks_for_range-read_ranges_example :
    read_ranges chunk_bytes (chunks_for_range indexed_entry 2 3)
    ≡ take 3 (drop 2 (joined chunk_bytes (7 ∷ 8 ∷ 9 ∷ [])))
chunks_for_range-read_ranges_example =
    chunks_for_range-read_ranges chunk_bytes indexed_entry 2 3 refl six_bytes (omega arith)
      (omega arith)
