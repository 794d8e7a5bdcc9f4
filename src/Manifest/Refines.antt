-- ===== src/Manifest/Refines.antt =====
-- The manifest does what the catalog promises, and never panics.
use embeddenator_fs.Prelude.{
  ℕ, ◌+◌, ◌≡◌, refl, sym, ap, ◌∙◌, none, some, List, [], ◌∷◌, ◌++◌, true, ◌==◌, ==_refl,
  if◌then◌else◌, length, set, All, Bool-cases, Option-cases, inl, inr,
}
use embeddenator_fs.Prelude.Bytes.{bytes_eq}
use embeddenator_fs.Prelude.Assoc.{lookup, insert as put, bytes_key}
use embeddenator_fs.Prelude.Run.{Run, ok_injective}
use embeddenator_fs.Types.{ok, wrap64}
use embeddenator_fs.Manifest.Entry.{VersionedFileEntry}
use embeddenator_fs.Manifest.{
  Manifest, new_manifest, entry_at, add_file, update_file, remove_file, with_entry, refused,
  recount,
}
use embeddenator_fs.Manifest.Spec.{
  Catalog, empty_catalog, ManifestOp, add, update, remove, changed, spec_change, spec_op, spec_ops,
  run_op, run_ops, KeepsPath, Represents,
}
use embeddenator_fs.Manifest.Consistent.{
  IsConsistent, extended-IsConsistent, entry_at-extended, replaced-IsConsistent, entry_at-replaced,
  entry_at-found, entry_at_absent, recount_same,
}

-- A run that ends with the result and with a consistent manifest that represents the catalog.
record Agrees {ℓ} {A : Type ℓ} (r : Run (A × Manifest)) (s : A × Catalog) : Type ℓ where
  manifest : Manifest
  ends : r ≡ Run.ok (s.0, manifest)
  is_consistent : IsConsistent manifest
  represents : Represents manifest s.1

module _ (m : Manifest) (c : Catalog) (valid : IsConsistent m) (same : Represents m c) where
  add_file-Agrees : (e : VersionedFileEntry) → Agrees (Run.ok (add_file m e)) (spec_op (add e) c)
  unfolding add_file spec_op
  add_file-Agrees e = elim (Option-cases (lookup e.path m.file_index)) [
    | inl free ↦
        (let gone : c.entries e.path ≡ none =
            sym (same.entries e.path) ∙ entry_at_absent m e.path free in
          let next = wrap64 (m.global_version + 1) in
          let longer : Manifest = record {
            files = m.files ++ (e ∷ []);
            file_index = put e.path (length m.files) m.file_index;
            global_version = next;
            total_chunks = wrap64 (m.total_chunks + length e.chunks);
          } in
          rw (spec_op, add_file, gone, free)
            (record {
              manifest = longer;
              ends = ap (λ v. Run.ok (ok (wrap64 (v + 1)), longer)) same.version;
              is_consistent = extended-IsConsistent m valid e free next;
              represents = record {
                entries = λ p.
                    entry_at-extended m valid e free next p
                    ∙ ap (λ t. if bytes_eq e.path p then some e else t) (same.entries p);
                version = ap (λ v. wrap64 (v + 1)) same.version;
              };
            }))
    | inr (i, taken) ↦
        (let (f, there, path) = valid.found e.path i taken in
          let old : c.entries e.path ≡ some f =
            sym (same.entries e.path) ∙ entry_at-found m e.path i taken ∙ there in
          rw (spec_op, add_file, old, taken)
            (record {
              manifest = m;
              ends = ap (λ v. Run.ok (refused 0 v, m)) same.version;
              is_consistent = valid;
              represents = same;
            }))
  ]

  -- A change of the entry under a path, at its version.
  module _ (path : List ℕ) (expected : ℕ) (f : VersionedFileEntry → VersionedFileEntry)
      (total : VersionedFileEntry → ℕ)
      (keeps : (old : VersionedFileEntry) → old.path ≡ path → (f old).path ≡ path)
      (recounted : (old : VersionedFileEntry)
        → total old ≡ recount m.total_chunks (length old.chunks) (length (f old).chunks)) where
    abbrev changed_at : ℕ → VersionedFileEntry → Manifest
    changed_at idx old = record m { files = set m.files idx (f old); total_chunks = total old }

    with_entry-Agrees :
        Agrees (with_entry m path expected changed_at) (spec_change c path expected f)
    unfolding with_entry spec_change
    with_entry-Agrees = elim (Option-cases (lookup path m.file_index)) [
      | inl free ↦
          (let gone : c.entries path ≡ none =
              sym (same.entries path) ∙ entry_at_absent m path free in
            rw (spec_change, with_entry, gone, free)
              (record { manifest = m; ends = refl; is_consistent = valid; represents = same }))
      | inr (idx, at) ↦
          (let (old, here, old_path) = valid.found path idx at in
            let there : c.entries path ≡ some old =
              sym (same.entries path) ∙ entry_at-found m path idx at ∙ here in
            elim (Bool-cases (old.version == expected)) [
              | inl now ↦
                  (let next = wrap64 (m.global_version + 1) in
                    let after : Manifest = record (changed_at idx old) { global_version = next } in
                    rw (spec_change, with_entry, there, at, here, now)
                      (record {
                        manifest = after;
                        ends = ap (λ v. Run.ok (ok (wrap64 (v + 1)), after)) same.version;
                        is_consistent =
                            replaced-IsConsistent m valid path idx old (f old) at here
                              (keeps old old_path) next (total old) (recounted old);
                        represents = record {
                          entries = λ p.
                              entry_at-replaced m valid path idx old (f old) at here
                                (keeps old old_path) next (total old) (recounted old) p
                              ∙ ap (λ t. if bytes_eq path p then some (f old) else t)
                                  (same.entries p);
                          version = ap (λ v. wrap64 (v + 1)) same.version;
                        };
                      }))
              | inr stale ↦
                  rw (spec_change, with_entry, there, at, here, stale)
                    (record { manifest = m; ends = refl; is_consistent = valid; represents = same })
            ])
    ]

  run_op-Agrees : (op : ManifestOp) → KeepsPath op → Agrees (run_op op m) (spec_op op c)
  unfolding run_op spec_op update_file remove_file
  run_op-Agrees (add e) k = add_file-Agrees e
  run_op-Agrees (update path e expected) k =
      with_entry-Agrees path expected (λ old. record e { version = wrap64 (expected + 1) })
        (λ old. recount m.total_chunks (length old.chunks) (length e.chunks)) (λ old q. k)
        (λ old. refl)
  run_op-Agrees (remove path expected) k =
      with_entry-Agrees path expected
        (λ old. record old { deleted = true; version = wrap64 (expected + 1) })
        (λ old. m.total_chunks) (λ old q. q)
        (λ old.
          valid.counted
          ∙ sym (
              ap (λ t. recount t (length old.chunks) (length old.chunks)) valid.counted
              ∙ recount_same _ (length old.chunks)))

-- After any sequence of additions, updates and removals on a manifest that is consistent and
-- represents a catalog, where an update keeps the path of its entry: no call panics, each gives the
-- result of the catalog's, and the manifest is again consistent and represents the catalog that is
-- left.
pub run_ops-spec_ops :
    (ops : List ManifestOp) (m : Manifest) (c : Catalog)
    → All KeepsPath ops
    → IsConsistent m
    → Represents m c
    → (m' : Manifest) × (run_ops ops m ≡ Run.ok ((spec_ops ops c).0, m'))
      × IsConsistent m'
      × Represents m' (spec_ops ops c).1
unfolding run_ops spec_ops
run_ops-spec_ops [] m c k valid same = (m, refl, valid, same)
run_ops-spec_ops (op ∷ ops) m c k valid same =
    let one = run_op-Agrees m c valid same op k.0 in
    let (m', all, valid', same') =
      run_ops-spec_ops ops one.manifest (spec_op op c).1 k.1 one.is_consistent one.represents in
    (m', rw (one.ends, all) refl, valid', same')

pub new_manifest-Represents : Represents new_manifest empty_catalog
unfolding entry_at lookup
new_manifest-Represents = record { entries = λ p. refl; version = refl }

-- The catalog that a manifest shows.
abbrev catalog_of : Manifest → Catalog
catalog_of m = record { entries = entry_at m; version = m.global_version }

-- A manifest that is consistent and has the entry under the path, and else what it had.
abbrev pub HasNow : Manifest → List ℕ → VersionedFileEntry → Manifest → Type 0
HasNow m path e m' =
    IsConsistent m'
    × ((p : List ℕ) → entry_at m' p ≡ (if bytes_eq path p then some e else entry_at m p))

pub add_file_lem :
    (m : Manifest) (e : VersionedFileEntry)
    → IsConsistent m
    → entry_at m e.path ≡ none
    → (m' : Manifest) × (add_file m e ≡ (ok (wrap64 (m.global_version + 1)), m'))
      × HasNow m e.path e m'
unfolding spec_op
add_file_lem m e valid free =
    let c = catalog_of m in
    let a = add_file-Agrees m c valid (record { entries = λ p. refl; version = refl }) e in
    let s : spec_op (add e) c ≡ (ok (wrap64 (m.global_version + 1)), changed e.path e c) =
      rw (spec_op, free) refl in
    (
      a.manifest,
      ok_injective (a.ends ∙ ap (λ r. Run.ok (r.0, a.manifest)) s),
      (a.is_consistent, λ p. a.represents.entries p ∙ ap (λ r. r.1.entries p) s),
    )

pub update_file_lem :
    (m : Manifest) (path : List ℕ) (old e : VersionedFileEntry)
    → IsConsistent m
    → entry_at m path ≡ some old
    → e.path ≡ path
    → (m' : Manifest) × (update_file m path e old.version
        ≡ Run.ok (ok (wrap64 (m.global_version + 1)), m'))
      × HasNow m path (record e { version = wrap64 (old.version + 1) }) m'
unfolding spec_op spec_change run_op
update_file_lem m path old e valid there keeps =
    let c = catalog_of m in
    let new : VersionedFileEntry = record e { version = wrap64 (old.version + 1) } in
    let a =
      run_op-Agrees m c valid (record { entries = λ p. refl; version = refl })
        (update path e old.version) keeps in
    let s : spec_op (update path e old.version) c
        ≡ (ok (wrap64 (m.global_version + 1)), changed path new c) =
      rw (spec_op, spec_change, there, ==_refl old.version) refl in
    (
      a.manifest,
      a.ends ∙ ap (λ r. Run.ok (r.0, a.manifest)) s,
      (a.is_consistent, λ p. a.represents.entries p ∙ ap (λ r. r.1.entries p) s),
    )
