-- ===== src/Manifest/Spec.antt =====
-- What a manifest promises: a function from paths to entries, with a version, and each operation as
-- a change of that function. A removed file stays under its path, marked as deleted.
use embeddenator_fs.Prelude.{
  ℕ, ◌+◌, Option, none, some, List, [], ◌∷◌, true, ◌==◌, if◌then◌else◌, ◌≡◌,
}
use embeddenator_fs.Prelude.Bytes.{bytes_eq}
use embeddenator_fs.Prelude.Run.{Run, ◌>>=◌}
use embeddenator_fs.Types.{VersionedResult, ok, wrap64}
use embeddenator_fs.Manifest.Entry.{VersionedFileEntry}
use embeddenator_fs.Manifest.{Manifest, entry_at, refused, add_file, update_file, remove_file}

pub record Catalog : Type 0 where
  pub entries : List ℕ → Option VersionedFileEntry
  pub version : ℕ

abbrev pub empty_catalog : Catalog
empty_catalog = record { entries = λ p. none; version = 0 }

-- The calls that change a manifest.
pub data ManifestOp : Type 0 where
  add : VersionedFileEntry → ManifestOp
  update : List ℕ → VersionedFileEntry → ℕ → ManifestOp
  remove : List ℕ → ℕ → ManifestOp

-- The catalog with an entry under a path, at the next version.
abbrev pub changed : List ℕ → VersionedFileEntry → Catalog → Catalog
changed path e c = record {
  entries = λ p. if bytes_eq path p then some e else c.entries p;
  version = wrap64 (c.version + 1);
}

-- A change of the entry under a path, if its version is the expected one.
unfoldable pub spec_change :
    Catalog → List ℕ → ℕ → (VersionedFileEntry → VersionedFileEntry) → VersionedResult ℕ × Catalog
spec_change c path expected f = elim (c.entries path) [
  | none ↦ (refused expected 0, c)
  | some e ↦
      if e.version == expected
      then (ok (wrap64 (c.version + 1)), changed path (f e) c)
      else (refused expected e.version, c)
]

unfoldable pub spec_op : ManifestOp → Catalog → VersionedResult ℕ × Catalog
unfolding spec_change
spec_op (add e) c = elim (c.entries e.path) [
  | none ↦ (ok (wrap64 (c.version + 1)), changed e.path e c)
  | some old ↦ (refused 0 c.version, c)
]
spec_op (update path e expected) c =
    spec_change c path expected (λ old. record e { version = wrap64 (expected + 1) })
spec_op (remove path expected) c =
    spec_change c path expected
      (λ old. record old { deleted = true; version = wrap64 (expected + 1) })

unfoldable pub run_op : ManifestOp → Manifest → Run (VersionedResult ℕ × Manifest)
unfolding add_file update_file remove_file
run_op (add e) m = Run.ok (add_file m e)
run_op (update path e expected) m = update_file m path e expected
run_op (remove path expected) m = remove_file m path expected

-- A sequence of calls, with their results.
unfoldable pub spec_ops : List ManifestOp → Catalog → List (VersionedResult ℕ) × Catalog
spec_ops [] c = ([], c)
spec_ops (op ∷ ops) c =
    let r = spec_op op c in let rest = spec_ops ops r.1 in (r.0 ∷ rest.0, rest.1)

unfoldable pub run_ops : List ManifestOp → Manifest → Run (List (VersionedResult ℕ) × Manifest)
run_ops [] m = Run.ok ([], m)
run_ops (op ∷ ops) m =
    run_op op m >>= λ r. run_ops ops r.1 >>= λ rest. Run.ok (r.0 ∷ rest.0, rest.1)

-- An update gives its entry the path under which it stands.
abbrev pub KeepsPath : ManifestOp → Type 0
KeepsPath (add e) = Unit
KeepsPath (update path e expected) = e.path ≡ path
KeepsPath (remove path expected) = Unit

pub record Represents (m : Manifest) (c : Catalog) : Type 0 where
  pub entries : (p : List ℕ) → entry_at m p ≡ c.entries p
  pub version : m.global_version ≡ c.version
