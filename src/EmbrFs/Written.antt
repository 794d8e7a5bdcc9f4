-- ===== src/EmbrFs/Written.antt =====
-- What a write leaves, and that a read gives it back.
use embeddenator_fs.Prelude.{
  ℕ, ◌+◌, ◌^◌, ◌<◌, ◌≡◌, refl, sym, subst, ap, ◌∙◌, Option, none, some, List, ◌++◌, All, Bool, true,
  false, ==_refl, arith, length,
}
use embeddenator_fs.Prelude.Run.{ok, ◌>>=◌}
use embeddenator_fs.Types.{wrap64}
use embeddenator_fs.ChunkStore.{ChunkStore, batch_insert_new, batch_insert}
use embeddenator_fs.VersionedCorrections.{
  VersionedCorrectionStore, batch_insert_corrections, batch_update, put_all_counted,
}
use embeddenator_fs.Manifest.{Manifest, entry_at, get_file}
use embeddenator_fs.Manifest.Entry.{VersionedFileEntry}
use embeddenator_fs.Manifest.Consistent.{IsConsistent}
use embeddenator_fs.Manifest.Refines.{HasNow, add_file_lem, update_file_lem}
use embeddenator_fs.EmbrFs.{Codec, EmbrFs, done, is_reversible, read_chunks, next_fs_version}
use embeddenator_fs.EmbrFs.Write.{
  Encoded, chunk_data, check_version, encode_chunks, store_chunks, store_corrections, recorded,
  record_entry, finish_commit, after_corrections, after_chunks, commit, is_none, with_format,
  write_stored, bundle_chunks_to_root,
}
use embeddenator_fs.EmbrFs.Encoded.{
  IsCodec, Triple, numbered, Mends, Mends-Agree, encode_chunks_lem,
}
use embeddenator_fs.EmbrFs.RoundTrip.{
  ChunksAt, CorrectionsAt, put_chunks_at, put_all_new_at, put_all_counted_at, chunks_on_bounded,
  read_chunks_lem,
}

module _ {ℓ} {V E : Type ℓ} (codec : Codec V E) where
  -- The chunks are stored: only the store is new, and it has them.
  store_chunks_lem :
      (fs : EmbrFs V E) (n : ℕ) (ts : List (Triple codec)) (is_new : Bool)
      → (s : ChunkStore V) × (store_chunks codec fs
            (numbered codec n ts)
            is_new
            fs.chunk_store.global_version
          ≡ (done tt, record fs { chunk_store = s }))
        × ChunksAt codec n ts s.chunks
  unfolding store_chunks batch_insert_new batch_insert
  store_chunks_lem fs n ts true = (_, refl, put_chunks_at codec ts n fs.chunk_store)
  store_chunks_lem fs n ts false = (
    (batch_insert_new fs.chunk_store (numbered codec n ts).chunk_updates).1,
    rw (==_refl fs.chunk_store.global_version) refl,
    put_chunks_at codec ts n fs.chunk_store,
  )

  store_corrections_lem :
      (fs : EmbrFs V E) (n : ℕ) (ts : List (Triple codec)) (is_new : Bool)
      → (s : VersionedCorrectionStore) × (store_corrections codec fs (numbered codec n ts) is_new
          ≡ (done tt, record fs { corrections = s }))
        × CorrectionsAt codec n ts s.corrections
  unfolding store_corrections batch_insert_corrections batch_update
  store_corrections_lem fs n ts true = (_, refl, put_all_new_at codec ts n fs.corrections)
  store_corrections_lem fs n ts false = (
    record (put_all_counted (numbered codec n ts).corrections_to_add fs.corrections) {
      version =
          wrap64
            ((put_all_counted (numbered codec n ts).corrections_to_add fs.corrections).version + 1);
    },
    rw (==_refl fs.corrections.version) refl,
    put_all_counted_at codec ts n fs.corrections,
  )

  -- The version that a write gives the file.
  abbrev pub next_file_version : Option (VersionedFileEntry × ℕ) → ℕ
  next_file_version none = 0
  next_file_version (some (old, v)) = wrap64 (old.version + 1)

  entry_at_get :
      (m : Manifest) (path : List ℕ) (e : VersionedFileEntry) (v : ℕ)
      → get_file m path ≡ some (e, v)
      → entry_at m path ≡ some e
  unfolding get_file
  entry_at_get m path e v h = ground arith

  entry_at_get_none :
      (m : Manifest) (path : List ℕ) → get_file m path ≡ none → entry_at m path ≡ none
  unfolding get_file
  entry_at_get_none m path h = ground arith

  pub get_file_at :
      (m : Manifest) (path : List ℕ) (e : VersionedFileEntry)
      → entry_at m path ≡ some e
      → get_file m path ≡ some (e, m.global_version)
  unfolding get_file
  get_file_at m path e h = rw (get_file, h) refl

  record_entry_lem :
      (fs : EmbrFs V E) (path : List ℕ) (existing : Option (VersionedFileEntry × ℕ))
      (e : VersionedFileEntry)
      → IsConsistent fs.manifest
      → e.path ≡ path
      → e.version ≡ 0
      → get_file fs.manifest path ≡ existing
      → (m : Manifest) × (record_entry codec fs path existing e
          ≡ ok (done (next_file_version existing), record fs { manifest = m }))
        × HasNow fs.manifest path (record e { version = next_file_version existing }) m
  unfolding record_entry recorded
  record_entry_lem fs path none e valid keeps fresh shown =
      let free : entry_at fs.manifest e.path ≡ none =
        ap (entry_at fs.manifest) keeps ∙ entry_at_get_none fs.manifest path shown in
      let (m, added, now) = add_file_lem fs.manifest e valid free in
      let as_new : e ≡ record e { version = 0 } = ap (λ v. record e { version = v }) fresh in
      (
        m,
        ap (λ r. ok (recorded codec fs 0 r)) added,
        subst (λ p. HasNow fs.manifest p (record e { version = 0 }) m) keeps
            (subst (λ x. HasNow fs.manifest e.path x m) as_new now),
      )
  record_entry_lem fs path (some (old, v)) e valid keeps fresh shown =
      let (m, updated, now) =
        update_file_lem fs.manifest path old e valid (entry_at_get fs.manifest path old v shown)
          keeps in
      (m, rw (updated) refl, now)

  commit_step :
      (fs fs1 fs2 fs3 : EmbrFs V E) (path : List ℕ) (existing : Option (VersionedFileEntry × ℕ))
      (is_new : Bool) (v : ℕ) (encoded : Encoded V) (e : VersionedFileEntry) (version : ℕ)
      → store_chunks codec fs encoded is_new v ≡ (done tt, fs1)
      → store_corrections codec fs1 encoded is_new ≡ (done tt, fs2)
      → record_entry codec fs2 path existing e ≡ ok (done version, fs3)
      → commit codec fs path existing is_new v encoded e
        ≡ ok (done version, next_fs_version (bundle_chunks_to_root codec fs3 encoded.chunk_ids))
  unfolding commit after_chunks after_corrections finish_commit
  commit_step fs fs1 fs2 fs3 path existing is_new v encoded e version stored added made =
      ap (after_chunks codec path existing is_new encoded e) stored
      ∙ ap (after_corrections codec path existing encoded.chunk_ids e) added
      ∙ ap (λ r. r >>= λ x. ok (finish_commit codec encoded.chunk_ids x)) made

  -- A commit of encoded chunks leaves them in the stores, and the entry in the manifest.
  commit_lem :
      (fs : EmbrFs V E) (path : List ℕ) (existing : Option (VersionedFileEntry × ℕ)) (is_new : Bool)
      (n : ℕ) (ts : List (Triple codec)) (e : VersionedFileEntry)
      → IsConsistent fs.manifest
      → e.path ≡ path
      → e.version ≡ 0
      → get_file fs.manifest path ≡ existing
      → (fs' : EmbrFs V E) × (commit codec fs path existing is_new fs.chunk_store.global_version
            (numbered codec n ts)
            e
          ≡ ok (done (next_file_version existing), fs'))
        × HasNow fs.manifest path (record e { version = next_file_version existing }) fs'.manifest
        × ChunksAt codec n ts fs'.chunk_store.chunks
        × CorrectionsAt codec n ts fs'.corrections.corrections
        × (fs'.reversible_encoder ≡ fs.reversible_encoder)
  unfolding bundle_chunks_to_root
  commit_lem fs path existing is_new n ts e valid keeps fresh shown =
      let (s, stored, chunks) = store_chunks_lem fs n ts is_new in
      let fs1 : EmbrFs V E = record fs { chunk_store = s } in
      let (k, added, corrections) = store_corrections_lem fs1 n ts is_new in
      let fs2 : EmbrFs V E = record fs1 { corrections = k } in
      let (m, made, now) = record_entry_lem fs2 path existing e valid keeps fresh shown in
      let fs3 : EmbrFs V E = record fs2 { manifest = m } in
      (
        next_fs_version (bundle_chunks_to_root codec fs3 (numbered codec n ts).chunk_ids),
        commit_step fs fs1 fs2 fs3 path existing is_new fs.chunk_store.global_version
            (numbered codec n ts) e (next_file_version existing) stored added made,
        now,
        chunks,
        corrections,
        refl,
      )

  -- The entry that a write records: it stands under the path, at version 0 before the write, and has
  -- the chunks and the format of the mode.
  pub record Records (fs : EmbrFs V E) (path : List ℕ) (entry_of : List ℕ → VersionedFileEntry)
      : Type 0 where
    pub under_path : (ids : List ℕ) → (with_format codec fs (entry_of ids)).path ≡ path
    pub unversioned : (ids : List ℕ) → (with_format codec fs (entry_of ids)).version ≡ 0
    pub has_chunks : (ids : List ℕ) → (with_format codec fs (entry_of ids)).chunks ≡ ids
    pub has_format :
        (ids : List ℕ)
        → is_reversible (with_format codec fs (entry_of ids)).encoding_format ≡ fs.holographic_mode

  -- The write ends with the version, and a read of the file finds the entry and the bytes.
  pub record Stored (fs : EmbrFs V E) (path stored : List ℕ) (expected : Option ℕ)
      (entry_of : List ℕ → VersionedFileEntry) : Type ℓ where
    pub ids : List ℕ
    pub more : List ℕ
    pub after : EmbrFs V E
    pub ends :
        write_stored codec fs path stored expected entry_of
        ≡ ok (done (next_file_version (get_file fs.manifest path)), after)
    pub has_now :
        HasNow fs.manifest path
          (record (with_format codec fs (entry_of ids)) {
            version = next_file_version (get_file fs.manifest path);
          })
          after.manifest
    pub reads :
        read_chunks codec after (with_format codec fs (entry_of ids)).encoding_format path ids
        ≡ done (stored ++ more)

  write_step :
      (fs fs1 : EmbrFs V E) (path stored : List ℕ) (expected : Option ℕ)
      (entry_of : List ℕ → VersionedFileEntry) (encoded : Encoded V)
      → check_version path (get_file fs.manifest path) expected ≡ none
      → encode_chunks codec fs path (chunk_data stored) ≡ ok (encoded, fs1)
      → write_stored codec fs path stored expected entry_of
        ≡ commit codec fs1 path
            (get_file fs.manifest path)
            (is_none codec expected)
            fs.chunk_store.global_version
            encoded
            (with_format codec fs (entry_of encoded.chunk_ids))
  unfolding write_stored
  write_step fs fs1 path stored expected entry_of encoded checked made =
      rw (write_stored, checked, made) refl

  pub write_stored_lem :
      (fs : EmbrFs V E) (path stored : List ℕ) (expected : Option ℕ)
      (entry_of : List ℕ → VersionedFileEntry)
      → IsCodec codec
      → IsConsistent fs.manifest
      → Records fs path entry_of
      → check_version path (get_file fs.manifest path) expected ≡ none
      → fs.next_chunk_id + length (chunk_data stored) < 2 ^ 64
      → Stored fs path stored expected entry_of
  write_stored_lem fs path stored expected entry_of lawful valid records checked small =
      let (ts, k, e, pieces, encoded, mends, agree) =
        encode_chunks_lem codec lawful (chunk_data stored) fs path
          (chunks_on_bounded (length stored) stored) small in
      let fs1 : EmbrFs V E = record fs { next_chunk_id = k; reversible_encoder = e } in
      let ids = (numbered codec fs.next_chunk_id ts).chunk_ids in
      let (fs', ends, now, chunks, corrections, same_encoder) =
        commit_lem fs1 path (get_file fs.manifest path) (is_none codec expected) fs.next_chunk_id ts
          (with_format codec fs (entry_of ids)) valid (records.under_path ids)
          (records.unversioned ids) refl in
      let format = (with_format codec fs (entry_of ids)).encoding_format in
      let (more, reads) =
        read_chunks_lem codec (length stored) stored ts fs.next_chunk_id fs' format path
          (omega arith) pieces chunks corrections
          (subst (λ mode. All (Mends codec mode fs'.reversible_encoder path) ts)
            (sym (records.has_format ids))
            (subst (λ enc. All (Mends codec fs.holographic_mode enc path) ts) (sym same_encoder)
              (Mends-Agree codec fs.holographic_mode fs.reversible_encoder e path ts
                (λ v p n. sym (agree v p n)) mends))) in
      record {
        ids = ids;
        more = more;
        after = fs';
        ends =
            write_step fs fs1 path stored expected entry_of (numbered codec fs.next_chunk_id ts)
              checked encoded
            ∙ ends;
        has_now = now;
        reads = reads;
      }
