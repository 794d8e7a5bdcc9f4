-- ===== src/EmbrFs/ReadBack.antt =====
-- A file that was written is read back, compressed or not.
use embeddenator_fs.Prelude.{
  ℕ, ◌+◌, ◌^◌, ◌<◌, ◌≡◌, refl, sym, subst, ap, ◌∙◌, Option, none, some, List, ◌++◌, Bool, false,
  if◌then◌else◌, ◌==◌, Bool-cases, ◌⊎◌, inl, inr, arith, length, take, take_append,
}
use embeddenator_fs.Prelude.Bytes.{bytes_eq_refl}
use embeddenator_fs.Prelude.Run.{Run, ok}
use embeddenator_fs.Manifest.{entry_at, get_file}
use embeddenator_fs.Manifest.Entry.{VersionedFileEntry, new_entry, new_compressed}
use embeddenator_fs.Manifest.Consistent.{IsConsistent}
use embeddenator_fs.EmbrFs.{
  Codec, EmbrFs, FsResult, done, is_reversible, read_chunks, finish_read, expand, read_file,
  encoding_format_reversible_vsa,
}
use embeddenator_fs.EmbrFs.Write.{
  chunk_data, check_version, with_format, write_stored, write_file, compressed, entry_with_codec,
  write_file_compressed, is_text_data,
}
use embeddenator_fs.EmbrFs.Encoded.{IsCodec}
use embeddenator_fs.EmbrFs.Written.{
  get_file_at, next_file_version, Records, Stored, write_stored_lem,
}

module _ {ℓ} {V E : Type ℓ} (codec : Codec V E) where
  expanded :
      (e : VersionedFileEntry) (stored more final : List ℕ)
      → e.size ≡ length stored
      → expand codec e.compression_codec stored ≡ done final
      → finish_read codec e (done (stored ++ more)) ≡ done (final, e.version)
  unfolding finish_read
  expanded e stored more final sized expands =
      let exact : take e.size (stored ++ more) ≡ stored =
        take_append e.size stored more (sym sized) in
      rw (finish_read, exact, expands) refl

  read_at :
      (fs : EmbrFs V E) (path : List ℕ) (e : VersionedFileEntry) (stored more final : List ℕ)
      → entry_at fs.manifest path ≡ some e
      → e.deleted ≡ false
      → e.size ≡ length stored
      → read_chunks codec fs e.encoding_format e.path e.chunks ≡ done (stored ++ more)
      → expand codec e.compression_codec stored ≡ done final
      → read_file codec fs path ≡ done (final, e.version)
  unfolding read_file
  read_at fs path e stored more final there live sized reads expands =
      rw (read_file, get_file_at codec fs.manifest path e there, live, reads)
        (expanded e stored more final sized expands)

  -- What is recorded for a write is read as what its bytes expand to.
  Stored-read_file :
      (fs : EmbrFs V E) (path stored final : List ℕ) (expected : Option ℕ)
      (entry_of : List ℕ → VersionedFileEntry) (w : Stored codec fs path stored expected entry_of)
      → Records codec fs path entry_of
      → (with_format codec fs (entry_of w.ids)).deleted ≡ false
      → (with_format codec fs (entry_of w.ids)).size ≡ length stored
      → expand codec (with_format codec fs (entry_of w.ids)).compression_codec stored ≡ done final
      → read_file codec w.after path
        ≡ done (final, next_file_version codec (get_file fs.manifest path))
  Stored-read_file fs path stored final expected entry_of w records live sized expands =
      let e = with_format codec fs (entry_of w.ids) in
      read_at w.after path
        (record e { version = next_file_version codec (get_file fs.manifest path) }) stored w.more
        final (w.has_now.1 path ∙ rw (bytes_eq_refl path) refl) live sized
        (ap (λ p. read_chunks codec w.after e.encoding_format p e.chunks) (records.under_path w.ids)
          ∙ ap (λ c. read_chunks codec w.after e.encoding_format path c) (records.has_chunks w.ids)
          ∙ w.reads)
        expands

  -- What holds of an entry in either format holds of the one that a write records.
  with_format_keeps :
      {A : Type 0} (f : VersionedFileEntry → A) (fs : EmbrFs V E) (e : VersionedFileEntry) (a : A)
      → ((format : Option ℕ) → f (record e { encoding_format = format }) ≡ a)
      → f (with_format codec fs e) ≡ a
  with_format_keeps f fs e a keeps = elim (Bool-cases fs.holographic_mode) [
    | inl holographic ↦ rw (holographic) (keeps (some encoding_format_reversible_vsa))
    | inr legacy ↦ rw (legacy) (keeps e.encoding_format)
  ]

  with_format_is :
      (fs : EmbrFs V E) (e : VersionedFileEntry)
      → e.encoding_format ≡ none
      → is_reversible (with_format codec fs e).encoding_format ≡ fs.holographic_mode
  unfolding is_reversible
  with_format_is fs e legacy_entry = elim (Bool-cases fs.holographic_mode) [
    | inl holographic ↦ rw (holographic) refl
    | inr legacy ↦ rw (legacy) (ap is_reversible legacy_entry)
  ]

  new_entry-Records :
      (fs : EmbrFs V E) (path : List ℕ) (is_text : Bool) (size : ℕ)
      → Records codec fs path (new_entry path is_text size)
  new_entry-Records fs path is_text size = record {
    under_path = λ ids.
        with_format_keeps (λ e. e.path) fs (new_entry path is_text size ids) path (λ f. refl);
    unversioned = λ ids.
        with_format_keeps (λ e. e.version) fs (new_entry path is_text size ids) 0 (λ f. refl);
    has_chunks = λ ids.
        with_format_keeps (λ e. e.chunks) fs (new_entry path is_text size ids) ids (λ f. refl);
    has_format = λ ids. with_format_is fs (new_entry path is_text size ids) refl;
  }

  new_compressed-Records :
      (fs : EmbrFs V E) (path : List ℕ) (is_text : Bool) (stored_size size c : ℕ)
      → Records codec fs path (new_compressed path is_text stored_size size c)
  new_compressed-Records fs path is_text stored_size size c = record {
    under_path = λ ids.
        with_format_keeps (λ e. e.path) fs (new_compressed path is_text stored_size size c ids) path
          (λ f. refl);
    unversioned = λ ids.
        with_format_keeps (λ e. e.version) fs (new_compressed path is_text stored_size size c ids) 0
          (λ f. refl);
    has_chunks = λ ids.
        with_format_keeps (λ e. e.chunks) fs (new_compressed path is_text stored_size size c ids)
          ids (λ f. refl);
    has_format = λ ids. with_format_is fs (new_compressed path is_text stored_size size c ids) refl;
  }

  -- A write that ends with the version of the file, after which a read returns the bytes and it.
  abbrev pub IsReadBack : EmbrFs V E → List ℕ → List ℕ → Run (FsResult ℕ × EmbrFs V E) → Type ℓ
  IsReadBack fs path bytes r =
      let version = next_file_version codec (get_file fs.manifest path) in
      (after : EmbrFs V E) × (r ≡ ok (done version, after))
      × (read_file codec after path ≡ done (bytes, version))
      × IsConsistent after.manifest

  -- A write whose version check passes does not panic: it succeeds with version 0 for a new file and
  -- the next version for one that exists, leaves the manifest consistent, and a read of the path then
  -- returns exactly the bytes, at that version. That is so in both modes, whatever was stored before
  -- under any chunk id, when the manifest was consistent, the ids of the new chunks stay below
  -- 2 ^ 64, and the encoders decode to the length that is asked for, in a way that a shorter decoding
  -- begins a longer one and that encoding does not disturb.
  pub read_file-write_file :
      (fs : EmbrFs V E) (path bytes : List ℕ) (expected : Option ℕ)
      → IsCodec codec
      → IsConsistent fs.manifest
      → check_version path (get_file fs.manifest path) expected ≡ none
      → fs.next_chunk_id + length (chunk_data bytes) < 2 ^ 64
      → IsReadBack fs path bytes (write_file codec fs path bytes expected)
  unfolding write_file expand
  read_file-write_file fs path bytes expected lawful valid checked small =
      let is_text = is_text_data bytes in
      let entry_of = new_entry path is_text (length bytes) in
      let records = new_entry-Records fs path is_text (length bytes) in
      let w =
        write_stored_lem codec fs path bytes expected entry_of lawful valid records checked small in
      (
        w.after,
        w.ends,
        Stored-read_file fs path bytes bytes expected entry_of w records
            (with_format_keeps (λ e. e.deleted) fs (entry_of w.ids) false (λ f. refl))
            (with_format_keeps (λ e. e.size) fs (entry_of w.ids) (length bytes) (λ f. refl))
            (ap (λ c. expand codec c bytes)
              (with_format_keeps (λ e. e.compression_codec) fs (entry_of w.ids) none (λ f. refl))),
        w.has_now.0,
      )

  compressed_as :
      (path bytes stored : List ℕ) (c : ℕ)
      → compressed codec path bytes ≡ some (stored, c)
      → ((c ≡ 0) × (stored ≡ bytes))
        ⊎ (((c == 0) ≡ false) × (codec.wrap_or_legacy c bytes ≡ some stored))
  unfolding compressed
  compressed_as path bytes stored c h = ground arith

  wrote_as :
      (fs : EmbrFs V E) (path bytes stored : List ℕ) (c : ℕ) (expected : Option ℕ)
      → compressed codec path bytes ≡ some (stored, c)
      → write_file_compressed codec fs path bytes expected
        ≡ write_stored codec fs path stored expected
            (entry_with_codec codec path (is_text_data bytes) (length stored) (length bytes) c)
  unfolding write_file_compressed
  wrote_as fs path bytes stored c expected h = rw (write_file_compressed, h) refl

  -- Bytes that no codec compressed.
  plain-IsReadBack :
      (fs : EmbrFs V E) (path bytes : List ℕ) (expected : Option ℕ)
      → IsReadBack fs path bytes (write_file codec fs path bytes expected)
      → IsReadBack fs path bytes (
          write_stored codec fs path bytes expected
            (entry_with_codec codec path (is_text_data bytes) (length bytes) (length bytes) 0))
  unfolding write_file
  plain-IsReadBack fs path bytes expected r = r

  -- A write with the codec of the path reads back as well: under the conditions of a plain write, on
  -- the chunks of what is stored, and where the codec's compression succeeds and expands to the same
  -- bytes, the call succeeds and a read of the path returns exactly the bytes that were given, at the
  -- version of the answer.
  pub read_file-write_file_compressed :
      (fs : EmbrFs V E) (path bytes stored : List ℕ) (c : ℕ) (expected : Option ℕ)
      → IsCodec codec
      → compressed codec path bytes ≡ some (stored, c)
      → ((c' : ℕ) (w : List ℕ)
          → codec.wrap_or_legacy c' bytes ≡ some w
          → codec.unwrap_auto w ≡ some bytes)
      → IsConsistent fs.manifest
      → check_version path (get_file fs.manifest path) expected ≡ none
      → fs.next_chunk_id + length (chunk_data stored) < 2 ^ 64
      → IsReadBack fs path bytes (write_file_compressed codec fs path bytes expected)
  unfolding expand
  read_file-write_file_compressed fs path bytes stored c expected lawful stores unwraps valid
        checked small =
      subst (IsReadBack fs path bytes) (sym (wrote_as fs path bytes stored c expected stores))
        (elim (compressed_as path bytes stored c stores) [
          | inl (no_codec, same) ↦
              subst
                (λ k. IsReadBack fs path bytes (
                  write_stored codec fs path stored expected (
                    entry_with_codec codec path (is_text_data bytes) (length stored) (length bytes)
                      k)))
                (sym no_codec)
                (subst
                  (λ s. IsReadBack fs path bytes (
                    write_stored codec fs path s expected (
                      entry_with_codec codec path (is_text_data bytes) (length s) (length bytes)
                        0)))
                  (sym same)
                  (plain-IsReadBack fs path bytes expected (
                    read_file-write_file fs path bytes expected lawful valid checked
                      (subst (λ s. fs.next_chunk_id + length (chunk_data s) < 2 ^ 64) same small))))
          | inr (some_codec, wrapped) ↦
              let is_text = is_text_data bytes in
              let entry_of = new_compressed path is_text (length stored) (length bytes) c in
              let records =
                new_compressed-Records fs path is_text (length stored) (length bytes) c in
              let w =
                write_stored_lem codec fs path stored expected entry_of lawful valid records checked
                  small in
              let unwrapped = unwraps c stored wrapped in
              let entries : entry_with_codec codec path is_text (length stored) (length bytes) c
                  ≡ entry_of =
                ap (λ b ids. if b then new_entry path is_text (length bytes) ids else entry_of ids)
                  some_codec in
              subst (λ f. IsReadBack fs path bytes (write_stored codec fs path stored expected f))
                (sym entries)
                (
                  w.after,
                  w.ends,
                  Stored-read_file fs path stored bytes expected entry_of w records
                      (with_format_keeps (λ e. e.deleted) fs (entry_of w.ids) false (λ f. refl))
                      (with_format_keeps (λ e. e.size) fs (entry_of w.ids) (length stored)
                        (λ f. refl))
                      (ap (λ k. expand codec k stored)
                          (with_format_keeps (λ e. e.compression_codec) fs (entry_of w.ids) (some c)
                            (λ f. refl))
                        ∙ rw (some_codec, unwrapped) refl),
                  w.has_now.0,
                )
        ])
