-- ===== src/Manifest/Consistent.antt =====
-- The index of a manifest leads to the entries of its paths, and every entry is indexed.
use embeddenator_fs.Prelude.{
  ℕ, zero, suc, ◌+◌, ◌%◌, ◌^◌, ◌≡◌, ◌≢◌, refl, sym, subst, ap, ◌∙◌, Option, none, some, List, [],
  ◌∷◌, ◌++◌, true, false, if◌then◌else◌, length, get_elem?, set, get_elem?-set_self,
  get_elem?-set_ne, get_elem?-append_left, get_elem?-append_last, get_elem?-append_other, arith,
  Bool-cases, Option-cases, inl, inr, ◌==◌, ==_iff,
}
use embeddenator_fs.Prelude.Bytes.{bytes_eq, bytes_eq_iff}
use embeddenator_fs.Prelude.Assoc.{
  lookup, insert as put, lookup-insert, lookup-insert_self, bytes_key,
}
use embeddenator_fs.Types.{wrap64}
use embeddenator_fs.Manifest.Entry.{VersionedFileEntry}
use embeddenator_fs.Manifest.{Manifest, new_manifest, entry_at, recount, count_chunks}

pub record IsConsistent (m : Manifest) : Type 0 where
  pub found :
      (p : List ℕ) (i : ℕ)
      → lookup p m.file_index ≡ some i
      → (e : VersionedFileEntry) × (get_elem? m.files i ≡ some e) × (e.path ≡ p)
  pub placed :
      (i : ℕ) (e : VersionedFileEntry)
      → get_elem? m.files i ≡ some e
      → lookup e.path m.file_index ≡ some i
  pub counted : m.total_chunks ≡ count_chunks m.files % 2 ^ 64

pub new_manifest-IsConsistent : IsConsistent new_manifest
unfolding lookup count_chunks
new_manifest-IsConsistent = record { found = λ p i h. cc; placed = λ i e h. cc; counted = refl }

count_chunks-append :
    (fs : List VersionedFileEntry) (e : VersionedFileEntry)
    → count_chunks (fs ++ (e ∷ [])) ≡ count_chunks fs + length e.chunks
unfolding count_chunks
count_chunks-append [] e = omega arith
count_chunks-append (f ∷ fs) e = omega (arith, count_chunks-append fs e)

count_chunks-set :
    (fs : List VersionedFileEntry) (i : ℕ) (old e : VersionedFileEntry)
    → get_elem? fs i ≡ some old
    → count_chunks (set fs i e) + length old.chunks ≡ count_chunks fs + length e.chunks
unfolding count_chunks
count_chunks-set [] i old e h = cc
count_chunks-set (f ∷ fs) zero old e h = ground (arith, h)
count_chunks-set (f ∷ fs) (suc i) old e h = omega (arith, count_chunks-set fs i old e h)

recount_lem :
    (c c' old_chunks new_chunks : ℕ)
    → c' + old_chunks ≡ c + new_chunks
    → recount (c % 2 ^ 64) old_chunks new_chunks ≡ c' % 2 ^ 64
unfolding recount
recount_lem c c' old_chunks new_chunks h = ground arith

pub recount_same : (c n : ℕ) → recount (c % 2 ^ 64) n n ≡ c % 2 ^ 64
recount_same c n = recount_lem c c n n refl

pub entry_at-found :
    (m : Manifest) (p : List ℕ) (i : ℕ)
    → lookup p m.file_index ≡ some i
    → entry_at m p ≡ get_elem? m.files i
unfolding entry_at
entry_at-found m p i h = rw (entry_at, h) refl

pub entry_at_absent :
    (m : Manifest) (p : List ℕ) → lookup p m.file_index ≡ none → entry_at m p ≡ none
unfolding entry_at
entry_at_absent m p h = rw (entry_at, h) refl

true_ne_false : true ≢ false
true_ne_false h = cc

ne_of_false : (i j : ℕ) → (i == j) ≡ false → i ≢ j
ne_of_false i j h q = true_ne_false (sym ((==_iff i j).1 q) ∙ h)

some_injective {ℓ} : {A : Type ℓ} {a b : A} → ◌≡◌ {A = Option A} (some a) (some b) → a ≡ b
some_injective h = cc

module _ (m : Manifest) (valid : IsConsistent m) where
  -- A manifest with one entry more, under a path that it does not have.
  module _ (e : VersionedFileEntry) (free : lookup e.path m.file_index ≡ none) (v : ℕ) where
    abbrev extended : Manifest
    extended = record {
      files = m.files ++ (e ∷ []);
      file_index = put e.path (length m.files) m.file_index;
      global_version = v;
      total_chunks = wrap64 (m.total_chunks + length e.chunks);
    }

    pub extended-IsConsistent : IsConsistent extended
    extended-IsConsistent = record {
      found = λ p i h. elim (Bool-cases (bytes_eq e.path p)) [
        | inl same ↦
            (let at_end : length m.files ≡ i =
                ground (arith, h, same, lookup-insert e.path p (length m.files) m.file_index) in
              (
                e,
                subst (λ t. get_elem? (m.files ++ (e ∷ [])) t ≡ some e) at_end
                    (get_elem?-append_last m.files e),
                (bytes_eq_iff e.path p).0 same,
              ))
        | inr other ↦
            (let old : lookup p m.file_index ≡ some i =
                ground (arith, h, other, lookup-insert e.path p (length m.files) m.file_index) in
              let (f, there, path) = valid.found p i old in
              (f, get_elem?-append_left m.files (e ∷ []) i f there, path))
      ];
      placed = λ i f h. elim (Bool-cases (i == length m.files)) [
        | inl last ↦
            (let at : i ≡ length m.files = (==_iff i (length m.files)).0 last in
              let is_e : e ≡ f = some_injective (
                sym (get_elem?-append_last m.files e)
                ∙ subst (λ t. get_elem? (m.files ++ (e ∷ [])) t ≡ some f) at h) in
              subst (λ t. lookup t.path (put e.path (length m.files) m.file_index) ≡ some i) is_e
                (lookup-insert_self e.path (length m.files) m.file_index ∙ ap some (sym at)))
        | inr before ↦
            (let there =
                get_elem?-append_other m.files e f i
                  (λ q. true_ne_false (sym ((==_iff i (length m.files)).1 q) ∙ before)) h in
              let old : lookup f.path m.file_index ≡ some i = valid.placed i f there in
              ground (
                arith,
                old,
                free,
                lookup-insert e.path f.path (length m.files) m.file_index,
                bytes_eq_iff e.path f.path,
              ))
      ];
      counted = omega (arith, valid.counted, count_chunks-append m.files e);
    }

    pub entry_at-extended :
        (p : List ℕ) → entry_at extended p ≡ (if bytes_eq e.path p then some e else entry_at m p)
    entry_at-extended p = elim (Bool-cases (bytes_eq e.path p)) [
      | inl same ↦ rw same (
          entry_at-found extended p (length m.files)
            (lookup-insert e.path p (length m.files) m.file_index ∙ (rw same refl))
          ∙ get_elem?-append_last m.files e)
      | inr other ↦
          (let kept : lookup p extended.file_index ≡ lookup p m.file_index =
              lookup-insert e.path p (length m.files) m.file_index ∙ (rw other refl) in
            rw other (elim (Option-cases (lookup p m.file_index)) [
              | inl gone ↦ entry_at_absent extended p (kept ∙ gone) ∙ sym (entry_at_absent m p gone)
              | inr (i, there) ↦
                  (let (f, at_i, path) = valid.found p i there in
                    entry_at-found extended p i (kept ∙ there)
                    ∙ get_elem?-append_left m.files (e ∷ []) i f at_i
                    ∙ sym (entry_at-found m p i there ∙ at_i))
            ]))
    ]

  -- A manifest with another entry at the place of a path, with that path.
  module _ (path : List ℕ) (idx : ℕ) (old e : VersionedFileEntry)
      (at : lookup path m.file_index ≡ some idx) (here : get_elem? m.files idx ≡ some old)
      (keeps : e.path ≡ path) (v total : ℕ)
      (recounted : total ≡ recount m.total_chunks (length old.chunks) (length e.chunks)) where
    abbrev replaced : Manifest
    replaced = record {
      files = set m.files idx e;
      file_index = m.file_index;
      global_version = v;
      total_chunks = total;
    }

    -- The place of a path leads back to it.
    path_at : (p : List ℕ) → lookup p m.file_index ≡ some idx → p ≡ path
    path_at p h =
        let (f, there, f_path) = valid.found p idx h in
        let (g, there', g_path) = valid.found path idx at in
        sym f_path
        ∙ ap (λ (t : VersionedFileEntry). t.path) (some_injective (sym there ∙ there'))
        ∙ g_path

    pub replaced-IsConsistent : IsConsistent replaced
    replaced-IsConsistent = record {
      found = λ p i h. elim (Bool-cases (idx == i)) [
        | inl same ↦
            (let on_i : idx ≡ i = (==_iff idx i).0 same in
              let p_is = path_at p (h ∙ ap some (sym on_i)) in
              (
                e,
                subst (λ t. get_elem? (set m.files idx e) t ≡ some e) on_i
                    (get_elem?-set_self m.files idx e old here),
                keeps ∙ sym p_is,
              ))
        | inr other ↦
            (let (f, there, f_path) = valid.found p i h in
              (f, get_elem?-set_ne m.files idx i e (ne_of_false idx i other) ∙ there, f_path))
      ];
      placed = λ i f h. elim (Bool-cases (idx == i)) [
        | inl same ↦
            (let on_i : idx ≡ i = (==_iff idx i).0 same in
              let is_e : e ≡ f = some_injective (
                sym (get_elem?-set_self m.files idx e old here)
                ∙ subst (λ t. get_elem? (set m.files idx e) t ≡ some f) (sym on_i) h) in
              subst (λ t. lookup t.path m.file_index ≡ some i) is_e
                (ap (λ t. lookup t m.file_index) keeps ∙ at ∙ ap some on_i))
        | inr other ↦
            valid.placed i f (sym (get_elem?-set_ne m.files idx i e (ne_of_false idx i other)) ∙ h)
      ];
      counted =
          recounted
          ∙ ap (λ t. recount t (length old.chunks) (length e.chunks)) valid.counted
          ∙ recount_lem (count_chunks m.files) (count_chunks (set m.files idx e))
              (length old.chunks) (length e.chunks) (count_chunks-set m.files idx old e here);
    }

    pub entry_at-replaced :
        (p : List ℕ) → entry_at replaced p ≡ (if bytes_eq path p then some e else entry_at m p)
    entry_at-replaced p = elim (Bool-cases (bytes_eq path p)) [
      | inl same ↦ rw same (
          entry_at-found replaced p idx
            (ap (λ t. lookup t m.file_index) (sym ((bytes_eq_iff path p).0 same)) ∙ at)
          ∙ get_elem?-set_self m.files idx e old here)
      | inr other ↦ rw other (elim (Option-cases (lookup p m.file_index)) [
        | inl gone ↦ entry_at_absent replaced p gone ∙ sym (entry_at_absent m p gone)
        | inr (i, there) ↦
            (let not_idx : idx ≢ i = λ q. true_ne_false (
                sym ((bytes_eq_iff path p).1 (sym (path_at p (there ∙ ap some (sym q)))))
                ∙ other) in
              entry_at-found replaced p i there
              ∙ get_elem?-set_ne m.files idx i e not_idx
              ∙ sym (entry_at-found m p i there))
      ])
    ]
