-- ===== src/Fuse/Ancestors.antt =====
-- The recursion of `ensure_directory` over the parents of a path.
use embeddenator_fs.Prelude.{
  ℕ, zero, suc, ◌-◌, ◌≤◌, ◌<◌, ◌≡◌, ◌≢◌, inl, inr, refl, Option, none, some, List, [], ◌∷◌, true,
  false, length, take, length-take, Option-cases, Bool-cases, arith,
}
use embeddenator_fs.Prelude.Bytes.{bytes_eq}
use embeddenator_fs.Prelude.Assoc.{nat_key, bytes_key, lookup, insert}
use embeddenator_fs.Fuse.Path.{
  root_path, starts_with_slash, rooted, without_last_slash, normalize_path, rfind, cut_at,
  parent_path, filename,
}
use embeddenator_fs.Fuse.State.{EngramFs, DirEntry, root_ino, directory}
use embeddenator_fs.Fuse.Insert.{
  Added, added, refused, FuseError, not_ended, invalid_path, parent_not_found, push_entry, linked,
  store_node, after_alloc, directory_attr, create_directory, in_parent, ensure_step, ensure_on,
  ensure_directory,
}

starts-take :
    (n : ℕ) (p : List ℕ) → 0 < n → starts_with_slash p ≡ true → starts_with_slash (take n p) ≡ true
unfolding starts_with_slash
starts-take zero p h s = absurd (omega arith)
starts-take (suc n) [] h s = s
starts-take (suc n) (b ∷ p) h s = s

rooted-starts : (p : List ℕ) → starts_with_slash (rooted p) ≡ true
unfolding rooted starts_with_slash
rooted-starts p = ground arith

pub normalize-starts : (p : List ℕ) → starts_with_slash (normalize_path p) ≡ true
unfolding normalize_path without_last_slash
normalize-starts p = ground (arith, rooted-starts p, starts-take (length (rooted p) - 1) (rooted p))

pub length-normalize_path :
    (p : List ℕ) → starts_with_slash p ≡ true → length (normalize_path p) ≤ length p
unfolding normalize_path without_last_slash rooted
length-normalize_path p s = ground (arith, length-take (length p - 1) p)

lt-rfind : (p : List ℕ) (i : ℕ) → rfind p ≡ some i → i < length p
unfolding rfind
lt-rfind [] i h = cc
lt-rfind (b ∷ p) i h = elim (Option-cases (rfind p)) [
  | inl e ↦ ground arith
  | inr (j, e) ↦ grind (arith, lt-rfind p j e)
]

two_bytes : (p : List ℕ) → starts_with_slash p ≡ true → bytes_eq p root_path ≡ false → 1 < length p
unfolding starts_with_slash bytes_eq
two_bytes [] s ne = cc
two_bytes (b ∷ []) s ne = ground arith
two_bytes (b ∷ c ∷ p) s ne = omega arith

cut_at_lem :
    (p q : List ℕ) (o : Option ℕ)
    → starts_with_slash p ≡ true
    → 1 < length p
    → ((i : ℕ) → o ≡ some i → i < length p)
    → cut_at p o ≡ some q
    → (starts_with_slash q ≡ true) × (length q < length p)
unfolding cut_at starts_with_slash
cut_at_lem p q none s l h e = cc
cut_at_lem p q (some i) s l h e = ground (arith, h i refl, starts-take i p, length-take i p)

pub parent_path_lem :
    (p q : List ℕ)
    → starts_with_slash p ≡ true
    → parent_path p ≡ some q
    → (starts_with_slash q ≡ true) × (length q < length p)
unfolding parent_path
parent_path_lem p q s e = elim (Bool-cases (bytes_eq (normalize_path p) root_path)) [
  | inl b ↦ ground arith
  | inr b ↦
      let n = normalize_path p in
      let lt = two_bytes n (normalize-starts p) b in
      ground (
        arith,
        cut_at_lem n q (rfind n) (normalize-starts p) lt (lt-rfind n),
        length-normalize_path p s,
      )
]

ensure_step_ext :
    (fs : EngramFs) (p : List ℕ) (f g : List ℕ → Added × EngramFs)
    → ((q : List ℕ) → parent_path p ≡ some q → f q ≡ g q)
    → ensure_step fs p f ≡ ensure_step fs p g
unfolding ensure_step
ensure_step_ext fs p f g h = elim (Option-cases (parent_path p)) [
  | inl e ↦ ground arith
  | inr (q, e) ↦ ground (arith, h q e)
]

length-starts : (p : List ℕ) → starts_with_slash p ≡ true → 0 < length p
unfolding starts_with_slash
length-starts [] s = ground arith
length-starts (b ∷ p) s = omega arith

not_empty : (path : List ℕ) → 0 < length (normalize_path path)
not_empty path = length-starts (normalize_path path) (normalize-starts path)

-- The path of a parent, as the recursive call normalizes it, is shorter.
pub parent_shorter :
    (path q : List ℕ)
    → parent_path (normalize_path path) ≡ some q
    → length (normalize_path q) < length (normalize_path path)
parent_shorter path q e =
    let h = parent_path_lem (normalize_path path) q (normalize-starts path) e in
    omega (arith, length-normalize_path q h.0, h.1)

-- With more fuel than the path has bytes, more of it changes nothing.
ensure_on_stable :
    (n m : ℕ) (fs : EngramFs) (path : List ℕ)
    → length (normalize_path path) ≤ n
    → length (normalize_path path) ≤ m
    → ensure_on (suc n) fs path ≡ ensure_on (suc m) fs path
unfolding ensure_on
ensure_on_stable zero m fs path hn hm = absurd (omega (arith, not_empty path))
ensure_on_stable (suc n) zero fs path hn hm = absurd (omega (arith, not_empty path))
ensure_on_stable (suc n) (suc m) fs path hn hm =
    ensure_step_ext fs (normalize_path path) (ensure_on (suc n) fs) (ensure_on (suc m) fs) (λ q e.
      let shorter = parent_shorter path q e in
      ensure_on_stable n m fs q (omega arith) (omega arith))

-- An answer that the recursion gives before its fuel is used up.
abbrev pub HasEnded : Added × EngramFs → Type 0
HasEnded r = r.0 ≢ refused not_ended

refused_ended : (e : FuseError) → e ≢ not_ended → refused e ≢ refused not_ended
refused_ended e ne h = ne cc

added_ended : (i : ℕ) → added i ≢ refused not_ended
added_ended i h = cc

linked_ended : (d : ℕ) (r : Added × EngramFs) → HasEnded r → HasEnded (linked d r)
linked_ended d (refused e, fs) h = h
linked_ended d (added i, fs) h = added_ended i

push_entry_ended :
    (d : ℕ) (entry : DirEntry) (fs : EngramFs) → HasEnded (push_entry parent_not_found d entry fs)
unfolding push_entry
push_entry_ended d entry fs = elim (Option-cases (lookup d fs.directories)) [
  | inl e ↦ rw (push_entry, e) (refused_ended parent_not_found (λ h. cc))
  | inr (entries, e) ↦ rw (push_entry, e) (added_ended entry.ino)
]

create_directory_ended : (p : List ℕ) (d : ℕ) (fs : EngramFs) → HasEnded (create_directory p d fs)
unfolding create_directory
create_directory_ended p d fs =
    let ino = fs.next_ino in
    let stored = store_node (after_alloc fs) ino p (directory_attr ino) in
    let entry : DirEntry = record { ino = ino; name = filename p; kind = directory } in
    let made : EngramFs = record stored { directories = insert ino [] stored.directories } in
    linked_ended d (push_entry parent_not_found d entry made) (push_entry_ended d entry made)

in_parent_ended :
    (p : List ℕ) (r : Added × EngramFs) → HasEnded r → HasEnded (in_parent (create_directory p) r)
in_parent_ended p (refused e, fs) h = h
in_parent_ended p (added d, fs) h = create_directory_ended p d fs

ensure_step_ended :
    (fs : EngramFs) (p : List ℕ) (f : List ℕ → Added × EngramFs)
    → ((q : List ℕ) → parent_path p ≡ some q → HasEnded (f q))
    → HasEnded (ensure_step fs p f)
unfolding ensure_step
ensure_step_ended fs p f h = elim (Bool-cases (bytes_eq p root_path)) [
  | inl root ↦ rw (ensure_step, root) (added_ended root_ino)
  | inr other ↦ elim (Option-cases (lookup p fs.path_inodes)) [
    | inr (ino, found) ↦ rw (ensure_step, other, found) (added_ended ino)
    | inl fresh ↦ elim (Option-cases (parent_path p)) [
      | inl orphan ↦ rw (ensure_step, other, fresh, orphan) (refused_ended invalid_path (λ e. cc))
      | inr (q, parent) ↦
          rw (ensure_step, other, fresh, parent) (in_parent_ended p (f q) (h q parent))
    ]
  ]
]

ensure_on_ended :
    (n : ℕ) (fs : EngramFs) (path : List ℕ)
    → length (normalize_path path) < n
    → HasEnded (ensure_on n fs path)
unfolding ensure_on
ensure_on_ended zero fs path h = absurd (omega (arith, h))
ensure_on_ended (suc n) fs path h =
    ensure_step_ended fs (normalize_path path) (ensure_on n fs) (λ q e.
      let shorter = parent_shorter path q e in ensure_on_ended n fs q (omega (arith, shorter, h)))

-- One run of the body, in which the recursive call on the parent's path is the function itself.
pub ensure_directory_unrolled :
    (fs : EngramFs) (path : List ℕ)
    → ensure_directory fs path ≡ ensure_step fs (normalize_path path) (ensure_directory fs)
unfolding ensure_directory ensure_on
ensure_directory_unrolled fs path =
    ensure_step_ext fs (normalize_path path) (ensure_on (length (normalize_path path)) fs)
      (ensure_directory fs)
      (λ q e. enough q (length (normalize_path path)) (parent_shorter path q e))
  where
    enough :
        (q : List ℕ) (n : ℕ)
        → length (normalize_path q) < n
        → ensure_on n fs q ≡ ensure_on (suc (length (normalize_path q))) fs q
    enough q zero h = absurd (omega arith)
    enough q (suc n) h =
        ensure_on_stable n (length (normalize_path q)) fs q (omega arith) (omega arith)

-- `ensure_directory` ends on every path: its fuel is never used up, and its answer is that of the
-- body of the code, in which the recursive call on the parent's path is the function itself; any
-- more fuel leaves the answer as it is.
pub ensure_directory-ends :
    (fs : EngramFs) (path : List ℕ) (fuel : ℕ)
    → length (normalize_path path) < fuel
    → ((ensure_directory fs path).0 ≢ refused not_ended)
      × (ensure_directory fs path ≡ ensure_step fs (normalize_path path) (ensure_directory fs))
      × (ensure_on fuel fs path ≡ ensure_directory fs path)
unfolding ensure_directory
ensure_directory-ends fs path zero h = absurd (omega (arith, h))
ensure_directory-ends fs path (suc n) h = (
  ensure_on_ended (suc (length (normalize_path path))) fs path (omega arith),
  ensure_directory_unrolled fs path,
  ensure_on_stable n (length (normalize_path path)) fs path (omega (arith, h)) (omega arith),
)
