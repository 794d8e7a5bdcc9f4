-- ===== src/Fuse/Path.antt =====
-- The functions on paths at the end of src/fs/fuse_shim.rs.
use embeddenator_fs.Prelude.{
  ℕ, suc, ◌-◌, Option, none, some, List, [], ◌∷◌, Bool, false, ◌&&◌, ◌==◌, ltb, if◌then◌else◌,
  length, take, drop,
}
use embeddenator_fs.Prelude.Bytes.{bytes_eq}

abbrev pub slash : ℕ
slash = 47

abbrev pub root_path : List ℕ
root_path = slash ∷ []

unfoldable pub starts_with_slash : List ℕ → Bool
starts_with_slash [] = false
starts_with_slash (b ∷ bytes) = b == slash

unfoldable pub ends_with_slash : List ℕ → Bool
ends_with_slash [] = false
ends_with_slash (b ∷ []) = b == slash
ends_with_slash (b ∷ c ∷ bytes) = ends_with_slash (c ∷ bytes)

unfoldable pub rooted : List ℕ → List ℕ
unfolding starts_with_slash
rooted path = if starts_with_slash path then path else slash ∷ path

unfoldable pub without_last_slash : List ℕ → List ℕ
unfolding ends_with_slash
without_last_slash path =
    if ltb 1 (length path) && ends_with_slash path then take (length path - 1) path else path

-- The path with a slash at its start, and without one at its end.
unfoldable pub normalize_path : List ℕ → List ℕ
unfolding rooted without_last_slash
normalize_path path = without_last_slash (rooted path)

-- `path.rfind('/')`
unfoldable pub rfind : List ℕ → Option ℕ
rfind [] = none
rfind (b ∷ bytes) = elim (rfind bytes) [
  | some i ↦ some (suc i)
  | none ↦ if b == slash then some 0 else none
]

-- The match on the position of the last slash.
unfoldable pub cut_at : List ℕ → Option ℕ → Option (List ℕ)
cut_at path none = none
cut_at path (some i) = if i == 0 then some root_path else some (take i path)

unfoldable pub parent_path : List ℕ → Option (List ℕ)
unfolding normalize_path cut_at rfind bytes_eq
parent_path path =
    let p = normalize_path path in if bytes_eq p root_path then none else cut_at p (rfind p)

-- `path.trim_end_matches('/')`
unfoldable pub trim_slashes : List ℕ → List ℕ
trim_slashes [] = []
trim_slashes (b ∷ bytes) = elim (trim_slashes bytes) [
  | [] ↦ if b == slash then [] else b ∷ []
  | c ∷ cs ↦ b ∷ c ∷ cs
]

-- `path.rsplit('/').next()`, which is never `None`: what follows the last slash, or the whole text.
unfoldable pub last_part : List ℕ → List ℕ
unfolding rfind
last_part path = elim (rfind path) [ none ↦ path | some i ↦ drop (suc i) path ]

unfoldable pub filename : List ℕ → List ℕ
unfolding trim_slashes last_part
filename path = last_part (trim_slashes path)
