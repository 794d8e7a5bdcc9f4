-- ===== src/Partition/Runs.antt =====
-- Walks along extended boot records.
use embeddenator_fs.Prelude.{
  ℕ, ◌==◌, ◌≡◌, ◌≢◌, refl, sym, ap, Option, none, some, List, [], ◌∷◌, ◌++◌, Bool, true, false, not,
  ◌||◌, ◌*◌, ◌+◌, ◌∙◌, ◌⊎◌, inl, inr, arith, replicate,
}
use embeddenator_fs.Prelude.Bytes.{from_le}
use embeddenator_fs.Types.{wrap64}
use embeddenator_fs.Partition.{
  raw_read_at, parsed, linux_filesystem, logical, from_mbr_type, sectors, before, type_byte,
  first_lba, has_signature, is_extended, parse_extended_partitions,
}
use embeddenator_fs.Partition.Chain.{
  IsSelfLinked, LeadsOn, IsReached, here, onward, parse_extended_partitions-endless,
  parse_extended_partitions-ends,
}

-- The second half of a record: a link to the beginning of the chain, and the signature.
abbrev link_back : List ℕ
link_back = 0 ∷ 0 ∷ 0 ∷ 0 ∷ 5 ∷ (replicate 43 0 ++ (85 ∷ 170 ∷ []))

abbrev empty_record : List ℕ
empty_record = replicate 462 0 ++ link_back

-- A disk of three sectors: an empty one, then two records with a partition each. The first of them
-- leads to the second, and the second nowhere.
abbrev with_partition : List ℕ → List ℕ
with_partition entry =
    replicate 446 0
    ++ (0 ∷ 0 ∷ 0 ∷ 0 ∷ 131 ∷ (replicate 11 0 ++ (entry ++ (replicate 32 0 ++ (85 ∷ 170 ∷ [])))))

abbrev first_record : List ℕ
first_record = with_partition (0 ∷ 0 ∷ 0 ∷ 0 ∷ 5 ∷ 0 ∷ 0 ∷ 0 ∷ 1 ∷ 0 ∷ 0 ∷ 0 ∷ 1 ∷ 0 ∷ 0 ∷ 0 ∷ [])

abbrev last_record : List ℕ
last_record = with_partition (replicate 16 0)

abbrev small_disk : ℕ → ℕ → Option (List ℕ)
small_disk = raw_read_at (replicate 512 0 ++ (first_record ++ last_record))

read_first : small_disk (wrap64 (1 * 512)) 512 ≡ some first_record
unfolding raw_read_at
read_first = refl

read_last : small_disk (wrap64 (2 * 512)) 512 ≡ some last_record
unfolding raw_read_at
read_last = refl

-- A read that begins at the last byte succeeds.
read_short : small_disk 1535 512 ≡ some (170 ∷ replicate 511 0)
unfolding raw_read_at
read_short = refl

empty_disk-IsSelfLinked : IsSelfLinked (raw_read_at empty_record) 0 0 empty_record
unfolding has_signature is_extended first_lba from_le raw_read_at
empty_disk-IsSelfLinked = record {
  stored = refl;
  signed = refl;
  unused = refl;
  leads_on = refl;
  to_itself = refl;
}

some_injective : {a b : List ℕ} → some a ≡ some b → a ≡ b
some_injective h = cc

is_first : (lba : ℕ) (ebr : List ℕ) → lba ≡ 1 → LeadsOn small_disk lba ebr → ebr ≡ first_record
is_first lba ebr e link =
    some_injective (sym link.stored ∙ ap (λ t. small_disk (wrap64 (t * 512)) 512) e ∙ read_first)

is_last : (lba : ℕ) (ebr : List ℕ) → lba ≡ 2 → LeadsOn small_disk lba ebr → ebr ≡ last_record
is_last lba ebr e link =
    some_injective (sym link.stored ∙ ap (λ t. small_disk (wrap64 (t * 512)) 512) e ∙ read_last)

true_ne_false : {A : Type 0} → ◌≡◌ {A = Bool} true false → A
true_ne_false h = cc

last_leads_nowhere : (lba : ℕ) (ebr : List ℕ) → lba ≡ 2 → LeadsOn small_disk lba ebr → ⊥
last_leads_nowhere lba ebr e link = true_ne_false (
    sym (
      ap (λ r. type_byte r 462 == 0 || not (is_extended (type_byte r 462)))
        (is_last lba ebr e link))
    ∙ link.leads_on)

second_sector : wrap64 (1 + first_lba first_record 462) ≡ 2
unfolding first_lba from_le
second_sector = refl

reached_sectors : {lba : ℕ} → IsReached small_disk 1 1 lba → (lba ≡ 1) ⊎ (lba ≡ 2)
reached_sectors here = inl refl
reached_sectors (onward {lba} {ebr} reached link) = elim (reached_sectors reached) [
  | inl e ↦ inr (ap (λ r. wrap64 (1 + first_lba r 462)) (is_first lba ebr e link) ∙ second_sector)
  | inr e ↦ absurd (last_leads_nowhere lba ebr e link)
]

all_used :
    (lba : ℕ) (ebr : List ℕ)
    → IsReached small_disk 1 1 lba
    → LeadsOn small_disk lba ebr
    → (type_byte ebr 446 == 0) ≡ false
all_used lba ebr reached link = elim (reached_sectors reached) [
  | inl e ↦ ap (λ r. type_byte r 446 == 0) (is_first lba ebr e link)
  | inr e ↦ absurd (last_leads_nowhere lba ebr e link)
]

parse_extended_partitions-endless_example :
    parse_extended_partitions (raw_read_at empty_record) 1000 0 0 4 0 ≡ none
parse_extended_partitions-endless_example =
    parse_extended_partitions-endless (raw_read_at empty_record) 1000 0 0 4 0 empty_record
      empty_disk-IsSelfLinked (omega arith)

parse_extended_partitions-ends_example : parse_extended_partitions small_disk 129 1 1 4 0 ≢ none
parse_extended_partitions-ends_example =
    parse_extended_partitions-ends small_disk 129 1 1 4 0 all_used (omega arith) (omega arith)

-- It finds both partitions.
small_disk_found :
    parse_extended_partitions small_disk 3 1 1 4 0
    ≡ some (
        parsed (
          record { number = 4; partition_type = linux_filesystem; start_offset = 512; size = 0 }
          ∷ record { number = 5; partition_type = linux_filesystem; start_offset = 1024; size = 0 }
          ∷ []))
unfolding parse_extended_partitions raw_read_at has_signature is_extended logical from_mbr_type
    first_lba sectors from_le before
small_disk_found = refl
