-- ===== src/Partition.antt =====
-- src/disk/partition.rs: the types of partitions, and the partition tables of the master boot record
-- with its chain of extended boot records. The block device is the parameter `read_at`, which gives the
-- buffer of so many bytes, zeros at first, as a read at an offset leaves it, or fails; `raw_read_at` is
-- that of src/disk/raw.rs. Names and identifiers of partitions, which are texts, are left out.
pub mod Chain
mod Runs
use embeddenator_fs.Prelude.{
  ℕ, zero, suc, ◌+◌, ◌*◌, ◌^◌, ◌%◌, Option, none, some, List, [], ◌∷◌, ◌++◌, Bool, true, false, not,
  ◌&&◌, ◌||◌, ◌==◌, leb, if◌then◌else◌, length, get_or, take, drop, replicate, ◌-◌,
}
use embeddenator_fs.Prelude.Bytes.{slice, bytes_eq, from_le}
use embeddenator_fs.Types.{wrap64}

pub data PartitionType : Type 0 where
  linux_filesystem linux_swap efi_system linux_lvm linux_raid microsoft_basic_data : PartitionType
  unknown : ℕ → PartitionType

abbrev linux_fs_guid : List ℕ
linux_fs_guid =
    175 ∷ 61 ∷ 198 ∷ 15 ∷ 131 ∷ 132 ∷ 114 ∷ 71 ∷ 142 ∷ 121 ∷ 61 ∷ 105 ∷ 216 ∷ 71 ∷ 125 ∷ 228 ∷ []

abbrev linux_swap_guid : List ℕ
linux_swap_guid =
    109 ∷ 253 ∷ 87 ∷ 6 ∷ 171 ∷ 164 ∷ 196 ∷ 67 ∷ 132 ∷ 229 ∷ 9 ∷ 51 ∷ 200 ∷ 75 ∷ 79 ∷ 79 ∷ []

abbrev efi_system_guid : List ℕ
efi_system_guid =
    40 ∷ 115 ∷ 42 ∷ 193 ∷ 31 ∷ 248 ∷ 210 ∷ 17 ∷ 186 ∷ 75 ∷ 0 ∷ 160 ∷ 201 ∷ 62 ∷ 201 ∷ 59 ∷ []

abbrev ms_basic_data_guid : List ℕ
ms_basic_data_guid =
    162 ∷ 160 ∷ 208 ∷ 235 ∷ 229 ∷ 185 ∷ 51 ∷ 68 ∷ 135 ∷ 192 ∷ 104 ∷ 182 ∷ 183 ∷ 38 ∷ 153 ∷ 199 ∷ []

unfoldable pub from_gpt_guid : List ℕ → PartitionType
from_gpt_guid guid =
    if bytes_eq guid linux_fs_guid
    then linux_filesystem
    else if bytes_eq guid linux_swap_guid
    then linux_swap
    else if bytes_eq guid efi_system_guid
    then efi_system
    else if bytes_eq guid ms_basic_data_guid
    then microsoft_basic_data
    else unknown 0

unfoldable pub from_mbr_type : ℕ → PartitionType
from_mbr_type b =
    if b == 131
    then linux_filesystem
    else if b == 130
    then linux_swap
    else if b == 239
    then efi_system
    else if b == 142
    then linux_lvm
    else if b == 253
    then linux_raid
    else if b == 7 || b == 11 || b == 12
    then microsoft_basic_data
    else unknown b

unfoldable pub should_encode : PartitionType → Bool
should_encode linux_swap = false
should_encode linux_lvm = false
should_encode linux_raid = false
should_encode _ = true

pub record PartitionInfo : Type 0 where
  pub number : ℕ
  pub partition_type : PartitionType
  pub start_offset : ℕ
  pub size : ℕ

unfoldable pub end_of : PartitionInfo → ℕ
end_of p = wrap64 (p.start_offset + p.size)

-- `DiskError`, of which the texts are left out: the device failed, or there is no table to parse.
pub data Parsed {ℓ} (A : Type ℓ) : Type ℓ where
  parsed : A → Parsed A
  read_error : Parsed A
  partition_error : Parsed A

-- The type byte and the two words of the entry of 16 bytes that begins at `at`.
abbrev pub type_byte : List ℕ → ℕ → ℕ
type_byte sector at = get_or sector (at + 4) 0

unfoldable pub first_lba : List ℕ → ℕ → ℕ
unfolding from_le
first_lba sector at = from_le (slice sector (at + 8) (at + 12))

unfoldable pub sectors : List ℕ → ℕ → ℕ
unfolding from_le
sectors sector at = from_le (slice sector (at + 12) (at + 16))

unfoldable pub has_signature : List ℕ → Bool
has_signature sector = get_or sector 510 0 == 85 && get_or sector 511 0 == 170

unfoldable pub is_extended : ℕ → Bool
is_extended b = b == 5 || b == 15 || b == 133

abbrev pub max_logical_partitions : ℕ
max_logical_partitions = 128

-- The logical partition of an extended boot record, if it has one.
unfoldable pub logical : List ℕ → ℕ → ℕ → List PartitionInfo
unfolding from_mbr_type first_lba sectors
logical ebr lba number =
    if type_byte ebr 446 == 0
    then []
    else record {
      number = number;
      partition_type = from_mbr_type (type_byte ebr 446);
      start_offset = wrap64 (wrap64 (lba + first_lba ebr 446) * 512);
      size = wrap64 (sectors ebr 446 * 512);
    }
      ∷ []

unfoldable pub before :
    List PartitionInfo → Option (Parsed (List PartitionInfo)) → Option (Parsed (List PartitionInfo))
before infos none = none
before infos (some (parsed rest)) = some (parsed (infos ++ rest))
before infos (some read_error) = some read_error
before infos (some partition_error) = some partition_error

-- `RawImage::read_at` into a buffer of `n` zeros, for an image that is a list of bytes of which the
-- file gives all that is there: a read behind the end fails, and a read that passes it is short.
unfoldable pub raw_read_at : List ℕ → ℕ → ℕ → Option (List ℕ)
raw_read_at image offset n =
    let bytes = take n (drop offset image) in
    if leb (length image) offset then none else some (bytes ++ replicate (n - length bytes) 0)

module _ (read_at : ℕ → ℕ → Option (List ℕ)) where
  -- `parse_extended_partitions` from a record on, with `count` partitions found so far; on fuel, and
  -- `none` when it does not suffice.
  unfoldable pub parse_extended_partitions :
      ℕ → ℕ → ℕ → ℕ → ℕ → Option (Parsed (List PartitionInfo))
  unfolding has_signature logical is_extended before first_lba
  parse_extended_partitions zero current start number count = none
  parse_extended_partitions (suc fuel) current start number count =
      if leb max_logical_partitions count
      then some (parsed [])
      else elim (read_at (wrap64 (current * 512)) 512) [
        | none ↦ some read_error
        | some ebr ↦
            let infos = logical ebr current number in
            let next = wrap64 (start + first_lba ebr 462) in
            let rest =
              parse_extended_partitions fuel next start ((number + length infos) % 2 ^ 32)
                (count + length infos) in
            if not (has_signature ebr)
            then some (parsed [])
            else if type_byte ebr 462 == 0 || not (is_extended (type_byte ebr 462))
            then some (parsed infos)
            else before infos rest
      ]

  -- A primary entry of the master boot record, with the logical partitions that it leads to.
  unfoldable pub parse_primary : ℕ → List ℕ → ℕ → ℕ → Option (Parsed (List PartitionInfo))
  unfolding from_mbr_type is_extended parse_extended_partitions before first_lba sectors
  parse_primary fuel mbr i count =
      let at = 446 + i * 16 in
      let b = type_byte mbr at in
      let info : PartitionInfo = record {
        number = i;
        partition_type = from_mbr_type b;
        start_offset = wrap64 (first_lba mbr at * 512);
        size = wrap64 (sectors mbr at * 512);
      } in
      let chain =
        parse_extended_partitions fuel (first_lba mbr at) (first_lba mbr at) ((count + 1) % 2 ^ 32)
          0 in
      if b == 0
      then some (parsed [])
      else if is_extended b
      then before (info ∷ []) chain
      else some (parsed (info ∷ []))

  -- The entries from `i` on, of which `n` are left, with `count` partitions found so far.
  unfoldable pub parse_entries : ℕ → ℕ → List ℕ → ℕ → ℕ → Option (Parsed (List PartitionInfo))
  unfolding parse_primary before
  parse_entries fuel zero mbr i count = some (parsed [])
  parse_entries fuel (suc n) mbr i count = elim (parse_primary fuel mbr i count) [
    | none ↦ none
    | some p ↦ elim p [
      | parsed infos ↦ before infos (parse_entries fuel n mbr (i + 1) (count + length infos))
      | read_error ↦ some read_error
      | partition_error ↦ some partition_error
    ]
  ]

  unfoldable pub try_parse_mbr : ℕ → Option (Parsed (List PartitionInfo))
  unfolding has_signature parse_entries
  try_parse_mbr fuel = elim (read_at 0 512) [
    | none ↦ some read_error
    | some mbr ↦
        if not (has_signature mbr)
        then some partition_error
        else if get_or mbr 450 0 == 238
        then some partition_error
        else parse_entries fuel 4 mbr 0 0
  ]
