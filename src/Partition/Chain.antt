-- ===== src/Partition/Chain.antt =====
-- Where the walk along the extended boot records ends, and where it does not.
use embeddenator_fs.Prelude.{
  ℕ, zero, suc, ◌+◌, ◌*◌, ◌%◌, ◌^◌, ◌≤◌, ◌<◌, ◌≡◌, ◌≢◌, refl, sym, ap, subst, ◌∙◌, Option, none,
  some, List, [], true, false, not, ◌==◌, ◌||◌, leb, leb_cases, Bool-cases, Option-cases, inl, inr,
  arith, length,
}
use embeddenator_fs.Types.{wrap64}
use embeddenator_fs.Partition.{
  PartitionInfo, Parsed, parsed, read_error, partition_error, type_byte, first_lba, has_signature,
  is_extended, max_logical_partitions, logical, before, parse_extended_partitions,
}

lt→leb : (a b : ℕ) → b < a → leb a b ≡ false
lt→leb a b h = ground arith

before_ne_none :
    (infos : List PartitionInfo) (r : Option (Parsed (List PartitionInfo)))
    → r ≢ none
    → before infos r ≢ none
unfolding before
before_ne_none infos none h q = h refl
before_ne_none infos (some (parsed rest)) h q = cc
before_ne_none infos (some read_error) h q = cc
before_ne_none infos (some partition_error) h q = cc

some_ne_none :
    (r : Parsed (List PartitionInfo)) → ◌≢◌ {A = Option (Parsed (List PartitionInfo))} (some r) none
some_ne_none r h = cc

module _ (read_at : ℕ → ℕ → Option (List ℕ)) where
  -- An extended boot record that leads on, itself and its successor being unused, and whose link
  -- leads back to itself.
  pub record IsSelfLinked (start lba : ℕ) (ebr : List ℕ) : Type 0 where
    pub stored : read_at (wrap64 (lba * 512)) 512 ≡ some ebr
    pub signed : has_signature ebr ≡ true
    pub unused : (type_byte ebr 446 == 0) ≡ true
    pub leads_on : (type_byte ebr 462 == 0 || not (is_extended (type_byte ebr 462))) ≡ false
    pub to_itself : wrap64 (start + first_lba ebr 462) ≡ lba

  logical_unused :
      (ebr : List ℕ) (lba number : ℕ)
      → (type_byte ebr 446 == 0) ≡ true
      → logical ebr lba number ≡ []
  unfolding logical
  logical_unused ebr lba number unused = rw (logical, unused) refl

  logical_used :
      (ebr : List ℕ) (lba number : ℕ)
      → (type_byte ebr 446 == 0) ≡ false
      → length (logical ebr lba number) ≡ 1
  unfolding logical
  logical_used ebr lba number used = rw (logical, used) refl

  -- A round of the walk below the limit, on a record that leads on.
  parse_onward :
      (fuel lba start number count : ℕ) (ebr : List ℕ)
      → leb max_logical_partitions count ≡ false
      → read_at (wrap64 (lba * 512)) 512 ≡ some ebr
      → has_signature ebr ≡ true
      → (type_byte ebr 462 == 0 || not (is_extended (type_byte ebr 462))) ≡ false
      → parse_extended_partitions read_at (suc fuel) lba start number count
        ≡ before (logical ebr lba number) (
            parse_extended_partitions read_at fuel
              (wrap64 (start + first_lba ebr 462))
              start
              ((number + length (logical ebr lba number)) % 2 ^ 32)
              (count + length (logical ebr lba number)))
  unfolding parse_extended_partitions
  parse_onward fuel lba start number count ebr below stored signed onward =
      rw (parse_extended_partitions, below, stored, signed, onward) refl

  -- The walk does not end on a record without a partition that links to itself: however many rounds
  -- it is given, it has no result. The limit of 128 counts the partitions that were found, not the
  -- records that were read.
  pub parse_extended_partitions-endless :
      (fuel start lba number count : ℕ) (ebr : List ℕ)
      → IsSelfLinked start lba ebr
      → count < max_logical_partitions
      → parse_extended_partitions read_at fuel lba start number count ≡ none
  unfolding parse_extended_partitions before
  parse_extended_partitions-endless zero start lba number count ebr linked below = refl
  parse_extended_partitions-endless (suc fuel) start lba number count ebr linked below =
      let no_info = logical_unused ebr lba number linked.unused in
      let below_limit : leb max_logical_partitions count ≡ false =
        lt→leb max_logical_partitions count below in
      parse_onward fuel lba start number count ebr below_limit linked.stored linked.signed
        linked.leads_on
      ∙ ap (before (logical ebr lba number)) (
          ap
            (λ next.
              parse_extended_partitions read_at fuel next start
                ((number + length (logical ebr lba number)) % 2 ^ 32)
                (count + length (logical ebr lba number)))
            linked.to_itself
          ∙ parse_extended_partitions-endless fuel start lba _ _ ebr linked (
              let z : length (logical ebr lba number) ≡ 0 = ap length no_info in
              omega (arith, below, z)))

  -- A record on which the walk goes on.
  pub record LeadsOn (lba : ℕ) (ebr : List ℕ) : Type 0 where
    pub stored : read_at (wrap64 (lba * 512)) 512 ≡ some ebr
    pub signed : has_signature ebr ≡ true
    pub leads_on : (type_byte ebr 462 == 0 || not (is_extended (type_byte ebr 462))) ≡ false

  -- The sectors to which the links lead from the first one on.
  pub data IsReached (start first : ℕ) : ℕ → Type 0 where
    here : IsReached start first first
    onward :
        {lba : ℕ} {ebr : List ℕ}
        → IsReached start first lba
        → LeadsOn lba ebr
        → IsReached start first (wrap64 (start + first_lba ebr 462))

  -- The walk from a sector that was reached on.
  ends_from :
      (fuel lba start first number count : ℕ)
      → ((at : ℕ) (ebr : List ℕ)
          → IsReached start first at
          → LeadsOn at ebr
          → (type_byte ebr 446 == 0) ≡ false)
      → IsReached start first lba
      → count ≤ max_logical_partitions
      → max_logical_partitions < fuel + count
      → parse_extended_partitions read_at fuel lba start number count ≢ none
  unfolding parse_extended_partitions
  ends_from zero lba start first number count used reached below enough =
      absurd (omega (arith, below, enough))
  ends_from (suc fuel) lba start first number count used reached below enough =
      elim (leb_cases max_logical_partitions count) [
        | inl (at_limit, _) ↦ rw (parse_extended_partitions, at_limit) (some_ne_none (parsed []))
        | inr (under_limit, under) ↦ elim (Option-cases (read_at (wrap64 (lba * 512)) 512)) [
          | inl failed ↦
              rw (parse_extended_partitions, under_limit, failed) (some_ne_none read_error)
          | inr (ebr, stored) ↦ elim (Bool-cases (has_signature ebr)) [
            | inr unsigned ↦
                rw (parse_extended_partitions, under_limit, stored, unsigned)
                  (some_ne_none (parsed []))
            | inl signed ↦
                elim (Bool-cases
                  (type_byte ebr 462 == 0 || not (is_extended (type_byte ebr 462)))) [
                    | inl last ↦
                        rw (parse_extended_partitions, under_limit, stored, signed, last)
                          (some_ne_none (parsed (logical ebr lba number)))
                    | inr goes ↦
                        let link : LeadsOn lba ebr = record {
                          stored = stored;
                          signed = signed;
                          leads_on = goes;
                        } in
                        let one = logical_used ebr lba number (used lba ebr reached link) in
                        subst (λ r. r ≢ none)
                          (sym (
                            parse_onward fuel lba start number count ebr under_limit stored signed
                              goes))
                          (before_ne_none (logical ebr lba number) _ (
                            ends_from fuel _ start first _ (count + length (logical ebr lba number))
                              used (onward reached link) (omega (arith, one, under))
                              (omega (arith, one, enough))))
                  ]
          ]
        ]
      ]

  -- The walk from a sector ends where every record that it reaches and that leads on has a
  -- partition: below the limit, one round more than the partitions that are left to it is enough for
  -- a result.
  pub parse_extended_partitions-ends :
      (fuel first start number count : ℕ)
      → ((lba : ℕ) (ebr : List ℕ)
          → IsReached start first lba
          → LeadsOn lba ebr
          → (type_byte ebr 446 == 0) ≡ false)
      → count ≤ max_logical_partitions
      → max_logical_partitions < fuel + count
      → parse_extended_partitions read_at fuel first start number count ≢ none
  parse_extended_partitions-ends fuel first start number count used below enough =
      ends_from fuel first start first number count used here below enough
