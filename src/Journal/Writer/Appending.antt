-- ===== src/Journal/Writer/Appending.antt =====
-- A disk that appends: what is written goes behind what was there.
use embeddenator_fs.Prelude.{
  ℕ, ◌+◌, ◌-◌, ◌≡◌, refl, sym, ap, ◌∙◌, List, [], ◌∷◌, ◌++◌, append_assoc, append-nil, Bool, true,
  false, ltb, leb, if◌then◌else◌, length, length-append, take_all, drop_all, arith, Bool-cases, inl,
  inr,
}
use embeddenator_fs.Journal.Writer.{
  Disk, write_at, write_file_bytes, flush_buffer, write_all, write_each, capacity,
}

abbrev pub IsAppending : Disk → Type 0
IsAppending d = d.position ≡ length d.file

-- The file as it will be with the buffer.
abbrev pub contents : Disk → List ℕ
contents d = d.file ++ d.buffer

write_at_end :
    (file bytes : List ℕ) (p : ℕ) → p ≡ length file → write_at file p bytes ≡ file ++ bytes
unfolding write_at
write_at_end file [] p h = sym (append-nil file)
write_at_end file (b ∷ bs) p h =
    let none_missing : p - length file ≡ 0 = omega (arith, h) in
    rw
      (
        take_all p file (omega (arith, h)),
        drop_all (p + length (b ∷ bs)) file (omega (arith, h)),
        none_missing,
        append-nil,
        append-nil,
      )
      refl

write_file_bytes-IsAppending :
    (bytes : List ℕ) (d : Disk)
    → IsAppending d
    → IsAppending (write_file_bytes bytes d) × ((write_file_bytes bytes d).file ≡ d.file ++ bytes)
unfolding write_file_bytes
write_file_bytes-IsAppending bytes d h =
    let same = write_at_end d.file bytes d.position h in
    (omega (arith, h, ap length same, length-append d.file bytes), same)

pub flush_buffer-IsAppending :
    (d : Disk) → IsAppending d → IsAppending (flush_buffer d) × ((flush_buffer d).file ≡ contents d)
unfolding flush_buffer
flush_buffer-IsAppending d h = write_file_bytes-IsAppending d.buffer d h

pub buffer-flush_buffer : (d : Disk) → (flush_buffer d).buffer ≡ []
unfolding flush_buffer
buffer-flush_buffer d = refl

pub flushed_contents : (d : Disk) → IsAppending d → contents (flush_buffer d) ≡ contents d
unfolding flush_buffer
flushed_contents d h = append-nil _ ∙ (flush_buffer-IsAppending d h).1

append_nil_twice : (xs ys : List ℕ) → (xs ++ ys) ++ [] ≡ (xs ++ []) ++ ys
append_nil_twice xs ys = append-nil (xs ++ ys) ∙ ap (λ t. t ++ ys) (sym (append-nil xs))

empty_of : (xs : List ℕ) → length xs ≡ 0 → xs ≡ []
empty_of [] h = refl
empty_of (x ∷ xs) h = absurd (omega (arith, h))

put_bytes :
    (bytes : List ℕ) (d : Disk) (big : Bool)
    → IsAppending d
    → (big ≡ true → d.buffer ≡ [])
    → IsAppending
        (if big then write_file_bytes bytes d else record d { buffer = d.buffer ++ bytes })
      × (contents
            (if big then write_file_bytes bytes d else record d { buffer = d.buffer ++ bytes })
          ≡ contents d ++ bytes)
put_bytes bytes d true h e =
    let (there, grown) = write_file_bytes-IsAppending bytes d h in
    let nothing : d.buffer ≡ [] = e refl in
    (
      there,
      unfold write_file_bytes in
          rw nothing (ap (λ t. t ++ []) grown ∙ append_nil_twice d.file bytes),
    )
put_bytes bytes d false h e = (h, sym (append_assoc d.file d.buffer bytes))

pub write_all-IsAppending :
    (bytes : List ℕ) (d : Disk)
    → IsAppending d
    → IsAppending (write_all bytes d) × (contents (write_all bytes d) ≡ contents d ++ bytes)
unfolding write_all
write_all-IsAppending bytes d h =
    elim (Bool-cases (ltb (capacity - length d.buffer) (length bytes))) [
      | inl e ↦
          (let (there, same) =
              put_bytes bytes (flush_buffer d) (leb capacity (length bytes))
                (flush_buffer-IsAppending d h).0 (λ p. buffer-flush_buffer d) in
            rw (write_all, e) (there, same ∙ ap (λ t. t ++ bytes) (flushed_contents d h)))
      | inr e ↦
          rw (write_all, e)
            (put_bytes bytes d (leb capacity (length bytes)) h
              (λ p. empty_of d.buffer (ground (arith, e, p))))
    ]

-- The pending records, one after the other.
unfoldable pub joined : List (List ℕ) → List ℕ
joined [] = []
joined (w ∷ ws) = w ++ joined ws

pub write_each-IsAppending :
    (ws : List (List ℕ)) (d : Disk)
    → IsAppending d
    → IsAppending (write_each ws d) × (contents (write_each ws d) ≡ contents d ++ joined ws)
unfolding write_each joined
write_each-IsAppending [] d h = (h, sym (append-nil _))
write_each-IsAppending (w ∷ ws) d h =
    let (there, same) = write_all-IsAppending w d h in
    let (end, all) = write_each-IsAppending ws (write_all w d) there in
    (end, all ∙ ap (λ t. t ++ joined ws) same ∙ append_assoc (contents d) w (joined ws))
