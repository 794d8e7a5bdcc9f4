-- ===== src/Journal/Crc/Detects.antt =====
-- The checksum tells apart any two inputs that differ in one byte.
use embeddenator_fs.Prelude.{
  ℕ, zero, suc, ◌-◌, ◌/◌, ◌^◌, bit_xor, ◌≡◌, ◌≢◌, ◌∙◌, List, [], ◌∷◌, ◌++◌, All, arith,
}
use embeddenator_fs.Prelude.Xor.{bit_xor-lt_pow, pow-le-bit_xor, bit_xor_injective, bit_xor_comm}
use embeddenator_fs.Prelude.Bytes.{IsByte, IsU32, All-append}
use embeddenator_fs.Journal.Crc.{polynomial, crc_bit, crc_rounds, crc_byte, crc_loop, crc32_compute}

crc_bit-IsU32 : (c : ℕ) → IsU32 c → IsU32 (crc_bit c)
unfolding crc_bit
crc_bit-IsU32 c h = ground (arith, bit_xor-lt_pow 32 (c / 2) polynomial (omega arith) (omega arith))

-- The top bit of the polynomial tells an odd state from an even one.
crc_bit_injective : (c d : ℕ) → IsU32 c → IsU32 d → crc_bit c ≡ crc_bit d → c ≡ d
unfolding crc_bit
crc_bit_injective c d h k e = ground (
  arith,
  pow-le-bit_xor 31 (c / 2) polynomial (omega arith) (omega arith),
  pow-le-bit_xor 31 (d / 2) polynomial (omega arith) (omega arith),
  bit_xor_injective (c / 2) (d / 2) polynomial,
)

crc_rounds-IsU32 : (n c : ℕ) → IsU32 c → IsU32 (crc_rounds n c)
unfolding crc_rounds
crc_rounds-IsU32 zero c h = h
crc_rounds-IsU32 (suc n) c h = crc_rounds-IsU32 n (crc_bit c) (crc_bit-IsU32 c h)

crc_rounds_injective : (n c d : ℕ) → IsU32 c → IsU32 d → crc_rounds n c ≡ crc_rounds n d → c ≡ d
unfolding crc_rounds
crc_rounds_injective zero c d h k e = e
crc_rounds_injective (suc n) c d h k e =
    crc_bit_injective c d h k
      (crc_rounds_injective n (crc_bit c) (crc_bit d) (crc_bit-IsU32 c h) (crc_bit-IsU32 d k) e)

xor_byte-IsU32 : (c b : ℕ) → IsU32 c → IsByte b → IsU32 (bit_xor c b)
xor_byte-IsU32 c b h k = bit_xor-lt_pow 32 c b h (omega arith)

crc_byte-IsU32 : (c b : ℕ) → IsU32 c → IsByte b → IsU32 (crc_byte c b)
unfolding crc_byte
crc_byte-IsU32 c b h k = crc_rounds-IsU32 8 (bit_xor c b) (xor_byte-IsU32 c b h k)

-- Different states stay different on the same byte, and different bytes part one state.
crc_byte_state : (c d b : ℕ) → IsU32 c → IsU32 d → IsByte b → crc_byte c b ≡ crc_byte d b → c ≡ d
unfolding crc_byte
crc_byte_state c d b h k l e = bit_xor_injective c d b (
    crc_rounds_injective 8 (bit_xor c b) (bit_xor d b) (xor_byte-IsU32 c b h l)
      (xor_byte-IsU32 d b k l) e)

crc_byte_input : (c x y : ℕ) → IsU32 c → IsByte x → IsByte y → crc_byte c x ≡ crc_byte c y → x ≡ y
unfolding crc_byte
crc_byte_input c x y h k l e = bit_xor_injective x y c (
    bit_xor_comm x c
    ∙ crc_rounds_injective 8 (bit_xor c x) (bit_xor c y) (xor_byte-IsU32 c x h k)
        (xor_byte-IsU32 c y h l) e
    ∙ bit_xor_comm c y)

crc_loop-IsU32 : (c : ℕ) (bs : List ℕ) → IsU32 c → All IsByte bs → IsU32 (crc_loop c bs)
unfolding crc_loop
crc_loop-IsU32 c [] h k = h
crc_loop-IsU32 c (b ∷ bs) h k = crc_loop-IsU32 (crc_byte c b) bs (crc_byte-IsU32 c b h k.0) k.1

crc_loop_injective :
    (c d : ℕ) (bs : List ℕ)
    → IsU32 c
    → IsU32 d
    → All IsByte bs
    → crc_loop c bs ≡ crc_loop d bs
    → c ≡ d
unfolding crc_loop
crc_loop_injective c d [] h k l e = e
crc_loop_injective c d (b ∷ bs) h k l e = crc_byte_state c d b h k l.0 (
    crc_loop_injective (crc_byte c b) (crc_byte d b) bs (crc_byte-IsU32 c b h l.0)
      (crc_byte-IsU32 d b k l.0) l.1 e)

-- One byte changed in the middle.
crc_loop_detects :
    (c : ℕ) (pre post : List ℕ) (x y : ℕ)
    → IsU32 c
    → All IsByte pre
    → All IsByte post
    → IsByte x
    → IsByte y
    → crc_loop c (pre ++ (x ∷ post)) ≡ crc_loop c (pre ++ (y ∷ post))
    → x ≡ y
unfolding crc_loop
crc_loop_detects c [] post x y h kp kq kx ky e = crc_byte_input c x y h kx ky (
    crc_loop_injective (crc_byte c x) (crc_byte c y) post (crc_byte-IsU32 c x h kx)
      (crc_byte-IsU32 c y h ky) kq e)
crc_loop_detects c (p ∷ pre) post x y h kp kq kx ky e =
    crc_loop_detects (crc_byte c p) pre post x y (crc_byte-IsU32 c p h kp.0) kp.1 kq kx ky e

complement_injective : (a b : ℕ) → IsU32 a → IsU32 b → 2 ^ 32 - 1 - a ≡ 2 ^ 32 - 1 - b → a ≡ b
complement_injective a b h k e = omega arith

pub crc32_compute-IsU32 : (header payload : List ℕ) → IsU32 (crc32_compute header payload)
unfolding crc32_compute
crc32_compute-IsU32 header payload = omega arith

-- Two inputs that differ in one byte have different checksums, wherever that byte stands.
pub crc32_compute-ne :
    (header payload header' payload' pre post : List ℕ) (x y : ℕ)
    → All IsByte pre
    → All IsByte post
    → IsByte x
    → IsByte y
    → header ++ payload ≡ pre ++ (x ∷ post)
    → header' ++ payload' ≡ pre ++ (y ∷ post)
    → x ≢ y
    → crc32_compute header payload ≢ crc32_compute header' payload'
unfolding crc32_compute
crc32_compute-ne header payload header' payload' pre post x y kp kq kx ky e e' ne same =
    let start : IsU32 0xFFFFFFFF = omega arith in
    ne (
      crc_loop_detects 0xFFFFFFFF pre post x y start kp kq kx ky (
        complement_injective (crc_loop 0xFFFFFFFF (pre ++ (x ∷ post)))
          (crc_loop 0xFFFFFFFF (pre ++ (y ∷ post)))
          (crc_loop-IsU32 0xFFFFFFFF (pre ++ (x ∷ post)) start
            (All-append IsByte pre (x ∷ post) kp (kx, kq)))
          (crc_loop-IsU32 0xFFFFFFFF (pre ++ (y ∷ post)) start
            (All-append IsByte pre (y ∷ post) kp (ky, kq)))
          (rw (← e, ← e') same)))
