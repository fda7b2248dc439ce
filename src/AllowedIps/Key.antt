-- ===== src/AllowedIps/Key.antt =====
-- driver/allowedips.c and driver/arithmetic.h: the keys of the tree, which are addresses as words of
-- the processor (`SwapEndian`), and their comparison. The processor is little-endian.
pub mod Shared
pub mod Bit
pub mod V4
pub mod V6
use Prim.Native.Nat.{bit_xor}
use amneziawg_nt.Base.{ℕ, zero, suc, ◌+◌, ◌-◌, ◌*◌, ◌/◌, ◌%◌, Bool, ltb, ◌==◌, if◌then◌else◌}
use amneziawg_nt.AllowedIps.{KeyOps}

-- `a ^ b` on words of `w` bits.
unfoldable pub xor : ℕ → ℕ → ℕ → ℕ
xor zero a b = 0
xor (suc w) a b = xor w (a / 2) (b / 2) * 2 + (a % 2 + b % 2) % 2

-- `FindLastSet32` and `FindLastSet64`: the position of the highest set bit counted from one, or zero.
unfoldable pub find_last_set : ℕ → ℕ → ℕ
find_last_set zero x = 0
find_last_set (suc w) x = if x == 0 then 0 else suc (find_last_set w (x / 2))

-- `x >> k`.
unfoldable pub shift_right : ℕ → ℕ → ℕ
shift_right zero x = x
shift_right (suc k) x = shift_right k (x / 2)

-- `CommonBits` for `Bits == 32`.
unfoldable pub common_bits32 : ℕ → ℕ → ℕ
common_bits32 a b = 32 - find_last_set 32 (xor 32 a b)

-- `CopyAndAssignCidr`: `BitAtA` and `BitAtB` of a node with the length `cidr`.
unfoldable pub bit_at_a : ℕ → ℕ → ℕ
bit_at_a bits cidr = bit_xor (cidr / 8) ((bits / 8 - 1) % 8)

unfoldable pub bit_at_b : ℕ → ℕ
bit_at_b cidr = 7 - cidr % 8

-- The byte at an offset of a stored word.
unfoldable pub byte_at : ℕ → ℕ → ℕ
byte_at word i = shift_right (8 * i) word % 256

-- `Choose` for `Bits == 32`.
unfoldable pub choose32 : ℕ → ℕ → Bool
choose32 cidr key = shift_right (bit_at_b cidr) (byte_at key (bit_at_a 32 cidr)) % 2 == 1

abbrev pub ops32 : KeyOps ℕ
ops32 = record { bits = 32; common = common_bits32; choose = choose32 }

-- An IPv6 address: the 64-bit words at offsets 0 and 8.
unfoldable pub find_last_set128 : ℕ → ℕ → ℕ
find_last_set128 a b = if a == 0 then find_last_set 64 b else find_last_set 64 a + 64

-- `CommonBits` for `Bits == 128`.
unfoldable pub common_bits128 : ℕ × ℕ → ℕ × ℕ → ℕ
common_bits128 (a, b) (a', b') = 128 - find_last_set128 (xor 64 a a') (xor 64 b b')

-- `Choose` for `Bits == 128`.
unfoldable pub choose128 : ℕ → ℕ × ℕ → Bool
choose128 cidr (a, b) =
    let i = bit_at_a 128 cidr in
    shift_right (bit_at_b cidr) (byte_at (if ltb i 8 then a else b) (i % 8)) % 2 == 1

abbrev pub ops128 : KeyOps (ℕ × ℕ)
ops128 = record { bits = 128; common = common_bits128; choose = choose128 }
