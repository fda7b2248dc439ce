-- ===== src/AllowedIps/Key/Bit.antt =====
-- `Choose` reads the bit of a word at the node's length.
use Prim.Native.Nat.{bit_xor}
use amneziawg_nt.Base.{
  ℕ, zero, suc, ◌+◌, ◌-◌, ◌*◌, ◌/◌, ◌%◌, ◌≤◌, ◌<◌, ◌≡◌, refl, ap, ◌⊎◌, inl, inr, ◌∙◌, true, false,
  ltb, ◌==◌, if◌then◌else◌, arith,
}
use amneziawg_nt.AllowedIps.Key.{shift_right, byte_at, bit_at_a, bit_at_b, choose32, choose128}
use amneziawg_nt.AllowedIps.Key.Shared.{bit}

pub shift_right_add : (j k x : ℕ) → shift_right j (shift_right k x) ≡ shift_right (k + j) x
unfolding shift_right
shift_right_add j zero x = let e : 0 + j ≡ j = omega arith in rw e refl
shift_right_add j (suc k) x =
    let e : suc k + j ≡ suc (k + j) = omega arith in rw e (shift_right_add j k (x / 2))

-- A byte of a word has the word's bits.
shift_right_byte : (j y : ℕ) → j ≤ 7 → shift_right j (y % 256) % 2 ≡ shift_right j y % 2
unfolding shift_right
shift_right_byte zero y le = omega arith
shift_right_byte (suc zero) y le = omega arith
shift_right_byte (suc (suc zero)) y le = omega arith
shift_right_byte (suc (suc (suc zero))) y le = omega arith
shift_right_byte (suc (suc (suc (suc zero)))) y le = omega arith
shift_right_byte (suc (suc (suc (suc (suc zero))))) y le = omega arith
shift_right_byte (suc (suc (suc (suc (suc (suc zero)))))) y le = omega arith
shift_right_byte (suc (suc (suc (suc (suc (suc (suc zero))))))) y le = omega arith
shift_right_byte (suc (suc (suc (suc (suc (suc (suc (suc j)))))))) y le = absurd (omega arith)

pub byte_bit :
    (word i j : ℕ) → j ≤ 7 → shift_right j (byte_at word i) % 2 ≡ shift_right (8 * i + j) word % 2
unfolding byte_at
byte_bit word i j le =
    shift_right_byte j (shift_right (8 * i) word) le
    ∙ ap (λ x. x % 2) (shift_right_add j (8 * i) word)

-- The position in a stored word of four bytes.
bit_at32 : (n : ℕ) → n < 32 → 8 * bit_at_a 32 n + bit_at_b n ≡ 31 - n
unfolding bit_at_a bit_at_b
bit_at32 n lt = go (n / 8) refl
  where
    go : (d : ℕ) → n / 8 ≡ d → 8 * bit_xor d 3 + (7 - n % 8) ≡ 31 - n
    go zero e = omega arith
    go (suc zero) e = omega arith
    go (suc (suc zero)) e = omega arith
    go (suc (suc (suc zero))) e = omega arith
    go (suc (suc (suc (suc d)))) e = absurd (omega arith)

pub choose32-bit : (n key : ℕ) → n < 32 → choose32 n key ≡ (bit 32 n key == 1)
unfolding choose32 bit
choose32-bit n key lt =
    ap (λ x. x == 1)
      (byte_bit key (bit_at_a 32 n) (bit_at_b n) (unfold bit_at_b in omega arith)
        ∙ ap (λ p. shift_right p key % 2) (bit_at32 n lt))

-- The position in two stored words of eight bytes.
bit_at128 :
    (n : ℕ)
    → n < 128
    → (n < 64) × (ltb (bit_at_a 128 n) 8 ≡ true) × (8 * (bit_at_a 128 n % 8) + bit_at_b n ≡ 63 - n)
      ⊎ (64 ≤ n)
        × (ltb (bit_at_a 128 n) 8 ≡ false)
        × (8 * (bit_at_a 128 n % 8) + bit_at_b n ≡ 127 - n)
unfolding bit_at_a bit_at_b
bit_at128 n lt = go (n / 8) refl
  where
    go :
        (d : ℕ)
        → n / 8 ≡ d
        → (n < 64) × (ltb (bit_xor d 7) 8 ≡ true) × (8 * (bit_xor d 7 % 8) + (7 - n % 8) ≡ 63 - n)
          ⊎ (64 ≤ n)
            × (ltb (bit_xor d 7) 8 ≡ false)
            × (8 * (bit_xor d 7 % 8) + (7 - n % 8) ≡ 127 - n)
    go zero e = inl (omega arith, refl, omega arith)
    go (suc zero) e = inl (omega arith, refl, omega arith)
    go (suc (suc zero)) e = inl (omega arith, refl, omega arith)
    go (suc (suc (suc zero))) e = inl (omega arith, refl, omega arith)
    go (suc (suc (suc (suc zero)))) e = inl (omega arith, refl, omega arith)
    go (suc (suc (suc (suc (suc zero))))) e = inl (omega arith, refl, omega arith)
    go (suc (suc (suc (suc (suc (suc zero)))))) e = inl (omega arith, refl, omega arith)
    go (suc (suc (suc (suc (suc (suc (suc zero))))))) e = inl (omega arith, refl, omega arith)
    go (suc (suc (suc (suc (suc (suc (suc (suc zero)))))))) e = inr (omega arith, refl, omega arith)
    go (suc (suc (suc (suc (suc (suc (suc (suc (suc zero))))))))) e =
        inr (omega arith, refl, omega arith)
    go (suc (suc (suc (suc (suc (suc (suc (suc (suc (suc zero)))))))))) e =
        inr (omega arith, refl, omega arith)
    go (suc (suc (suc (suc (suc (suc (suc (suc (suc (suc (suc zero))))))))))) e =
        inr (omega arith, refl, omega arith)
    go (suc (suc (suc (suc (suc (suc (suc (suc (suc (suc (suc (suc zero)))))))))))) e =
        inr (omega arith, refl, omega arith)
    go (suc (suc (suc (suc (suc (suc (suc (suc (suc (suc (suc (suc (suc zero))))))))))))) e =
        inr (omega arith, refl, omega arith)
    go (suc (suc (suc (suc (suc (suc (suc (suc (suc (suc (suc (suc (suc (suc zero)))))))))))))) e =
        inr (omega arith, refl, omega arith)
    go
          (suc (
            suc (suc (suc (suc (suc (suc (suc (suc (suc (suc (suc (suc (suc (suc zero)))))))))))))))
          e =
        inr (omega arith, refl, omega arith)
    go
          (suc (
            suc (
              suc (suc (suc (suc (suc (suc (suc (suc (suc (suc (suc (suc (suc (suc d))))))))))))))))
          e =
        absurd (omega arith)

-- The bit of an address of two words.
unfoldable pub bit128 : ℕ → ℕ × ℕ → ℕ
bit128 n (a, b) = if ltb n 64 then bit 64 n a else bit 64 (n - 64) b

pub choose128-bit : (n : ℕ) (key : ℕ × ℕ) → n < 128 → choose128 n key ≡ (bit128 n key == 1)
unfolding choose128 bit128 bit
choose128-bit n (a, b) lt = elim (bit_at128 n lt) [
  | inl (low, first, at) ↦
      let e : ltb n 64 ≡ true = ground arith in
      rw (first, e)
        (ap (λ x. x == 1)
          (byte_bit a (bit_at_a 128 n % 8) (bit_at_b n) (unfold bit_at_b in omega arith)
            ∙ ap (λ p. shift_right p a % 2) (at ∙ omega arith)))
  | inr (high, second, at) ↦
      let e : ltb n 64 ≡ false = ground arith in
      rw (second, e)
        (ap (λ x. x == 1)
          (byte_bit b (bit_at_a 128 n % 8) (bit_at_b n) (unfold bit_at_b in omega arith)
            ∙ ap (λ p. shift_right p b % 2) (at ∙ omega arith)))
]
