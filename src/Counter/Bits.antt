-- ===== src/Counter/Bits.antt =====
-- The word operations: setting a bit makes it read true and changes no other.
use amneziawg_nt.Base.{ℕ, zero, suc, ◌+◌, ◌*◌, ◌/◌, ◌%◌, ◌≡◌, refl, ◌≢◌, ap, true, false, arith}
use amneziawg_nt.Counter.{test_bit, set_bit}

half_of_pair : (q r : ℕ) → (q * 2 + r % 2) / 2 ≡ q
half_of_pair q r = omega arith

pub test_bit-set_bit_self : (b w : ℕ) → test_bit (set_bit w b) b ≡ true
unfolding test_bit set_bit
test_bit-set_bit_self zero w = ground arith
test_bit-set_bit_self (suc b) w =
    rw (half_of_pair (set_bit (w / 2) b) w) (test_bit-set_bit_self b (w / 2))

pub test_bit-set_bit_ne : (b b' w : ℕ) → b ≢ b' → test_bit (set_bit w b) b' ≡ test_bit w b'
unfolding test_bit set_bit
test_bit-set_bit_ne zero zero w ne = absurd (ne refl)
test_bit-set_bit_ne zero (suc b') w ne = ap (λ v. test_bit v b') (omega arith)
test_bit-set_bit_ne (suc b) zero w ne = ground arith
test_bit-set_bit_ne (suc b) (suc b') w ne =
    rw (half_of_pair (set_bit (w / 2) b) w) (test_bit-set_bit_ne b b' (w / 2) (λ e. ne (ap suc e)))

pub test_bit-zero : (b : ℕ) → test_bit 0 b ≡ false
unfolding test_bit
test_bit-zero zero = refl
test_bit-zero (suc b) = test_bit-zero b
