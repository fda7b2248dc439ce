-- ===== src/AllowedIps/Key/Shared.antt =====
-- The number of leading bits that two words share, by the words without their last bit.
use native.Mathlib.Decide.{dec_lt, ℕ_discrete}
use amneziawg_nt.Base.{
  ℕ, zero, suc, ◌-◌, ◌/◌, ◌%◌, ◌≤◌, ◌<◌, ◌≡◌, ◌≢◌, refl, ap, ◌⊎◌, inl, inr, arith,
}
use amneziawg_nt.AllowedIps.Key.{xor, find_last_set, shift_right}

-- `w - FindLastSet (a ^ b)` on words of `w` bits.
unfoldable pub shared_bits : ℕ → ℕ → ℕ → ℕ
shared_bits w a b = w - find_last_set w (xor w a b)

pub last_set-le : (w x : ℕ) → find_last_set w x ≤ w
unfolding find_last_set
last_set-le zero x = omega arith
last_set-le (suc w) x = ground (arith, last_set-le w (x / 2))

last_set_positive : (w x : ℕ) → x ≢ 0 → find_last_set (suc w) x ≡ suc (find_last_set w (x / 2))
unfolding find_last_set
last_set_positive w x ne = ground arith

pub last_set_zero : (w : ℕ) → find_last_set w 0 ≡ 0
unfolding find_last_set
last_set_zero zero = refl
last_set_zero (suc w) = refl

xor_half : (w a b : ℕ) → xor (suc w) a b / 2 ≡ xor w (a / 2) (b / 2)
unfolding xor
xor_half w a b = omega arith

xor_zero_iff : (w a b : ℕ) → xor (suc w) a b ≡ 0 → (a % 2 ≡ b % 2) × (xor w (a / 2) (b / 2) ≡ 0)
unfolding xor
xor_zero_iff w a b e = (omega arith, omega arith)

pub last_set-zero : (w a b : ℕ) → find_last_set w (xor w a b) ≡ 0 → xor w a b ≡ 0
unfolding find_last_set
last_set-zero zero a b e = unfold xor in refl
last_set-zero (suc w) a b e = ground arith

xor_zero : (w a b : ℕ) → xor w (a / 2) (b / 2) ≡ 0 → a % 2 ≡ b % 2 → xor (suc w) a b ≡ 0
unfolding xor
xor_zero w a b e same = omega arith

-- All bits are shared where all but the last are and the last ones are equal.
shared_all :
    (w a b : ℕ)
    → shared_bits w (a / 2) (b / 2) ≡ w
    → a % 2 ≡ b % 2
    → shared_bits (suc w) a b ≡ suc w
unfolding shared_bits
shared_all w a b e same =
    rw
      (
        xor_zero w a b
            (last_set-zero w (a / 2) (b / 2)
              (omega (arith, e, last_set-le w (xor w (a / 2) (b / 2)))))
            same,
        last_set_zero (suc w),
      )
      (omega arith)

shared_last : (w a b : ℕ) → a % 2 ≢ b % 2 → shared_bits (suc w) a b ≡ shared_bits w (a / 2) (b / 2)
unfolding shared_bits
shared_last w a b ne =
    rw (last_set_positive w (xor (suc w) a b) (λ e. ne (xor_zero_iff w a b e).0), xor_half w a b)
      (omega arith)

shared_some :
    (w a b : ℕ)
    → shared_bits w (a / 2) (b / 2) < w
    → shared_bits (suc w) a b ≡ shared_bits w (a / 2) (b / 2)
unfolding shared_bits
shared_some w a b lt =
    rw
      (
        last_set_positive w (xor (suc w) a b) (λ e. some_differ (xor_zero_iff w a b e).1),
        xor_half w a b,
      )
      (omega arith)
  where
    some_differ : xor w (a / 2) (b / 2) ≢ 0
    some_differ e = omega (arith, lt, last_set_zero w, ap (find_last_set w) e)

pub shared_bits-le : (w a b : ℕ) → shared_bits w a b ≤ w
unfolding shared_bits
shared_bits-le w a b = omega arith

pub shared_bits-suc :
    (w a b : ℕ)
    → ((shared_bits (suc w) a b ≡ suc w) × (shared_bits w (a / 2) (b / 2) ≡ w) × (a % 2 ≡ b % 2))
      ⊎ (shared_bits (suc w) a b ≡ shared_bits w (a / 2) (b / 2))
        × ((shared_bits w (a / 2) (b / 2) < w) ⊎ (a % 2 ≢ b % 2))
shared_bits-suc w a b = elim (dec_lt (shared_bits w (a / 2) (b / 2)) w) [
  | yes lt ↦ inr (shared_some w a b lt, inl lt)
  | no ge ↦
      let full : shared_bits w (a / 2) (b / 2) ≡ w =
        omega (arith, shared_bits-le w (a / 2) (b / 2)) in
      elim (ℕ_discrete (a % 2) (b % 2)) [
        | yes same ↦ inl (shared_all w a b full same, full, same)
        | no other ↦ inr (shared_last w a b other, inr other)
      ]
]

pub shared_bits_self : (w a : ℕ) → shared_bits w a a ≡ w
shared_bits_self zero a = omega (arith, shared_bits-le 0 a a)
shared_bits_self (suc w) a = shared_all w a a (shared_bits_self w (a / 2)) refl

pub shared_bits_comm : (w a b : ℕ) → shared_bits w a b ≡ shared_bits w b a
shared_bits_comm zero a b = omega (arith, shared_bits-le 0 a b, shared_bits-le 0 b a)
shared_bits_comm (suc w) a b =
    omega (arith, shared_bits_comm w (a / 2) (b / 2), shared_bits-suc w a b, shared_bits-suc w b a)

pub shared_bits_trans :
    (w a b c n : ℕ) → n ≤ shared_bits w a b → n ≤ shared_bits w b c → n ≤ shared_bits w a c
shared_bits_trans zero a b c n h h' = omega (arith, shared_bits-le 0 a b)
shared_bits_trans (suc w) a b c n h h' = elim (dec_lt w n) [
  | yes top ↦ omega (
    arith,
    shared_bits-suc w a b,
    shared_bits-suc w b c,
    shared_bits-suc w a c,
    shared_bits-le w (a / 2) (b / 2),
    shared_bits-le w (b / 2) (c / 2),
    shared_bits_trans w (a / 2) (b / 2) (c / 2) w,
  )
  | no low ↦ omega (
    arith,
    shared_bits-suc w a b,
    shared_bits-suc w b c,
    shared_bits-suc w a c,
    shared_bits-le w (a / 2) (b / 2),
    shared_bits-le w (b / 2) (c / 2),
    shared_bits_trans w (a / 2) (b / 2) (c / 2) n,
  )
]

-- The bit at position `n`, counted from the highest of `w`.
unfoldable pub bit : ℕ → ℕ → ℕ → ℕ
bit w n a = shift_right (w - 1 - n) a % 2

bit-suc : (w n a : ℕ) → n < w → bit (suc w) n a ≡ bit w n (a / 2)
unfolding bit shift_right
bit-suc w n a lt = let e : suc w - 1 - n ≡ suc (w - 1 - n) = omega arith in rw e refl

bit_last : (w a : ℕ) → bit (suc w) w a ≡ a % 2
unfolding bit shift_right
bit_last w a = let e : suc w - 1 - w ≡ 0 = omega arith in rw e refl

-- Positions below the shared length hold one bit, and the next position two.
pub bit_shared : (w n a b : ℕ) → n < shared_bits w a b → bit w n a ≡ bit w n b
bit_shared zero n a b lt = absurd (omega (arith, shared_bits-le 0 a b))
bit_shared (suc w) n a b lt = elim (dec_lt n w) [
  | yes low ↦
      rw (bit-suc w n a low, bit-suc w n b low)
        (bit_shared w n (a / 2) (b / 2) (omega (arith, shared_bits-suc w a b)))
  | no top ↦
      let e : n ≡ w = omega (arith, shared_bits-le (suc w) a b) in
      rw (e, bit_last w a, bit_last w b)
        (omega (arith, shared_bits-suc w a b, shared_bits-le w (a / 2) (b / 2)))
]

pub bit_differs : (w n a b : ℕ) → shared_bits w a b ≡ n → n < w → bit w n a ≢ bit w n b
bit_differs zero n a b e lt = absurd (omega arith)
bit_differs (suc w) n a b e lt = elim (dec_lt n w) [
  | yes low ↦
      rw (bit-suc w n a low, bit-suc w n b low)
        (bit_differs w n (a / 2) (b / 2) (omega (arith, shared_bits-suc w a b)) low)
  | no top ↦
      let e' : n ≡ w = omega arith in
      rw (e', bit_last w a, bit_last w b)
        (omega (arith, shared_bits-suc w a b, shared_bits-le w (a / 2) (b / 2)))
]
