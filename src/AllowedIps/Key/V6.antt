-- ===== src/AllowedIps/Key/V6.antt =====
-- The 128-bit keys satisfy what the tree relies on.
use native.Mathlib.Decide.{dec_lt, ℕ_discrete}
use amneziawg_nt.Base.{
  ℕ, ◌+◌, ◌-◌, ◌≤◌, ◌<◌, ◌≡◌, ◌≢◌, ap, ◌⊎◌, inl, inr, true, false, ltb, ◌==◌, arith,
}
use amneziawg_nt.AllowedIps.Laws.{KeyLaws}
use amneziawg_nt.AllowedIps.Key.{common_bits128, find_last_set128, ops128, xor, find_last_set}
use amneziawg_nt.AllowedIps.Key.Shared.{
  shared_bits, shared_bits_self, shared_bits_comm, shared_bits-le, shared_bits_trans, bit,
  bit_shared, bit_differs, last_set-le, last_set_zero, last_set-zero,
}
use amneziawg_nt.AllowedIps.Key.Bit.{choose128-bit, bit128}
use amneziawg_nt.AllowedIps.Key.V4.{digit_tests}

-- The first words decide where they differ.
common_bits128_cases :
    (a b : ℕ × ℕ)
    → (shared_bits 64 a.0 b.0 ≡ 64) × (common_bits128 a b ≡ 64 + shared_bits 64 a.1 b.1)
      ⊎ (shared_bits 64 a.0 b.0 < 64) × (common_bits128 a b ≡ shared_bits 64 a.0 b.0)
unfolding common_bits128 find_last_set128 shared_bits
common_bits128_cases (a, a') (b, b') = elim (ℕ_discrete (xor 64 a b) 0) [
  | yes e ↦
      inl (
        rw (e, last_set_zero 64) (omega arith),
        rw e (omega (arith, last_set-le 64 (xor 64 a' b'))),
      )
  | no ne ↦
      let e : (xor 64 a b == 0) ≡ false = ground arith in
      inr (positive ne, rw e (omega (arith, last_set-le 64 (xor 64 a b))))
]
  where
    positive : xor 64 a b ≢ 0 → shared_bits 64 a b < 64
    positive ne = elim (ℕ_discrete (find_last_set 64 (xor 64 a b)) 0) [
      | yes e ↦ absurd (ne (last_set-zero 64 a b e))
      | no pos ↦ omega arith
    ]

common_bits128_self : (a : ℕ × ℕ) → common_bits128 a a ≡ 128
common_bits128_self a =
    omega (arith, common_bits128_cases a a, shared_bits_self 64 a.0, shared_bits_self 64 a.1)

common_bits128_comm : (a b : ℕ × ℕ) → common_bits128 a b ≡ common_bits128 b a
common_bits128_comm a b = omega (
  arith,
  common_bits128_cases a b,
  common_bits128_cases b a,
  shared_bits_comm 64 a.0 b.0,
  shared_bits_comm 64 a.1 b.1,
)

common_bits128-le : (a b : ℕ × ℕ) → common_bits128 a b ≤ 128
common_bits128-le a b = omega (arith, common_bits128_cases a b, shared_bits-le 64 a.1 b.1)

common_bits128_trans :
    (a b c : ℕ × ℕ) (n : ℕ)
    → n ≤ common_bits128 a b
    → n ≤ common_bits128 b c
    → n ≤ common_bits128 a c
common_bits128_trans a b c n h h' = elim (dec_lt 64 n) [
  | yes far ↦
      let first =
        shared_bits_trans 64 a.0 b.0 c.0 64 (omega (arith, common_bits128_cases a b))
          (omega (arith, common_bits128_cases b c)) in
      let second =
        shared_bits_trans 64 a.1 b.1 c.1 (n - 64) (omega (arith, common_bits128_cases a b))
          (omega (arith, common_bits128_cases b c)) in
      omega (arith, common_bits128_cases a c, first, second)
  | no near ↦ omega (
    arith,
    common_bits128_cases a b,
    common_bits128_cases b c,
    common_bits128_cases a c,
    shared_bits_trans 64 a.0 b.0 c.0 n,
  )
]

bit128_shared : (n : ℕ) (a b : ℕ × ℕ) → n < common_bits128 a b → bit128 n a ≡ bit128 n b
unfolding bit128
bit128_shared n (a, a') (b, b') lt = elim (dec_lt n 64) [
  | yes low ↦
      let e : ltb n 64 ≡ true = ground arith in
      rw e (bit_shared 64 n a b (omega (arith, common_bits128_cases (a, a') (b, b'))))
  | no high ↦
      let e : ltb n 64 ≡ false = ground arith in
      rw e (bit_shared 64 (n - 64) a' b' (omega (arith, common_bits128_cases (a, a') (b, b'))))
]

bit128_differs : (n : ℕ) (a b : ℕ × ℕ) → common_bits128 a b ≡ n → n < 128 → bit128 n a ≢ bit128 n b
unfolding bit128
bit128_differs n (a, a') (b, b') e lt = elim (dec_lt n 64) [
  | yes low ↦
      let e' : ltb n 64 ≡ true = ground arith in
      rw e' (bit_differs 64 n a b (omega (arith, common_bits128_cases (a, a') (b, b'))) low)
  | no high ↦
      let e' : ltb n 64 ≡ false = ground arith in
      rw e' (
        bit_differs 64 (n - 64) a' b' (omega (arith, common_bits128_cases (a, a') (b, b')))
          (omega arith))
]

bit128-lt : (n : ℕ) (a : ℕ × ℕ) → bit128 n a < 2
unfolding bit128 bit
bit128-lt n (a, a') = ground arith

pub laws128 : KeyLaws ops128
laws128 = record {
  common_self = common_bits128_self;
  common_comm = common_bits128_comm;
  common-le = common_bits128-le;
  common_trans = common_bits128_trans;
  choose_same = λ a b n lt.
      let fits : n < 128 = omega (arith, common_bits128-le a b) in
      rw (choose128-bit n a fits, choose128-bit n b fits)
        (ap (λ x. x == 1) (bit128_shared n a b lt));
  choose_ne = λ a b n e lt.
      rw (choose128-bit n a lt, choose128-bit n b lt)
        (λ same. bit128_differs n a b e lt (digit_tests _ _ (bit128-lt n a) (bit128-lt n b) same));
}
