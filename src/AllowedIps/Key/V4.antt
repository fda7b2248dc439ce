-- ===== src/AllowedIps/Key/V4.antt =====
-- The 32-bit keys satisfy what the tree relies on.
use amneziawg_nt.Base.{ℕ, ◌<◌, ◌≡◌, ◌≢◌, refl, sym, ap, ◌∙◌, ◌==◌, arith}
use amneziawg_nt.AllowedIps.Laws.{KeyLaws}
use amneziawg_nt.AllowedIps.Key.{common_bits32, ops32}
use amneziawg_nt.AllowedIps.Key.Shared.{
  shared_bits, shared_bits_self, shared_bits_comm, shared_bits-le, shared_bits_trans, bit,
  bit_shared, bit_differs,
}
use amneziawg_nt.AllowedIps.Key.Bit.{choose32-bit}

common_bits32-shared : (a b : ℕ) → common_bits32 a b ≡ shared_bits 32 a b
unfolding common_bits32 shared_bits
common_bits32-shared a b = refl

pub digit_tests : (x y : ℕ) → x < 2 → y < 2 → (x == 1) ≡ (y == 1) → x ≡ y
digit_tests x y lx ly e = ground arith

digit_ne : (w n a b : ℕ) → bit w n a ≢ bit w n b → (bit w n a == 1) ≢ (bit w n b == 1)
unfolding bit
digit_ne w n a b ne e = ne (digit_tests _ _ (omega arith) (omega arith) e)

pub laws32 : KeyLaws ops32
laws32 = record {
  common_self = λ a. rw (common_bits32-shared a a) (shared_bits_self 32 a);
  common_comm =
      λ a b. rw (common_bits32-shared a b, common_bits32-shared b a) (shared_bits_comm 32 a b);
  common-le = λ a b. rw (common_bits32-shared a b) (shared_bits-le 32 a b);
  common_trans = λ a b c n.
      rw (common_bits32-shared a b, common_bits32-shared b c, common_bits32-shared a c)
        (shared_bits_trans 32 a b c n);
  choose_same = λ a b n lt.
      let below : n < shared_bits 32 a b = rw (sym (common_bits32-shared a b)) lt in
      let fits : n < 32 = omega (arith, shared_bits-le 32 a b) in
      rw (choose32-bit n a fits, choose32-bit n b fits)
        (ap (λ x. x == 1) (bit_shared 32 n a b below));
  choose_ne = λ a b n e lt.
      rw (choose32-bit n a lt, choose32-bit n b lt)
        (digit_ne 32 n a b (bit_differs 32 n a b (sym (common_bits32-shared a b) ∙ e) lt));
}
