-- ===== src/AllowedIps/Laws.antt =====
-- What the tree relies on: common lengths are an ultrametric, and the next bit tells keys apart.
use amneziawg_nt.Base.{ℕ, ◌≤◌, ◌<◌, ◌≡◌, ◌≢◌}
use amneziawg_nt.AllowedIps.{KeyOps}

pub record KeyLaws {Key : Type 0} (ops : KeyOps Key) : Type 0 where
  pub common_self : (a : Key) → ops.common a a ≡ ops.bits
  pub common_comm : (a b : Key) → ops.common a b ≡ ops.common b a
  pub common-le : (a b : Key) → ops.common a b ≤ ops.bits
  pub common_trans :
      (a b c : Key) (n : ℕ) → n ≤ ops.common a b → n ≤ ops.common b c → n ≤ ops.common a c
  pub choose_same : (a b : Key) (n : ℕ) → n < ops.common a b → ops.choose n a ≡ ops.choose n b
  pub choose_ne :
      (a b : Key) (n : ℕ) → ops.common a b ≡ n → n < ops.bits → ops.choose n a ≢ ops.choose n b
