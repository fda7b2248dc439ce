-- ===== src/Staging/Padding.antt =====
-- driver/send.c: the padding of a data packet.
use amneziawg_nt.Base.{ℕ, ◌+◌, ◌%◌, ◌≤◌, ◌<◌, ◌≡◌, ◌⊎◌, arith}
use amneziawg_nt.Staging.{calculate_padding}

-- For a packet that is not longer than the MTU, which is set and below 2^31: the padding is less than
-- 16 bytes, the padded packet is not longer than the MTU, and its length is a multiple of 16 or the
-- MTU itself.
pub calculate_padding_bounds :
    (len mtu : ℕ)
    → 0 < mtu
    → mtu < 2147483648
    → len ≤ mtu
    → (calculate_padding len mtu < 16)
      × (len + calculate_padding len mtu ≤ mtu)
      × (((len + calculate_padding len mtu) % 16 ≡ 0) ⊎ (len + calculate_padding len mtu ≡ mtu))
unfolding calculate_padding
calculate_padding_bounds len mtu h k l = ground arith
