-- ===== src/Handshake/Peering.antt =====
-- driver/noise.c: two devices that are given each other's keys.
use amneziawg_nt.Base.{Option, some, ◌≡◌, refl, ap, ◌∙◌, sym}
use amneziawg_nt.Handshake.{Bytes, Crypto, Laws, generate_public, clamp}
use amneziawg_nt.Handshake.Peer.{
  set_static_private_key, init_handshake, precompute_static_static, or_zeros, is_some,
}
use amneziawg_nt.Handshake.Messages.{IsOwn}
use amneziawg_nt.Handshake.Agreement.{Peered}

module _ (c : Crypto) (laws : Laws c) where
  set-private-key_IsOwn :
      (k p : Bytes) → generate_public c k ≡ some p → IsOwn c (set_static_private_key c k)
  unfolding set_static_private_key
  set-private-key_IsOwn k p e = record {
    present = ap is_some e;
    owned = laws.clamped k _ ∙ e ∙ ap (λ o. some (or_zeros o)) (sym e);
  }

  -- With primitives that keep their laws: if two private keys have public keys, then identities set
  -- from them and handshakes made for each other's public key and one preshared key fit together.
  pub init-Peered :
      (ka kb pa pb : Bytes) (psk : Option Bytes)
      → generate_public c ka ≡ some pa
      → generate_public c kb ≡ some pb
      → Peered c laws
          (set_static_private_key c ka)
          (set_static_private_key c kb)
          (init_handshake c (set_static_private_key c ka) pb psk)
          (init_handshake c (set_static_private_key c kb) pa psk)
  unfolding init_handshake set_static_private_key precompute_static_static
  init-Peered ka kb pa pb psk ea eb = record {
    first = set-private-key_IsOwn ka pa ea;
    second = set-private-key_IsOwn kb pb eb;
    to_second = ap or_zeros (sym eb);
    to_first = ap or_zeros (sym ea);
    precomputed =
        rw (ea, eb)
          (ap or_zeros (
            laws.agree (clamp ka) (clamp kb) pa pb (laws.clamped ka _ ∙ ea)
              (laws.clamped kb _ ∙ eb)));
    preshared = refl;
  }
