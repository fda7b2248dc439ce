-- ===== src/Handshake/Messages.antt =====
-- driver/noise.c: what one end writes into a message the other end reads.
use amneziawg_nt.Base.{true, some, ◌≡◌, []}
use amneziawg_nt.Handshake.{
  Crypto, Laws, Symmetric, ◌>>◌, >>=-elim, generate_public, mix_dh, message_decrypt,
}
use amneziawg_nt.Handshake.Steps.{
  open-initiation_at, read-timestamp_at, read-response_at, ephemeral_same, mix_dh_agree,
  message_decrypt-encrypt,
}
use amneziawg_nt.Handshake.Peer.{Identity, Handshake}
use amneziawg_nt.Handshake.Initiation.{
  Initiation, Fresh, write_initiation, open_initiation, read_timestamp,
}
use amneziawg_nt.Handshake.Response.{Response, write_response, read_response}

-- The identity has a public key, which is that of its private key.
pub record IsOwn (c : Crypto) (i : Identity) : Type 0 where
  pub present : i.has_identity ≡ true
  pub owned : generate_public c i.static_private ≡ some i.static_public

module _ (c : Crypto) (laws : Laws c) where
  -- The receiver reads what an initiation carries, and ends with the sender's symmetric state.
  pub record Opens (a b : Identity) (hb : Handshake) (new : Fresh) (s t : Symmetric)
      (m : Initiation) : Type 0 where
    pub index : m.sender_index ≡ new.index
    pub ephemeral : generate_public c new.secret ≡ some m.unencrypted_ephemeral
    pub middle : Symmetric
    pub opened :
        open_initiation c b m s
        ≡ (some (record { ephemeral = m.unencrypted_ephemeral; sender = a.static_public }), middle)
    pub stamped : read_timestamp c hb m middle ≡ (some new.timestamp, t)

  pub write-Opens :
      (a b : Identity) (ha hb : Handshake) (new : Fresh) (s t : Symmetric) (m : Initiation)
      → IsOwn c b
      → ha.remote_static ≡ b.static_public
      → ha.precomputed_static_static ≡ hb.precomputed_static_static
      → write_initiation c a ha new s ≡ (some m, t)
      → Opens a b hb new s t m
  unfolding write_initiation
  write-Opens a b ha hb new s t m ob er ep e = >>=-elim _ _ s t m e (λ p s1 e1 r1.
      >>=-elim _ _ s1 t m r1 (λ q s2 e2 r2. >>=-elim _ _ s2 t m r2 (λ key s3 e3 r3.
        >>=-elim _ _ s3 t m r3 (λ sealed s4 e4 r4. >>=-elim _ _ s4 t m r4 (λ key' s5 e5 r5.
          >>=-elim _ _ s5 t m r5 (λ stamped s6 e6 r6.
            let pq : p ≡ q = ephemeral_same c p q s1 s2 e2 in
            let mq : m.unencrypted_ephemeral ≡ q = cc in
            let ms : m.encrypted_static ≡ sealed = cc in
            let mt : m.encrypted_timestamp ≡ stamped = cc in
            let st : s6 ≡ t = cc in
            let ss : s1 ≡ s = cc in
            let made : generate_public c new.secret ≡ some q = cc in
            let dh : mix_dh c new.secret b.static_public s2 ≡ mix_dh c b.static_private q s2 =
              mix_dh_agree c laws new.secret b.static_private q b.static_public s2 made ob.owned in
            let d1 : message_decrypt c sealed key s3 ≡ (some a.static_public, s4) =
              message_decrypt-encrypt c laws a.static_public key sealed s3 s4 e4 in
            let d2 : message_decrypt c stamped key' s5 ≡ (some new.timestamp, s6) =
              message_decrypt-encrypt c laws new.timestamp key' stamped s5 s6 e6 in
            record {
              index = cc;
              ephemeral = cc;
              middle = s4;
              opened =
                  open-initiation_at c b m s s2 s3 s4 m.unencrypted_ephemeral key a.static_public
                    (cc) (cc) (cc);
              stamped = read-timestamp_at c hb m s4 s5 key' (some new.timestamp, t) (cc) (cc);
            }))))))

  pub record Replies (a : Identity) (ha hb : Handshake) (new : Fresh) (s t : Symmetric)
      (m : Response) : Type 0 where
    pub index : m.sender_index ≡ new.index
    pub receiver : m.receiver_index ≡ hb.remote_index
    pub read : read_response c a ha m s ≡ (some m.unencrypted_ephemeral, t)

  pub write-Replies :
      (a : Identity) (ha hb : Handshake) (new : Fresh) (s t : Symmetric) (m : Response)
      → generate_public c a.static_private ≡ some hb.remote_static
      → generate_public c ha.ephemeral_private ≡ some hb.remote_ephemeral
      → ha.preshared_key ≡ hb.preshared_key
      → write_response c hb new s ≡ (some m, t)
      → Replies a ha hb new s t m
  unfolding write_response ◌>>◌
  write-Replies a ha hb new s t m oa oe er e = >>=-elim _ _ s t m e (λ p s1 e1 r1.
      >>=-elim _ _ s1 t m r1 (λ q s2 e2 r2. >>=-elim _ _ s2 t m r2 (λ k1 s3 e3 r3.
        >>=-elim _ _ s3 t m r3 (λ k2 s4 e4 r4. >>=-elim _ _ s4 t m r4 (λ key s5 e5 r5.
          >>=-elim _ _ s5 t m r5 (λ nothing s6 e6 r6.
            let pq : p ≡ q = ephemeral_same c p q s1 s2 e2 in
            let mq : m.unencrypted_ephemeral ≡ q = cc in
            let mn : m.encrypted_nothing ≡ nothing = cc in
            let st : s6 ≡ t = cc in
            let ss : s1 ≡ s = cc in
            let made : generate_public c new.secret ≡ some q = cc in
            let d1 : mix_dh c new.secret hb.remote_ephemeral s2
                ≡ mix_dh c ha.ephemeral_private q s2 =
              mix_dh_agree c laws new.secret ha.ephemeral_private q hb.remote_ephemeral s2 made
                oe in
            let d2 : mix_dh c new.secret hb.remote_static s3 ≡ mix_dh c a.static_private q s3 =
              mix_dh_agree c laws new.secret a.static_private q hb.remote_static s3 made oa in
            let d3 : message_decrypt c nothing key s5 ≡ (some [], s6) =
              message_decrypt-encrypt c laws [] key nothing s5 s6 e6 in
            record {
              index = cc;
              receiver = cc;
              read =
                  read-response_at c a ha m s s2 s3 s4 s5 t m.unencrypted_ephemeral k1 k2 key []
                    (cc) (cc) (cc) (cc) (cc);
            }))))))
