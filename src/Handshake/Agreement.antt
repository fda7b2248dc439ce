-- ===== src/Handshake/Agreement.antt =====
-- driver/noise.c: two devices that run a handshake with each other.
use mathlib.Core.Path.{subst}
use amneziawg_nt.Handshake.Session.{Session, new_session}
use amneziawg_nt.Handshake.Messages.{IsOwn, Opens, write-Opens, Replies, write-Replies}
use amneziawg_nt.Base.{
  ◌&&◌, if◌then◌else◌, none, refl, ap, sym, ◌∙◌, sym, ap, Option, ℕ, false, true, some, ◌≡◌,
}
use amneziawg_nt.Handshake.{handshake_init, Bytes, Crypto, Laws, Symmetric, generate_public}
use amneziawg_nt.Handshake.Peer.{
  consumed_response, created_response, consumed_initiation, Peers, created_initiation, Identity,
  Handshake,
}
use amneziawg_nt.Handshake.Initiation.{
  look_up, with_peer, copied, check_initiation, admit, finish_initiation, Opened, accept, is_flood,
  is_replay, consume_initiation, create_initiation, Initiation, Fresh, write_initiation,
}
use amneziawg_nt.Handshake.Response.{
  is_state, commit_response, finish_response, consume_response, create_response, Response,
  write_response, read_response,
}

module _ (c : Crypto) (laws : Laws c) where
  -- What both ends hold between the two messages.
  pub record Paired (a : Identity) (ha hb : Handshake) (index : ℕ) : Type 0 where
    pub waits : ha.state ≡ created_initiation
    pub took : hb.state ≡ consumed_initiation
    pub mixed : ha.mixed ≡ hb.mixed
    pub ephemeral : generate_public c ha.ephemeral_private ≡ some hb.remote_ephemeral
    pub static_key : generate_public c a.static_private ≡ some hb.remote_static
    pub preshared : ha.preshared_key ≡ hb.preshared_key
    pub remote : hb.remote_index ≡ index

  -- What each of two devices knows of the other.
  pub record Peered (a b : Identity) (ha hb : Handshake) : Type 0 where
    pub first : IsOwn c a
    pub second : IsOwn c b
    pub to_second : ha.remote_static ≡ b.static_public
    pub to_first : hb.remote_static ≡ a.static_public
    pub precomputed : ha.precomputed_static_static ≡ hb.precomputed_static_static
    pub preshared : ha.preshared_key ≡ hb.preshared_key

  -- A receiver that knows the peer accepts what opens for it.
  Opens-accepted :
      (hn idn : Bytes) (a b : Identity) (p : Peers) (id : ℕ) (new : Fresh) (m : Initiation)
      (t : Symmetric) (checked now : ℕ)
      → IsOwn c b
      → p.find a.static_public ≡ some id
      → is_replay (p.handshake id) new.timestamp ≡ false
      → is_flood (p.handshake id) checked ≡ false
      → Opens c laws a b (p.handshake id) new (handshake_init c hn idn b.static_public) t m
      → consume_initiation c hn idn b p m checked now
        ≡ some (
          id,
          accept
              (p.handshake id)
              (record { ephemeral = m.unencrypted_ephemeral; sender = a.static_public })
              new.timestamp
              t
              m.sender_index
              now,
        )
  unfolding consume_initiation check_initiation
  Opens-accepted hn idn a b p id new m t checked now ob ef er el o = rw (ob.present) (
      ap (λ x. copied p now (look_up c p m checked x)) o.opened
      ∙ ap (λ x. copied p now (with_peer c p m checked sender o.middle x)) ef
      ∙ ap (λ x. copied p now (admit id (p.handshake id) m sender checked x)) o.stamped
      ∙ rw (er, el) refl)
    where
      sender : Opened
      sender = record { ephemeral = m.unencrypted_ephemeral; sender = a.static_public }

  module _ (hn idn : Bytes) where
    -- With primitives that keep their laws, of two devices that know each other: an initiation that
    -- the first creates is accepted by the second, if its timestamp is newer than the last accepted
    -- one and the last was long enough ago; then both ends hold the same chaining key and hash.
    pub create-initiation_accepted :
        (a b : Identity) (ha ha' : Handshake) (p : Peers) (id : ℕ) (new : Fresh) (m : Initiation)
        (checked now : ℕ)
        → Peered a b ha (p.handshake id)
        → p.find a.static_public ≡ some id
        → is_replay (p.handshake id) new.timestamp ≡ false
        → is_flood (p.handshake id) checked ≡ false
        → create_initiation c hn idn a ha new ≡ (some m, ha')
        → (hb' : Handshake) × (consume_initiation c hn idn b p m checked now ≡ some (id, hb'))
          × Paired a ha' hb' new.index
    unfolding create_initiation accept
    create-initiation_accepted a b ha ha' p id new m checked now r ef er el e =
        go (write_initiation c a ha new start) refl (
          subst
            (λ x.
              (if x
                then finish_initiation (record ha { ephemeral_private = new.secret })
                    (write_initiation c a ha new start)
                else (none, ha))
              ≡ (some m, ha'))
            r.first.present e)
      where
        start : Symmetric
        start = handshake_init c hn idn ha.remote_static

        go :
            (w : Option Initiation × Symmetric)
            → write_initiation c a ha new start ≡ w
            → finish_initiation (record ha { ephemeral_private = new.secret }) w ≡ (some m, ha')
            → (hb' : Handshake) × (consume_initiation c hn idn b p m checked now ≡ some (id, hb'))
              × Paired a ha' hb' new.index
        go (none, t) w e = cc
        go (some m', t) w e =
            let em : m' ≡ m = cc in
            let eh : record ha {
              ephemeral_private = new.secret;
              mixed = t;
              state = created_initiation;
            }
                ≡ ha' =
              cc in
            let o : Opens c laws a b (p.handshake id) new start t m =
              write-Opens c laws a b ha (p.handshake id) new start t m r.second r.to_second
                r.precomputed (rw (sym em) w) in
            (
              _,
              Opens-accepted hn idn a b p id new m t checked now r.second ef er el (
                  subst (λ k. Opens c laws a b (p.handshake id) new (handshake_init c hn idn k) t m)
                    r.to_second o),
              record {
                waits = ap (λ h. h.state) (sym eh);
                took = refl;
                mixed = ap (λ h. h.mixed) (sym eh);
                ephemeral = ap (λ h. generate_public c h.ephemeral_private) (sym eh) ∙ o.ephemeral;
                static_key = r.first.owned ∙ ap some (sym r.to_first);
                preshared = ap (λ h. h.preshared_key) (sym eh) ∙ r.preshared;
                remote = o.index;
              },
            )

  -- Two sessions of which each sends with the other's receiving key.
  pub record Agreed (first second : Session) : Type 0 where
    pub starts : first.i_am_the_initiator ≡ true
    pub answers : second.i_am_the_initiator ≡ false
    pub forth : first.sending.key ≡ second.receiving.key
    pub back : first.receiving.key ≡ second.sending.key
    pub usable :
        first.sending.is_valid && first.receiving.is_valid && second.sending.is_valid
          && second.receiving.is_valid
        ≡ true

  read-accepted :
      (a : Identity) (h : Handshake) (m : Response) (q : Bytes) (t : Symmetric)
      → a.has_identity ≡ true
      → h.state ≡ created_initiation
      → read_response c a h m h.mixed ≡ (some q, t)
      → consume_response c a m h h
        ≡ some (record h {
          remote_ephemeral = q;
          mixed = t;
          remote_index = m.sender_index;
          state = consumed_response;
        })
  unfolding consume_response is_state
  read-accepted a h m q t present waits e =
      let created : is_state h.state created_initiation ≡ true =
        ap (λ s. is_state s created_initiation) waits in
      let same : is_state h.state h.state ≡ true = ap (λ s. is_state s s) waits in
      rw (present, created) (ap (λ x. commit_response h.state m x h) e ∙ rw same refl)

  -- With primitives that keep their laws, after an initiation was accepted: a response that the second
  -- device creates is accepted by the first, and the sessions made of both ends name each other's
  -- index, one is the initiator's, and each sends with the key that the other receives with.
  pub create-response-Agreed :
      (a : Identity) (ha hb hb' : Handshake) (index : ℕ) (new : Fresh) (m : Response)
      (ida idb nowa nowb : ℕ)
      → a.has_identity ≡ true
      → Paired a ha hb index
      → create_response c hb new ≡ (some m, hb')
      → (ha' : Handshake) × (consume_response c a m ha ha ≡ some ha')
        × (m.receiver_index ≡ index)
        × ((new_session c ha' ida nowa).remote_index ≡ new.index)
        × ((new_session c hb' idb nowb).remote_index ≡ index)
        × Agreed (new_session c ha' ida nowa) (new_session c hb' idb nowb)
  unfolding create_response new_session
  create-response-Agreed a ha hb hb' index new m ida idb nowa nowb present pair e =
      go (write_response c hb new hb.mixed) refl (
        subst
          (λ x.
            (if is_state x consumed_initiation
              then finish_response (record hb { ephemeral_private = new.secret })
                  (write_response c hb new hb.mixed)
              else (none, hb))
            ≡ (some m, hb'))
          pair.took e)
    where
      go :
          (w : Option Response × Symmetric)
          → write_response c hb new hb.mixed ≡ w
          → finish_response (record hb { ephemeral_private = new.secret }) w ≡ (some m, hb')
          → (ha' : Handshake) × (consume_response c a m ha ha ≡ some ha')
            × (m.receiver_index ≡ index)
            × ((new_session c ha' ida nowa).remote_index ≡ new.index)
            × ((new_session c hb' idb nowb).remote_index ≡ index)
            × Agreed (new_session c ha' ida nowa) (new_session c hb' idb nowb)
      go (none, t) w e = cc
      go (some m', t) w e =
          let em : m' ≡ m = cc in
          let eh : record hb { ephemeral_private = new.secret; mixed = t; state = created_response }
              ≡ hb' =
            cc in
          let o : Replies c laws a ha hb new hb.mixed t m =
            write-Replies c laws a ha hb new hb.mixed t m pair.static_key pair.ephemeral
              pair.preshared (rw (sym em) w) in
          let done : Handshake = record ha {
            remote_ephemeral = m.unencrypted_ephemeral;
            mixed = t;
            remote_index = m.sender_index;
            state = consumed_response;
          } in
          (
            done,
            read-accepted a ha m m.unencrypted_ephemeral t present pair.waits
                (ap (read_response c a ha m) pair.mixed ∙ o.read),
            o.receiver ∙ pair.remote,
            o.index,
            ap (λ h. h.remote_index) (sym eh) ∙ pair.remote,
            subst (λ h. Agreed (new_session c done ida nowa) (new_session c h idb nowb)) eh
                (record {
                  starts = refl;
                  answers = refl;
                  forth = refl;
                  back = refl;
                  usable = refl;
                }),
          )
