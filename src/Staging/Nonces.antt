-- ===== src/Staging/Nonces.antt =====
-- driver/send.c: the nonces of the packets that are sent.
use mathlib.Core.Path.{subst}
use amneziawg_nt.Cookies.{birthdate_has_expired}
use amneziawg_nt.Staging.{
  StagingEvent, stage, steal, purge, send_stolen, requeue, look, give_back, pick, requeue_first,
  requeue_packet, stage_packet, steal_staged_packets, purge_staged_packets, send_stolen_packets,
  staging_step, staging_run, reject_key_after_time, is_stale,
}
use amneziawg_nt.Base.{
  ℕ, zero, suc, ◌+◌, ◌≤◌, ◌<◌, Bool, true, false, Option, none, some, List, [], ◌∷◌, ◌++◌, ◌≡◌,
  refl, sym, arith, Bool-cases, inl, inr, leb, if◌then◌else◌,
}
use amneziawg_nt.Counter.{reject_after_messages}
use amneziawg_nt.Staging.{
  StagedPacket, SendingKey, Staging, Assigned, assign_buffers, assign, send_assigned, send_with,
  send_unless_empty, keep_key_fresh,
}

-- Numbers that grow from one bound to another, all below the limit of nonces.
abbrev pub Rising : ℕ → List ℕ → ℕ → Type 0
Rising a [] b = a ≤ b
Rising a (n ∷ ns) b = (a ≤ n) × (n < reject_after_messages) × Rising (suc n) ns b

Rising-++ : (a b c : ℕ) (ns ms : List ℕ) → Rising a ns b → Rising b ms c → Rising a (ns ++ ms) c
Rising-++ a b c [] [] r q = omega arith
Rising-++ a b c [] (m ∷ ms) (r) (q, l, t) = (omega (arith, r, q), l, t)
Rising-++ a b c (n ∷ ns) ms (q, l, t) r = (q, l, Rising-++ (suc n) b c ns ms t r)

Rising-bound : (a b : ℕ) (ns : List ℕ) → Rising a ns b → a ≤ b
Rising-bound a b [] r = r
Rising-bound a b (n ∷ ns) (q, l, t) = omega (arith, q, Rising-bound (suc n) b ns t)

Rising-widen : (a b c : ℕ) (ns : List ℕ) → Rising a ns b → b ≤ c → Rising a ns c
Rising-widen a b c [] r h = omega (arith, r, h)
Rising-widen a b c (n ∷ ns) (q, l, t) h = (q, l, Rising-widen (suc n) b c ns t h)

-- What an assignment gives, complete or not.
record IsAssigned (c : ℕ) (a : Assigned) : Type 0 where
  rising : Rising c a.taken a.next
  limit : c ≤ reject_after_messages → a.next ≤ reject_after_messages + 1
  under : c ≤ reject_after_messages → a.complete ≡ true → a.next ≤ reject_after_messages

assign-buffers_lem : (c n : ℕ) → IsAssigned c (assign_buffers c n)
unfolding assign_buffers
assign-buffers_lem c zero = record {
  rising = omega arith;
  limit = λ h. omega arith;
  under = λ h e. h;
}
assign-buffers_lem c (suc n) = elim (Bool-cases (leb reject_after_messages c)) [
  | inl e ↦ rw e (record { rising = omega arith; limit = λ h. omega arith; under = λ h k. cc })
  | inr e ↦
      let r : IsAssigned (suc c) (assign_buffers (suc c) n) = assign-buffers_lem (suc c) n in
      let below : c < reject_after_messages = ground arith in
      rw e (record {
        rising = (omega arith, below, r.rising);
        limit = λ h. r.limit (omega (arith, below));
        under = λ h k. r.under (omega (arith, below)) k;
      })
]

assign_lem : (c : ℕ) (ps : List StagedPacket) → IsAssigned c (assign c ps)
unfolding assign
assign_lem c [] = record { rising = omega arith; limit = λ h. omega arith; under = λ h e. h }
assign_lem c (p ∷ ps) =
    let f : IsAssigned c (assign_buffers c p.buffers) = assign-buffers_lem c p.buffers in
    let r : IsAssigned (assign_buffers c p.buffers).next
        (assign (assign_buffers c p.buffers).next ps) =
      assign_lem (assign_buffers c p.buffers).next ps in
    elim (Bool-cases (assign_buffers c p.buffers).complete) [
      | inl e ↦ rw e (record {
        rising = Rising-++ c _ _ (assign_buffers c p.buffers).taken _ f.rising r.rising;
        limit = λ h. r.limit (f.under h e);
        under = λ h k. r.under (f.under h e) k;
      })
      | inr e ↦ rw e f
    ]

-- The nonces used rise to the counter, which stays below the limit while the key is valid.
abbrev pub IsCounted : List ℕ → Option SendingKey → Type 0
IsCounted nonces none = nonces ≡ []
IsCounted nonces (some k) =
    Rising 0 nonces k.counter
    × (k.is_valid ≡ true → k.counter ≤ reject_after_messages)
    × (k.counter ≤ reject_after_messages + 1)

send-assigned-IsCounted :
    (s : Staging) (k : SendingKey) (ps : List StagedPacket)
    → IsCounted s.nonces (some k)
    → k.is_valid ≡ true
    → IsCounted
        (send_assigned s k ps (assign k.counter ps)).nonces
        (send_assigned s k ps (assign k.counter ps)).key
send-assigned-IsCounted s k ps (r, v, l) valid =
    let a : IsAssigned k.counter (assign k.counter ps) = assign_lem k.counter ps in
    elim (Bool-cases (assign k.counter ps).complete) [
      | inl e ↦ rw e (
        Rising-++ 0 k.counter _ s.nonces _ r a.rising,
        (λ h. a.under (v valid) e),
        a.limit (v valid),
      )
      | inr e ↦ rw e (
        Rising-widen 0 k.counter _ s.nonces r
            (Rising-bound _ _ (assign k.counter ps).taken a.rising),
        (λ h. cc),
        a.limit (v valid),
      )
    ]

send-with-IsCounted :
    (s : Staging) (now : ℕ) (ps : List StagedPacket) (o : Option SendingKey)
    → IsCounted s.nonces o
    → s.key ≡ o
    → IsCounted (send_with s now ps o).nonces (send_with s now ps o).key
send-with-IsCounted s now ps none c e = subst (IsCounted s.nonces) (sym e) c
send-with-IsCounted s now ps (some k) c e =
    go k.is_valid (birthdate_has_expired k.birthdate reject_key_after_time now) refl
  where
    go :
        (valid old : Bool)
        → k.is_valid ≡ valid
        → let s' : Staging =
            if valid
            then if old
              then give_back (record s { key = some (record k { is_valid = false }) }) ps
              else send_assigned s k ps (assign k.counter ps)
            else give_back s ps in
          IsCounted s'.nonces s'.key
    go false old v = subst (IsCounted s.nonces) (sym e) c
    go true true v = (c.0, (λ h. cc), c.2)
    go true false v = send-assigned-IsCounted s k ps c v

send-IsCounted :
    (s : Staging) (now : ℕ) (q : List StagedPacket)
    → IsCounted s.nonces s.key
    → IsCounted (send_unless_empty s now q).nonces (send_unless_empty s now q).key
send-IsCounted s now [] c = c
send-IsCounted s now (p ∷ ps) c = send-with-IsCounted s now (p ∷ ps) s.key c refl

requeue-IsCounted :
    (s : Staging) (ps : List StagedPacket) (bs : List (List StagedPacket))
    → IsCounted s.nonces s.key
    → IsCounted (requeue_first s ps bs).nonces (requeue_first s ps bs).key
requeue-IsCounted s [] bs c = c
requeue-IsCounted s (p ∷ ps) bs c = c

look-IsCounted :
    (s : Staging) (now : ℕ)
    → IsCounted s.nonces s.key
    → IsCounted (keep_key_fresh s now).nonces (keep_key_fresh s now).key
unfolding keep_key_fresh
look-IsCounted s now c = elim (Bool-cases (is_stale now s.key)) [ inl e ↦ rw e c | inr e ↦ rw e c ]

-- In every sequence of calls under one keypair: the nonces used so far rise, are below the limit of
-- messages and below the keypair's counter, and the counter is at most one above the limit; so no
-- nonce is used twice.
pub run-IsCounted :
    (es : List StagingEvent) (s : Staging)
    → IsCounted s.nonces s.key
    → IsCounted (staging_run s es).nonces (staging_run s es).key
unfolding staging_run staging_step requeue_packet stage_packet steal_staged_packets
    purge_staged_packets send_stolen_packets
run-IsCounted [] s c = c
run-IsCounted (stage p ∷ es) s c = run-IsCounted es (staging_step s (stage p)) c
run-IsCounted (steal ∷ es) s c = run-IsCounted es (staging_step s steal) c
run-IsCounted (purge ∷ es) s c = run-IsCounted es (staging_step s purge) c
run-IsCounted (send_stolen i now ∷ es) s c =
    run-IsCounted es (staging_step s (send_stolen i now))
      (send-IsCounted (record s { stolen = (pick i s.stolen).1 }) now (pick i s.stolen).0 c)
run-IsCounted (requeue i ∷ es) s c =
    run-IsCounted es (staging_step s (requeue i))
      (requeue-IsCounted s (pick i s.returning).0 (pick i s.returning).1 c)
run-IsCounted (look now ∷ es) s c =
    run-IsCounted es (staging_step s (look now)) (look-IsCounted s now c)
