-- ===== src/Staging/Packets.antt =====
-- driver/send.c, driver/device.c: what becomes of the packets that are staged.
use amneziawg_nt.Cookies.{birthdate_has_expired}
use amneziawg_nt.Base.{
  ℕ, suc, zero, ◌+◌, Bool, true, false, Option, none, some, List, [], ◌∷◌, ◌++◌, ◌≡◌, refl,
  Bool-cases, inl, inr, map, if◌then◌else◌, count, arith, ◌==◌, ltb, length,
}
use amneziawg_nt.Staging.{
  StagedPacket, SendingKey, Staging, Assigned, assign, packet_id, send_assigned, send_with,
  give_back, send_unless_empty, send_stolen_packets, steal_staged_packets, purge_staged_packets,
  stage_packet, requeue_packet, requeue_first, pick, discard_excess, max_staged_packets,
  keep_key_fresh, is_stale, reject_key_after_time, StagingEvent, stage, steal, purge, send_stolen,
  requeue, look, staging_step, staging_run,
}

-- How often a number stands among packets, and among the packets of several calls.
abbrev pub count_packets : ℕ → List StagedPacket → ℕ
count_packets n [] = 0
count_packets n (p ∷ ps) = let rest = count_packets n ps in if n == p.id then suc rest else rest

abbrev pub count_calls : ℕ → List (List StagedPacket) → ℕ
count_calls n [] = 0
count_calls n (b ∷ bs) = count_packets n b + count_calls n bs

-- The packets that were staged.
abbrev pub count_staged : ℕ → List StagingEvent → ℕ
count_staged n [] = 0
count_staged n (stage p ∷ es) = let rest = count_staged n es in if n == p.id then suc rest else rest
count_staged n (_ ∷ es) = count_staged n es

-- The packets that are sent, given up, in the queue, or in the hands of a call.
abbrev pub whereabouts : ℕ → Staging → ℕ
whereabouts n s =
    count n s.sent
    + count n s.discarded
    + count_packets n s.queue
    + count_calls n s.stolen
    + count_calls n s.returning

count-map :
    (n : ℕ) (xs : List ℕ) (ps : List StagedPacket)
    → count n (xs ++ map packet_id ps) ≡ count n xs + count_packets n ps
count-map n [] [] = omega arith
count-map n [] (p ∷ ps) = ground (arith, count-map n [] ps)
count-map n (x ∷ xs) ps = ground (arith, count-map n xs ps)

count-packets-append :
    (n : ℕ) (qs : List StagedPacket) (p : StagedPacket)
    → count_packets n (qs ++ p ∷ []) ≡ count_packets n qs + (if n == p.id then 1 else 0)
count-packets-append n [] p = ground arith
count-packets-append n (q ∷ qs) p = ground (arith, count-packets-append n qs p)

count-pick :
    (n i : ℕ) (bs : List (List StagedPacket))
    → count_packets n (pick i bs).0 + count_calls n (pick i bs).1 ≡ count_calls n bs
count-pick n i [] = omega arith
count-pick n zero (b ∷ bs) = omega arith
count-pick n (suc i) (b ∷ bs) = omega (arith, count-pick n i bs)

count-discard-excess :
    (n : ℕ) (ps : List StagedPacket)
    → count_packets n (discard_excess ps).0 + count_packets n (discard_excess ps).1
      ≡ count_packets n ps
unfolding discard_excess
count-discard-excess n [] = omega arith
count-discard-excess n (p ∷ ps) = elim (Bool-cases (ltb max_staged_packets (length (p ∷ ps)))) [
  | inl e ↦ rw e (ground (arith, count-discard-excess n ps))
  | inr e ↦ rw e (omega arith)
]

send-assigned_whereabouts :
    (n : ℕ) (s : Staging) (k : SendingKey) (ps : List StagedPacket) (a : Assigned)
    → whereabouts n (send_assigned s k ps a) ≡ count_packets n ps + whereabouts n s
send-assigned_whereabouts n s k ps a = elim (Bool-cases a.complete) [
  | inl e ↦ rw e (omega (arith, count-map n s.sent ps))
  | inr e ↦ rw e (omega arith)
]

send-with_whereabouts :
    (n : ℕ) (s : Staging) (now : ℕ) (ps : List StagedPacket) (o : Option SendingKey)
    → whereabouts n (send_with s now ps o) ≡ count_packets n ps + whereabouts n s
send-with_whereabouts n s now ps none = omega arith
send-with_whereabouts n s now ps (some k) =
    go k.is_valid (birthdate_has_expired k.birthdate reject_key_after_time now)
  where
    go :
        (valid old : Bool)
        → whereabouts n (
            if valid
            then if old
              then give_back (record s { key = some (record k { is_valid = false }) }) ps
              else send_assigned s k ps (assign k.counter ps)
            else give_back s ps)
          ≡ count_packets n ps + whereabouts n s
    go false old = omega arith
    go true true = omega arith
    go true false = send-assigned_whereabouts n s k ps (assign k.counter ps)

send_whereabouts :
    (n : ℕ) (s : Staging) (now : ℕ) (ps : List StagedPacket)
    → whereabouts n (send_unless_empty s now ps) ≡ count_packets n ps + whereabouts n s
send_whereabouts n s now [] = omega arith
send_whereabouts n s now (p ∷ ps) = send-with_whereabouts n s now (p ∷ ps) s.key

requeue_whereabouts :
    (n : ℕ) (s : Staging) (ps : List StagedPacket) (bs : List (List StagedPacket))
    → count_packets n ps + count_calls n bs ≡ count_calls n s.returning
    → whereabouts n (requeue_first s ps bs) ≡ whereabouts n s
requeue_whereabouts n s [] bs e = omega (arith, e)
requeue_whereabouts n s (p ∷ ps) bs e = ground (arith, e, count-packets-append n s.queue p)

look_whereabouts :
    (n : ℕ) (s : Staging) (now : ℕ) → whereabouts n (keep_key_fresh s now) ≡ whereabouts n s
unfolding keep_key_fresh
look_whereabouts n s now = elim (Bool-cases (is_stale now s.key)) [
  | inl e ↦ rw e refl
  | inr e ↦ rw e refl
]

step_whereabouts :
    (n : ℕ) (s : Staging) (e : StagingEvent)
    → whereabouts n (staging_step s e) ≡ whereabouts n s + count_staged n (e ∷ [])
unfolding staging_step stage_packet steal_staged_packets purge_staged_packets send_stolen_packets
    requeue_packet
step_whereabouts n s (stage p) = omega (
  arith,
  count-map n s.discarded (discard_excess s.queue).0,
  count-packets-append n (discard_excess s.queue).1 p,
  count-discard-excess n s.queue,
)
step_whereabouts n s steal = omega arith
step_whereabouts n s purge = omega (arith, count-map n s.discarded s.queue)
step_whereabouts n s (send_stolen i now) = omega (
  arith,
  send_whereabouts n (record s { stolen = (pick i s.stolen).1 }) now (pick i s.stolen).0,
  count-pick n i s.stolen,
)
step_whereabouts n s (requeue i) = omega (
  arith,
  requeue_whereabouts n s (pick i s.returning).0 (pick i s.returning).1
      (count-pick n i s.returning),
)
step_whereabouts n s (look now) = omega (arith, look_whereabouts n s now)

count-staged-cons :
    (n : ℕ) (e : StagingEvent) (es : List StagingEvent)
    → count_staged n (e ∷ es) ≡ count_staged n (e ∷ []) + count_staged n es
count-staged-cons n (stage p) es = ground arith
count-staged-cons n steal es = omega arith
count-staged-cons n purge es = omega arith
count-staged-cons n (send_stolen i now) es = omega arith
count-staged-cons n (requeue i) es = omega arith
count-staged-cons n (look now) es = omega arith

-- However the threads' steps mix: each packet that was staged, or was there at the start, is in one
-- place: handed on to be sent, given up (as the oldest of a queue that is too long, or in a purge), in
-- the queue, or in the hands of a call that sends it or puts it back. So none is lost and none is sent
-- twice, even by calls that run at once.
pub run-packets :
    (es : List StagingEvent) (s : Staging) (n : ℕ)
    → whereabouts n (staging_run s es) ≡ whereabouts n s + count_staged n es
unfolding staging_run
run-packets [] s n = omega arith
run-packets (e ∷ es) s n =
    omega
      (arith, run-packets es (staging_step s e) n, step_whereabouts n s e, count-staged-cons n e es)
