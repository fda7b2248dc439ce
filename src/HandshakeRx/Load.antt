-- ===== src/HandshakeRx/Load.antt =====
-- driver/receive.c, `ReceiveHandshakePacket`: the load, against the whole history of the queue.
use amneziawg_nt.Base.{
  ℕ, ◌+◌, ◌≤◌, ◌<◌, ◌==◌, Bool, true, false, not, ◌&&◌, ◌||◌, List, [], ◌∷◌, ltb, leb, ◌≡◌, refl,
  ap, ap₂, ◌∙◌, Bool-cases, inl, inr, arith, if◌then◌else◌,
}
use amneziawg_nt.Cookies.{
  birthdate_has_expired, MacState, invalid_mac, valid_mac_but_no_cookie,
  valid_mac_with_cookie_but_ratelimited, valid_mac_with_cookie,
}
use amneziawg_nt.HandshakeRx.{
  MessageType, initiation, response, cookie_reply, other_type, drop, reply_with_cookie,
  take_initiation, take_response, wrong_type, RxMessage, RxAction, take_cookie, is_long,
  is_cookie_reply, under_load, decide, receive_handshake_packet, handshake_rx_worker,
}

-- The queue was found long at one of these messages, less than a second before `now`.
unfoldable pub recently_long : List RxMessage → ℕ → Bool
recently_long [] now = false
recently_long (m ∷ ms) now =
    let rest = recently_long ms now in (leb 512 m.queue_len && ltb now (m.time + 10000000)) || rest

-- What is asked of a message: under load its cookie must be valid, else its first MAC; a message under
-- load without a cookie is answered with one; all others are dropped.
abbrev pub is_authorized : Bool → MacState → Bool
is_authorized true valid_mac_with_cookie = true
is_authorized false valid_mac_but_no_cookie = true
is_authorized _ _ = false

abbrev pub deserves_cookie : Bool → MacState → Bool
deserves_cookie true valid_mac_but_no_cookie = true
deserves_cookie _ _ = false

abbrev pub expected_action : MessageType → Bool → MacState → RxAction
expected_action initiation loaded mac =
    if is_authorized loaded mac
    then take_initiation
    else if deserves_cookie loaded mac
    then reply_with_cookie
    else drop
expected_action response loaded mac =
    if is_authorized loaded mac
    then take_response
    else if deserves_cookie loaded mac
    then reply_with_cookie
    else drop
expected_action cookie_reply loaded mac = take_cookie
expected_action other_type loaded mac =
    if is_authorized loaded mac || deserves_cookie loaded mac then wrong_type else drop

-- What is to be done with each message, by all messages before it.
unfoldable pub expected_actions : List RxMessage → List RxMessage → List RxAction
expected_actions history [] = []
expected_actions history (m ∷ ms) =
    let loaded = recently_long (m ∷ history) m.time in
    let past = expected_actions history ms in
    let present = expected_actions (m ∷ history) ms in
    if is_cookie_reply m.kind
    then take_cookie ∷ past
    else expected_action m.kind loaded (m.mac_state loaded) ∷ present

-- The interrupt time is not 0 and does not go back.
abbrev pub IsTimed : ℕ → List RxMessage → Type 0
IsTimed now [] = 0 < now
IsTimed now (m ∷ ms) = (0 < now) × (now ≤ m.time) × IsTimed m.time ms

-- `LastUnderLoad` tells at any time from `now` on whether the queue was long less than a second ago.
Remembers : ℕ → ℕ → List RxMessage → Type 0
Remembers last now history =
    (last ≤ now)
    × ((later : ℕ)
        → now ≤ later
        → recently_long history later ≡ (not (last == 0) && ltb later (last + 10000000)))

under-load_lem :
    (last now : ℕ) (history : List RxMessage) (m : RxMessage)
    → Remembers last now history
    → 0 < now
    → now ≤ m.time
    → ((under_load last m).0 ≡ recently_long (m ∷ history) m.time)
      × Remembers (under_load last m).1 m.time (m ∷ history)
unfolding under_load recently_long birthdate_has_expired Remembers
under-load_lem last now history m (l, r) p h = elim (Bool-cases (is_long m)) [
  | inl e ↦ (
    ground (arith, e),
    (ground (arith, e), λ later k. ground (arith, e, r later (omega (arith, h, k)))),
  )
  | inr e ↦ (
    ground (arith, e, r m.time h),
    (ground (arith, e), λ later k. ground (arith, e, r later (omega (arith, h, k)))),
  )
]

IsTimed-earlier :
    (now later : ℕ) (ms : List RxMessage)
    → 0 < now
    → now ≤ later
    → IsTimed later ms
    → IsTimed now ms
IsTimed-earlier now later [] p h t = p
IsTimed-earlier now later (m ∷ ms) p h (q, k, t) = (p, omega (arith, h, k), t)

decide-expected :
    (kind : MessageType) (loaded : Bool) (mac : MacState)
    → is_cookie_reply kind ≡ false
    → decide kind loaded mac ≡ expected_action kind loaded mac
unfolding decide
decide-expected initiation true invalid_mac e = refl
decide-expected initiation true valid_mac_but_no_cookie e = refl
decide-expected initiation true valid_mac_with_cookie_but_ratelimited e = refl
decide-expected initiation true valid_mac_with_cookie e = refl
decide-expected initiation false invalid_mac e = refl
decide-expected initiation false valid_mac_but_no_cookie e = refl
decide-expected initiation false valid_mac_with_cookie_but_ratelimited e = refl
decide-expected initiation false valid_mac_with_cookie e = refl
decide-expected response true invalid_mac e = refl
decide-expected response true valid_mac_but_no_cookie e = refl
decide-expected response true valid_mac_with_cookie_but_ratelimited e = refl
decide-expected response true valid_mac_with_cookie e = refl
decide-expected response false invalid_mac e = refl
decide-expected response false valid_mac_but_no_cookie e = refl
decide-expected response false valid_mac_with_cookie_but_ratelimited e = refl
decide-expected response false valid_mac_with_cookie e = refl
decide-expected cookie_reply loaded mac e = cc
decide-expected other_type true invalid_mac e = refl
decide-expected other_type true valid_mac_but_no_cookie e = refl
decide-expected other_type true valid_mac_with_cookie_but_ratelimited e = refl
decide-expected other_type true valid_mac_with_cookie e = refl
decide-expected other_type false invalid_mac e = refl
decide-expected other_type false valid_mac_but_no_cookie e = refl
decide-expected other_type false valid_mac_with_cookie_but_ratelimited e = refl
decide-expected other_type false valid_mac_with_cookie e = refl

run_lem :
    (ms : List RxMessage) (last now : ℕ) (history : List RxMessage)
    → Remembers last now history
    → IsTimed now ms
    → handshake_rx_worker last ms ≡ expected_actions history ms
unfolding handshake_rx_worker expected_actions receive_handshake_packet
run_lem [] last now history r t = refl
run_lem (m ∷ ms) last now history r (p, h, t) = elim (Bool-cases (is_cookie_reply m.kind)) [
  | inl e ↦ rw e (
      ap (λ l. take_cookie ∷ l)
        (run_lem ms last now history r (IsTimed-earlier now m.time ms p h t)))
  | inr e ↦
      let u = under-load_lem last now history m r p h in
      rw e (
        ap₂ (λ a l. a ∷ l)
          (decide-expected m.kind _ _ e ∙ ap (λ b. expected_action m.kind b (m.mac_state b)) u.0)
          (run_lem ms (under_load last m).1 m.time (m ∷ history) u.1 t))
]

-- For messages with times that start above 0 and do not go back: the worker, which keeps one time only,
-- does with each message what the whole history of the queue asks for. The device counts as under load
-- when the queue was found long at this message or at an earlier one less than a second ago; a
-- message is then handled with a valid cookie only, is answered with a cookie if only its first MAC is
-- valid, and is dropped if not; otherwise it is handled with a valid first MAC and else dropped.
pub worker-actions :
    (now : ℕ) (ms : List RxMessage)
    → IsTimed now ms
    → handshake_rx_worker 0 ms ≡ expected_actions [] ms
unfolding Remembers recently_long
worker-actions now ms t = run_lem ms 0 now [] (omega arith, λ later k. refl) t
