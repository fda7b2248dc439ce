-- ===== src/Cookies/Consumed.antt =====
-- driver/cookie.c: where a peer's cookie comes from, whatever threads run.
use amneziawg_nt.Base.{
  IsIn, ℕ, zero, suc, true, false, Option, none, some, List, [], ◌∷◌, ◌≡◌, refl, inl, inr,
  Bool-cases,
}
use mathlib.Core.Path.{subst}
use amneziawg_nt.Handshake.{Bytes}
use amneziawg_nt.Cookies.{
  Primitives, Cookie, CookieMessage, CookieThreads, CookieEvent, send_mac, open_reply, store_reply,
  hold_cookie, pick_cookie, store_cookie, open_cookie, add_mac_to_packet, cookie_step, cookie_run,
}

module _ (c : Primitives) where
  -- A cookie message received decrypts to the cookie, under the key and the first MAC of a message sent.
  abbrev pub IsGenuine : Bytes → List Bytes → List CookieMessage → Bytes → Type 0
  IsGenuine key macs messages cookie =
      (m : CookieMessage) × (mac1 : Bytes) × IsIn m messages
      × IsIn mac1 macs
      × (c.decrypt key m.nonce mac1 m.encrypted_cookie ≡ some cookie)

  abbrev AllGenuine : Bytes → List Bytes → List CookieMessage → List Bytes → Type 0
  AllGenuine key macs messages [] = Unit {0}
  AllGenuine key macs messages (b ∷ bs) =
      IsGenuine key macs messages b × AllGenuine key macs messages bs

  record Inv (key : Bytes) (s : CookieThreads) : Type 0 where
    same_key : s.state.cookie_decryption_key ≡ key
    sent : s.state.have_sent_mac1 ≡ true → IsIn s.state.last_mac1_sent s.macs_sent
    held : AllGenuine key s.macs_sent s.received s.opened
    stored : s.state.is_valid ≡ true → IsGenuine key s.macs_sent s.received s.state.cookie

  more_macs :
      (key mac : Bytes) (macs : List Bytes) (ms : List CookieMessage) (b : Bytes)
      → IsGenuine key macs ms b
      → IsGenuine key (mac ∷ macs) ms b
  more_macs key mac macs ms b (m, mac1, i, j, e) = (m, mac1, i, inr j, e)

  more_messages :
      (key : Bytes) (macs : List Bytes) (n : CookieMessage) (ms : List CookieMessage) (b : Bytes)
      → IsGenuine key macs ms b
      → IsGenuine key macs (n ∷ ms) b
  more_messages key macs n ms b (m, mac1, i, j, e) = (m, mac1, inr i, j, e)

  all_more_macs :
      (key mac : Bytes) (macs : List Bytes) (ms : List CookieMessage) (bs : List Bytes)
      → AllGenuine key macs ms bs
      → AllGenuine key (mac ∷ macs) ms bs
  all_more_macs key mac macs ms [] a = tt
  all_more_macs key mac macs ms (b ∷ bs) (g, a) =
      (more_macs key mac macs ms b g, all_more_macs key mac macs ms bs a)

  all_more_messages :
      (key : Bytes) (macs : List Bytes) (n : CookieMessage) (ms : List CookieMessage)
      (bs : List Bytes)
      → AllGenuine key macs ms bs
      → AllGenuine key macs (n ∷ ms) bs
  all_more_messages key macs n ms [] a = tt
  all_more_messages key macs n ms (b ∷ bs) (g, a) =
      (more_messages key macs n ms b g, all_more_messages key macs n ms bs a)

  hold-AllGenuine :
      (key : Bytes) (macs : List Bytes) (ms : List CookieMessage) (o : Option Bytes)
      (bs : List Bytes)
      → ((b : Bytes) → o ≡ some b → IsGenuine key macs ms b)
      → AllGenuine key macs ms bs
      → AllGenuine key macs ms (hold_cookie o bs)
  hold-AllGenuine key macs ms none bs g a = a
  hold-AllGenuine key macs ms (some b) bs g a = (g b refl, a)

  open-IsGenuine :
      (key : Bytes) (s : CookieThreads) (m : CookieMessage) (b : Bytes)
      → Inv key s
      → open_cookie c m s.state ≡ some b
      → IsGenuine key s.macs_sent (m ∷ s.received) b
  unfolding open_cookie
  open-IsGenuine key s m b inv e = elim (Bool-cases s.state.have_sent_mac1) [
    | inr absent ↦ cc
    | inl present ↦ (m, s.state.last_mac1_sent, inl refl, inv.sent present, cc)
  ]

  pick-AllGenuine :
      (key : Bytes) (macs : List Bytes) (ms : List CookieMessage) (i : ℕ) (bs : List Bytes)
      → AllGenuine key macs ms bs
      → AllGenuine key macs ms (pick_cookie i bs).1
        × ((b : Bytes) → (pick_cookie i bs).0 ≡ some b → IsGenuine key macs ms b)
  pick-AllGenuine key macs ms i [] a = (tt, λ b e. cc)
  pick-AllGenuine key macs ms zero (b ∷ bs) (g, a) =
      (a, λ x e. let same : b ≡ x = cc in subst (IsGenuine key macs ms) same g)
  pick-AllGenuine key macs ms (suc i) (b ∷ bs) (g, a) =
      let (rest, one) = pick-AllGenuine key macs ms i bs a in ((g, rest), one)

  store-Inv :
      (key : Bytes) (s : CookieThreads) (now : ℕ) (o : Option Bytes) (bs : List Bytes)
      → Inv key s
      → ((b : Bytes) → o ≡ some b → IsGenuine key s.macs_sent s.received b)
      → AllGenuine key s.macs_sent s.received bs
      → Inv key (record s { state = (store_cookie s.state now o).1; opened = bs })
  store-Inv key s now none bs inv g a = record {
    same_key = inv.same_key;
    sent = inv.sent;
    held = a;
    stored = inv.stored;
  }
  store-Inv key s now (some b) bs inv g a = record {
    same_key = inv.same_key;
    sent = λ e. cc;
    held = a;
    stored = λ e. g b refl;
  }

  step-Inv :
      (key : Bytes) (s : CookieThreads) (e : CookieEvent) → Inv key s → Inv key (cookie_step c s e)
  unfolding cookie_step add_mac_to_packet
  step-Inv key s (send_mac body now) inv = record {
    same_key = inv.same_key;
    sent = λ e. inl refl;
    held = all_more_macs key _ s.macs_sent s.received s.opened inv.held;
    stored = λ e. more_macs key _ s.macs_sent s.received s.state.cookie (inv.stored e);
  }
  step-Inv key s (open_reply m) inv = record {
    same_key = inv.same_key;
    sent = inv.sent;
    held =
        hold-AllGenuine key s.macs_sent (m ∷ s.received) (open_cookie c m s.state) s.opened
          (λ b e. open-IsGenuine key s m b inv e)
          (all_more_messages key s.macs_sent m s.received s.opened inv.held);
    stored = λ e. more_messages key s.macs_sent m s.received s.state.cookie (inv.stored e);
  }
  step-Inv key s (store_reply i now) inv =
      let (rest, one) = pick-AllGenuine key s.macs_sent s.received i s.opened inv.held in
      store-Inv key s now (pick_cookie i s.opened).0 (pick_cookie i s.opened).1 inv one rest

  run-Inv :
      (key : Bytes) (es : List CookieEvent) (s : CookieThreads)
      → Inv key s
      → Inv key (cookie_run c s es)
  unfolding cookie_run
  run-Inv key [] s inv = inv
  run-Inv key (e ∷ es) s inv = run-Inv key es (cookie_step c s e) (step-Inv key s e inv)

  -- A peer's state in which no message was sent and no cookie is valid, and no call of a thread.
  abbrev pub threads_init : Cookie → CookieThreads
  threads_init k = record { state = k; opened = []; macs_sent = []; received = [] }

  -- However messages sent and the two halves of calls on cookie messages mix, from a new peer on: a
  -- cookie that is valid was encrypted in a cookie message that was received, under the peer's key and the
  -- first MAC of a message that the peer had sent.
  pub cookie-run-IsGenuine :
      (es : List CookieEvent) (k : Cookie)
      → k.is_valid ≡ false
      → k.have_sent_mac1 ≡ false
      → (cookie_run c (threads_init k) es).state.is_valid ≡ true
      → IsGenuine k.cookie_decryption_key
          (cookie_run c (threads_init k) es).macs_sent
          (cookie_run c (threads_init k) es).received
          (cookie_run c (threads_init k) es).state.cookie
  cookie-run-IsGenuine es k invalid unsent valid =
      let start : Inv k.cookie_decryption_key (threads_init k) = record {
        same_key = refl;
        sent = λ e. cc;
        held = tt;
        stored = λ e. cc;
      } in
      let inv : Inv k.cookie_decryption_key (cookie_run c (threads_init k) es) =
        run-Inv k.cookie_decryption_key es (threads_init k) start in
      inv.stored valid
