-- ===== src/Keypairs/Confirmed.antt =====
-- The keys that are used to send are confirmed ones.
use amneziawg_nt.Base.{
  ℕ, ◌≡◌, ◌⊎◌, inl, inr, refl, Bool, true, false, Option, none, some, List, [], ◌∷◌, if◌then◌else◌,
  arith, Bool-cases,
}
use amneziawg_nt.Keypairs.{
  Keypair, Keypairs, put, clear, add_initiated, add_new_keypair, is_in, received_with_keypair,
  stop_sending, expire_current, no_keypairs, Event, add, received, cleared, expired, run,
}

-- The numbers for which a data message came, newest first.
abbrev pub confirmations : List ℕ → List Event → List ℕ
confirmations ids [] = ids
confirmations ids (received id ∷ es) = confirmations (id ∷ ids) es
confirmations ids (add k ∷ es) = confirmations ids es
confirmations ids (cleared ∷ es) = confirmations ids es
confirmations ids (expired ∷ es) = confirmations ids es

abbrev pub Among : ℕ → List ℕ → Type 0
Among id [] = ⊥
Among id (x ∷ xs) = (x ≡ id) ⊎ Among id xs

-- An initiator's keypair, which the response confirmed, or one with which a data message came.
abbrev pub IsConfirmed : List ℕ → Option Keypair → Type 0
IsConfirmed ids none = Unit {0}
IsConfirmed ids (some k) = (k.initiator ≡ true) ⊎ Among k.id ids

IsConfirmed-more :
    (id : ℕ) (ids : List ℕ) (o : Option Keypair) → IsConfirmed ids o → IsConfirmed (id ∷ ids) o
IsConfirmed-more id ids none h = tt
IsConfirmed-more id ids (some k) (inl e) = inl e
IsConfirmed-more id ids (some k) (inr a) = inr (inr a)

IsConfirmed-stop :
    (ids : List ℕ) (o : Option Keypair) → IsConfirmed ids o → IsConfirmed ids (stop_sending o)
IsConfirmed-stop ids none h = tt
IsConfirmed-stop ids (some k) h = h

is_in-IsConfirmed :
    (id : ℕ) (ids : List ℕ) (o : Option Keypair) → is_in id o ≡ true → IsConfirmed (id ∷ ids) o
unfolding is_in
is_in-IsConfirmed id ids none e = absurd cc
is_in-IsConfirmed id ids (some k) e = inr (inl (ground arith))

add-IsConfirmed :
    (ids : List ℕ) (s : Keypairs) (k : Keypair)
    → IsConfirmed ids s.current
    → IsConfirmed ids (add_new_keypair s k).current
unfolding add_new_keypair
add-IsConfirmed ids s k h = go k.initiator refl
  where
    initiated :
        (next : Option Keypair)
        → k.initiator ≡ true
        → IsConfirmed ids (add_initiated s k next).current
    initiated none e = inl e
    initiated (some next) e = inl e

    go :
        (initiator : Bool)
        → k.initiator ≡ initiator
        → let s' : Keypairs = if initiator then add_initiated s k s.next else record {
          current = s.current;
          previous = none;
          next = some k;
          released = put s.previous (put s.next s.released);
        } in
          IsConfirmed ids s'.current
    go true e = initiated s.next e
    go false e = h

received-IsConfirmed :
    (ids : List ℕ) (s : Keypairs) (id : ℕ)
    → IsConfirmed ids s.current
    → IsConfirmed (id ∷ ids) (received_with_keypair s id).1.current
unfolding received_with_keypair
received-IsConfirmed ids s id h = elim (Bool-cases (is_in id s.next)) [
  | inl e ↦ rw e (is_in-IsConfirmed id ids s.next e)
  | inr e ↦ rw e (IsConfirmed-more id ids s.current h)
]

run-keeps :
    (ids : List ℕ) (s : Keypairs) (es : List Event)
    → IsConfirmed ids s.current
    → IsConfirmed (confirmations ids es) (run s es).current
run-keeps ids s [] h = h
run-keeps ids s (add k ∷ es) h = run-keeps ids (add_new_keypair s k) es (add-IsConfirmed ids s k h)
run-keeps ids s (received id ∷ es) h =
    run-keeps (id ∷ ids) (received_with_keypair s id).1 es (received-IsConfirmed ids s id h)
run-keeps ids s (cleared ∷ es) h = run-keeps ids (clear s) es (unfold clear in tt)
run-keeps ids s (expired ∷ es) h =
    run-keeps ids (expire_current s) es (unfold expire_current in IsConfirmed-stop ids s.current h)

-- After any sequence of calls from empty slots on: the current keypair, with which data is sent, is
-- one of which this side was the initiator, or one with which a data message has come.
pub run-IsConfirmed :
    (es : List Event) → IsConfirmed (confirmations [] es) (run no_keypairs es).current
run-IsConfirmed es = run-keeps [] no_keypairs es tt
