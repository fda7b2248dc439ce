-- ===== src/Keypairs/Balance.antt =====
-- Each keypair is in one slot, or its slot's reference has been given up once.
use amneziawg_nt.Base.{
  ℕ, ◌+◌, ◌≡◌, refl, ap, Bool, true, false, Option, none, some, List, [], ◌∷◌, ◌==◌, if◌then◌else◌,
  count, arith, Bool-cases, inl, inr,
}
use amneziawg_nt.Keypairs.{
  Keypair, Keypairs, put, clear, add_initiated, add_new_keypair, is_in, received_with_keypair,
  stop_sending, expire_current, no_keypairs, Event, add, received, cleared, expired, run,
}

-- How often a slot holds the keypair of a number: not or once.
unfoldable pub held : ℕ → Option Keypair → ℕ
held id none = 0
held id (some k) = if id == k.id then 1 else 0

-- How often keypairs of the number are added.
abbrev pub added : ℕ → List Event → ℕ
added id [] = 0
added id (add k ∷ es) = held id (some k) + added id es
added id (received k ∷ es) = added id es
added id (cleared ∷ es) = added id es
added id (expired ∷ es) = added id es

abbrev pub slots : ℕ → Keypairs → ℕ
slots id s = held id s.current + held id s.previous + held id s.next

count-put :
    (id : ℕ) (o : Option Keypair) (released : List ℕ)
    → count id (put o released) ≡ held id o + count id released
unfolding put held
count-put id none released = omega arith
count-put id (some k) released = ground arith

held-stop_sending : (id : ℕ) (o : Option Keypair) → held id (stop_sending o) ≡ held id o
unfolding held
held-stop_sending id none = refl
held-stop_sending id (some k) = refl

held-none : (id : ℕ) → held id none ≡ 0
unfolding held
held-none id = refl

-- What the slots hold and what they have given up.
abbrev pub owned : ℕ → Keypairs → ℕ
owned id s = slots id s + count id s.released

owned-add_initiated :
    (id : ℕ) (s : Keypairs) (k : Keypair) (next : Option Keypair)
    → s.next ≡ next
    → owned id (add_initiated s k next) ≡ held id (some k) + owned id s
owned-add_initiated id s k none e =
    omega (arith, held-none id, ap (held id) e, count-put id s.previous s.released)
owned-add_initiated id s k (some next) e = omega (
  arith,
  held-none id,
  ap (held id) e,
  count-put id s.previous (put s.current s.released),
  count-put id s.current s.released,
)

owned-add :
    (id : ℕ) (s : Keypairs) (k : Keypair)
    → owned id (add_new_keypair s k) ≡ held id (some k) + owned id s
unfolding add_new_keypair
owned-add id s k = go k.initiator
  where
    go :
        (initiator : Bool)
        → let s' : Keypairs = if initiator then add_initiated s k s.next else record {
          current = s.current;
          previous = none;
          next = some k;
          released = put s.previous (put s.next s.released);
        } in
          owned id s' ≡ held id (some k) + owned id s
    go true = owned-add_initiated id s k s.next refl
    go false = omega (
      arith,
      held-none id,
      count-put id s.previous (put s.next s.released),
      count-put id s.next s.released,
    )

owned-received :
    (id : ℕ) (s : Keypairs) (k : ℕ) → owned id (received_with_keypair s k).1 ≡ owned id s
unfolding received_with_keypair
owned-received id s k = elim (Bool-cases (is_in k s.next)) [
  | inl e ↦ rw e (omega (arith, held-none id, count-put id s.previous s.released))
  | inr e ↦ rw e refl
]

owned-clear : (id : ℕ) (s : Keypairs) → owned id (clear s) ≡ owned id s
unfolding clear
owned-clear id s = omega (
  arith,
  held-none id,
  count-put id s.current (put s.previous (put s.next s.released)),
  count-put id s.previous (put s.next s.released),
  count-put id s.next s.released,
)

owned-expire : (id : ℕ) (s : Keypairs) → owned id (expire_current s) ≡ owned id s
unfolding expire_current
owned-expire id s = omega (arith, held-stop_sending id s.current, held-stop_sending id s.next)

owned-run :
    (id : ℕ) (s : Keypairs) (es : List Event) → owned id (run s es) ≡ owned id s + added id es
owned-run id s [] = omega arith
owned-run id s (add k ∷ es) = omega (arith, owned-run id (add_new_keypair s k) es, owned-add id s k)
owned-run id s (received k ∷ es) =
    omega (arith, owned-run id (received_with_keypair s k).1 es, owned-received id s k)
owned-run id s (cleared ∷ es) = omega (arith, owned-run id (clear s) es, owned-clear id s)
owned-run id s (expired ∷ es) = omega (arith, owned-run id (expire_current s) es, owned-expire id s)

-- After any sequence of calls from empty slots on, and for every keypair number: the number of slots
-- that hold it and the number of times that a slot has given its reference up are, together, the
-- number of times that it was added. So no reference is lost, and none is given up twice.
pub run-balance :
    (id : ℕ) (es : List Event)
    → slots id (run no_keypairs es) + count id (run no_keypairs es).released ≡ added id es
run-balance id es = omega (arith, owned-run id no_keypairs es, held-none id)
