-- ===== src/Handshake/Kept.antt =====
-- driver/noise.c: what each handler does to a peer's memory of past initiations.
use mathlib.Core.Path.{subst, sym}
use amneziawg_nt.Handshake.{handshake_init}
use amneziawg_nt.Handshake.Peer.{consumed_initiation}
use amneziawg_nt.Handshake.Response.{is_state}
use amneziawg_nt.Handshake.Initiation.{
  Checked, check_initiation, Opened, look_up, with_peer, open_initiation,
}
use amneziawg_nt.Base.{
  ℕ, ◌+◌, ◌≤◌, true, false, Bool, Option, none, some, ◌≡◌, refl, arith, if◌then◌else◌,
}
use amneziawg_nt.Handshake.{Bytes, Crypto, Symmetric}
use amneziawg_nt.Handshake.Peer.{State, Handshake, Peers, Identity, bytes_lt, zero_handshake}
use amneziawg_nt.Handshake.Initiation.{
  Initiation, Fresh, create_initiation, is_replay, is_flood, initiation_units, admit,
  write_initiation, finish_initiation, read_timestamp,
}
use amneziawg_nt.Handshake.Response.{
  Response, create_response, consume_response, write_response, finish_response, commit_response,
  read_response,
}
use amneziawg_nt.Handshake.Session.{begin_session}
use amneziawg_nt.Keypairs.{Keypairs}

-- The memory of past initiations is as it was.
pub record Kept (h h' : Handshake) : Type 0 where
  pub timestamp : h'.latest_timestamp ≡ h.latest_timestamp
  pub consumption : h'.last_initiation_consumption ≡ h.last_initiation_consumption

abbrev pub keep : {h : Handshake} → Kept h h
keep = record { timestamp = refl; consumption = refl }

finish-initiation_kept :
    (h : Handshake) (present : Bool) (r : Option Initiation × Symmetric) (secret : Bytes)
    → Kept h
        (if present
          then finish_initiation (record h { ephemeral_private = secret }) r
          else (none, h)).1
finish-initiation_kept h false r secret = keep
finish-initiation_kept h true (none, s) secret = record { timestamp = refl; consumption = refl }
finish-initiation_kept h true (some m, s) secret = record { timestamp = refl; consumption = refl }

finish-response_kept :
    (h : Handshake) (ready : Bool) (r : Option Response × Symmetric) (secret : Bytes)
    → Kept h
        (if ready then finish_response (record h { ephemeral_private = secret }) r else (none, h)).1
finish-response_kept h false r secret = keep
finish-response_kept h true (none, s) secret = record { timestamp = refl; consumption = refl }
finish-response_kept h true (some m, s) secret = record { timestamp = refl; consumption = refl }

commit-response_kept :
    (seen : State) (m : Response) (r : Option Bytes × Symmetric) (h h' : Handshake)
    → commit_response seen m r h ≡ some h'
    → Kept h h'
commit-response_kept seen m (none, s) h h' e = cc
commit-response_kept seen m (some q, s) h h' e = ground arith

module _ (c : Crypto) (hn idn : Bytes) where
  pub create-initiation_kept :
      (i : Identity) (h : Handshake) (new : Fresh) → Kept h (create_initiation c hn idn i h new).1
  unfolding create_initiation
  create-initiation_kept i h new =
      finish-initiation_kept h i.has_identity
        (write_initiation c i h new (handshake_init c hn idn h.remote_static)) new.secret

  pub create-response_kept : (h : Handshake) (new : Fresh) → Kept h (create_response c h new).1
  unfolding create_response
  create-response_kept h new =
      finish-response_kept h (is_state h.state consumed_initiation) (write_response c h new h.mixed)
        new.secret

  pub consume-response_kept :
      (i : Identity) (m : Response) (h h' : Handshake)
      → consume_response c i m h h ≡ some h'
      → Kept h h'
  unfolding consume_response
  consume-response_kept i m h h' e = go _ e
    where
      go :
          (b : Bool)
          → (if b then commit_response h.state m (read_response c i h m h.mixed) h else none)
            ≡ some h'
          → Kept h h'
      go true e = commit-response_kept h.state m _ h h' e
      go false e = cc

  pub begin-session_kept :
      (h : Handshake) (slots : Keypairs) (memory in_use indexed : Bool) (id now : ℕ)
      → Kept h (begin_session c h slots memory in_use indexed id now).handshake
  unfolding begin_session zero_handshake
  begin-session_kept h slots memory in_use indexed id now = ground arith

  pub zero-handshake_kept : (h : Handshake) → Kept h (zero_handshake h)
  unfolding zero_handshake
  zero-handshake_kept h = record { timestamp = refl; consumption = refl }

-- What an initiation whose check passes shows of the handshake.
pub record Newest (h : Handshake) (timestamp : Bytes) (checked : ℕ) : Type 0 where
  pub newer : bytes_lt h.latest_timestamp timestamp ≡ true
  pub spaced : h.last_initiation_consumption + initiation_units ≤ checked

admit-Newest :
    (id : ℕ) (h : Handshake) (m : Initiation) (o : Opened) (checked : ℕ)
    (r : Option Bytes × Symmetric) (k : Checked)
    → admit id h m o checked r ≡ some k
    → (k.id ≡ id) × Newest h k.timestamp checked
unfolding is_replay is_flood
admit-Newest id h m o checked (none, s) k e = cc
admit-Newest id h m o checked (some ts, s) k e = ground arith

module _ (c : Crypto) (hn idn : Bytes) where
  pub check-initiation_Newest :
      (i : Identity) (p : Peers) (m : Initiation) (checked : ℕ) (k : Checked)
      → check_initiation c hn idn i p m checked ≡ some k
      → Newest (p.handshake k.id) k.timestamp checked
  unfolding check_initiation
  check-initiation_Newest i p m checked k e =
      go i.has_identity (open_initiation c i m (handshake_init c hn idn i.static_public)) e
    where
      known :
          (o : Opened) (s : Symmetric) (r : Option ℕ)
          → with_peer c p m checked o s r ≡ some k
          → Newest (p.handshake k.id) k.timestamp checked
      known o s none e = cc
      known o s (some id) e =
          let (same, n) =
            admit-Newest id (p.handshake id) m o checked (read_timestamp c (p.handshake id) m s) k
              e in
          subst (λ j. Newest (p.handshake j) k.timestamp checked) (sym same) n

      go :
          (b : Bool) (r : Option Opened × Symmetric)
          → (if b then look_up c p m checked r else none) ≡ some k
          → Newest (p.handshake k.id) k.timestamp checked
      go false r e = cc
      go true (none, s) e = cc
      go true (some o, s) e = known o s (p.find o.sender) e
