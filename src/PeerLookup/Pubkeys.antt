-- ===== src/PeerLookup/Pubkeys.antt =====
-- driver/peerlookup.c: the table of public keys is a search through all peers.
use amneziawg_nt.Base.{
  ℕ, Bool, true, List, [], ◌∷◌, ◌≡◌, refl, ap, ◌∙◌, arith, ◌==◌, ==_iff, if◌then◌else◌, Bool-cases,
  inl, inr,
}
use amneziawg_nt.Cookies.{equal_memory16 as equal_bytes}
use amneziawg_nt.Handshake.{Bytes}
use amneziawg_nt.PeerLookup.{
  Keyed, PubkeyTable, pubkey_table_alloc, delete_peer, first_keyed, get_maybe_zero, pubkey_bucket,
  pubkey_add, pubkey_lookup, pubkey_remove,
}

pub data PeerEvent : Type 0 where
  added : Keyed → PeerEvent
  removed : ℕ → PeerEvent

equal-bytes_sound : (a b : Bytes) → equal_bytes a b ≡ true → a ≡ b
equal-bytes_sound [] [] e = refl
equal-bytes_sound [] (y ∷ b) e = cc
equal-bytes_sound (x ∷ a) [] e = cc
equal-bytes_sound (x ∷ a) (y ∷ b) e = ground (arith, equal-bytes_sound a b)

-- All peers, the newest first.
abbrev pub all_peers : List Keyed → List PeerEvent → List Keyed
all_peers ps [] = ps
all_peers ps (added p ∷ es) = all_peers (p ∷ ps) es
all_peers ps (removed id ∷ es) = all_peers (delete_peer id ps) es

module _ (siphash : Bytes → ℕ) where
  abbrev pub pubkey_run : PubkeyTable → List PeerEvent → PubkeyTable
  pubkey_run t [] = t
  pubkey_run t (added p ∷ es) = pubkey_run (pubkey_add siphash t p) es
  pubkey_run t (removed id ∷ es) = pubkey_run (pubkey_remove t id) es

  -- The peers that belong to a bucket.
  abbrev in_bucket : ℕ → List Keyed → List Keyed
  in_bucket b [] = []
  in_bucket b (p ∷ ps) =
      let rest = in_bucket b ps in
      if b == pubkey_bucket siphash p.remote_static then p ∷ rest else rest

  delete-peer-in_bucket :
      (b id : ℕ) (ps : List Keyed)
      → delete_peer id (in_bucket b ps) ≡ in_bucket b (delete_peer id ps)
  delete-peer-in_bucket b id [] = refl
  delete-peer-in_bucket b id (p ∷ ps) = ground (arith, delete-peer-in_bucket b id ps)

  first-keyed-in_bucket :
      (key : Bytes) (ps : List Keyed)
      → first_keyed key (in_bucket (pubkey_bucket siphash key) ps) ≡ first_keyed key ps
  first-keyed-in_bucket key [] = refl
  first-keyed-in_bucket key (p ∷ ps) = elim (Bool-cases (equal_bytes key p.remote_static)) [
    | inl e ↦
        let same : pubkey_bucket siphash key ≡ pubkey_bucket siphash p.remote_static =
          ap (pubkey_bucket siphash) (equal-bytes_sound key p.remote_static e) in
        let found : (pubkey_bucket siphash key == pubkey_bucket siphash p.remote_static) ≡ true =
          (==_iff _ _).1 same in
        rw (found, e) refl
    | inr e ↦
        elim (Bool-cases (pubkey_bucket siphash key == pubkey_bucket siphash p.remote_static)) [
          | inl f ↦ rw (f, e) (first-keyed-in_bucket key ps)
          | inr f ↦ rw (f, e) (first-keyed-in_bucket key ps)
        ]
  ]

  run_buckets :
      (es : List PeerEvent) (t : PubkeyTable) (ps : List Keyed)
      → ((b : ℕ) → t b ≡ in_bucket b ps)
      → (b : ℕ) → pubkey_run t es b ≡ in_bucket b (all_peers ps es)
  unfolding pubkey_add pubkey_remove
  run_buckets [] t ps h b = h b
  run_buckets (added p ∷ es) t ps h b =
      run_buckets es (pubkey_add siphash t p) (p ∷ ps)
        (λ x. ap (λ l. if x == pubkey_bucket siphash p.remote_static then p ∷ l else l) (h x)) b
  run_buckets (removed id ∷ es) t ps h b =
      run_buckets es (pubkey_remove t id) (delete_peer id ps)
        (λ x. ap (delete_peer id) (h x) ∙ delete-peer-in_bucket x id ps) b

  -- After every sequence of additions and removals, a lookup finds what a search through all peers
  -- of the table finds, whatever the keyed hash is.
  pub lookup-run :
      (es : List PeerEvent) (alive : ℕ → Bool) (key : Bytes)
      → pubkey_lookup siphash (pubkey_run pubkey_table_alloc es) alive key
        ≡ get_maybe_zero alive (first_keyed key (all_peers [] es))
  unfolding pubkey_lookup pubkey_table_alloc
  lookup-run es alive key =
      ap (λ ps. get_maybe_zero alive (first_keyed key ps))
        (run_buckets es pubkey_table_alloc [] (λ b. refl) (pubkey_bucket siphash key))
      ∙ ap (get_maybe_zero alive) (first-keyed-in_bucket key (all_peers [] es))
