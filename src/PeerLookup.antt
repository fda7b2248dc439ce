-- ===== src/PeerLookup.antt =====
-- driver/peerlookup.c: the table of public keys and the table of indices.
-- The tables' locks make a change one step. A reader of the index table takes no lock, and its walk is the
-- list of entries that it visits; `pubkey_lookup` is of a reader that no change runs into.
-- A table is a function from a bucket's number to the bucket, newest entry first. An entry and a peer
-- are named by their number, for their address; a list node is in a table or not. The keyed hash of
-- driver/crypto.c, the draws of random indices and whether a peer is still referenced are arguments.
pub mod Unique
pub mod Refine
pub mod Insert
pub mod Pubkeys
mod Tests
use amneziawg_nt.Base.{
  ℕ, ◌%◌, Bool, true, false, not, ◌&&◌, ◌||◌, Option, none, some, List, [], ◌∷◌, ◌==◌,
  if◌then◌else◌,
}
use amneziawg_nt.Cookies.{equal_memory16 as equal_bytes}
use amneziawg_nt.Handshake.{Bytes}

-- `INDEX_HASHTABLE_TYPE`, and the masks that a lookup is given.
pub data EntryType : Type 0 where
  handshake_entry keypair_entry : EntryType

pub data TypeMask : Type 0 where
  handshakes keypairs all_types : TypeMask

abbrev pub in_mask : EntryType → TypeMask → Bool
in_mask handshake_entry keypairs = false
in_mask keypair_entry handshakes = false
in_mask _ _ = true

-- `INDEX_HASHTABLE_ENTRY`.
pub record IndexEntry : Type 0 where
  pub id : ℕ
  pub peer : ℕ
  pub entry_type : EntryType
  pub index : ℕ

abbrev pub IndexTable : Type 0
IndexTable = ℕ → List IndexEntry

-- `IndexHashtableAlloc`.
unfoldable pub index_table_alloc : IndexTable
index_table_alloc b = []

-- `IndexBucket`, for 13 bits.
unfoldable pub index_bucket : ℕ → ℕ
index_bucket i = i % 8192

-- `HlistDelInitRcu` in a bucket.
abbrev pub delete : ℕ → List IndexEntry → List IndexEntry
delete id [] = []
delete id (e ∷ es) = let rest = delete id es in if e.id == id then rest else e ∷ rest

-- `IndexHashtableRemove`.
unfoldable pub index_remove : IndexTable → ℕ → IndexTable
index_remove t id b = delete id (t b)

-- The first entry of a bucket with an index.
abbrev pub first_with : ℕ → List IndexEntry → Option IndexEntry
first_with i [] = none
first_with i (e ∷ es) = if e.index == i then some e else first_with i es

abbrev pub is_taken : Option IndexEntry → Bool
is_taken none = false
is_taken (some e) = true

-- A round of `IndexHashtableInsert` on a drawn index: whether the search without the lock found it
-- in use, and then the search under the lock.
unfoldable pub index_try : IndexTable → IndexEntry → ℕ → Bool → Option IndexTable
unfolding index_bucket
index_try t e i in_use =
    if in_use || is_taken (first_with i (t (index_bucket i)))
    then none
    else some (λ b. if b == index_bucket i then record e { index = i } ∷ t b else t b)

-- A round of `searchUnusedSlot`: the index drawn, the table that the search without the lock walks, and
-- the table under the lock, which other threads may have changed in between.
pub record Round : Type 0 where
  pub drawn : ℕ
  pub seen : IndexTable
  pub locked : IndexTable

-- `searchUnusedSlot`: the index, and the table then.
unfoldable pub search_unused : IndexEntry → List Round → Option (ℕ × IndexTable)
unfolding index_bucket
search_unused e [] = none
search_unused e (r ∷ rounds) =
    let in_use = is_taken (first_with r.drawn (r.seen (index_bucket r.drawn))) in
    elim (index_try r.locked e r.drawn in_use) [
      | some t ↦ some (r.drawn, t)
      | none ↦ search_unused e rounds
    ]

-- `IndexHashtableInsert`; the rounds follow on the table that the removal leaves.
unfoldable pub index_insert :
    IndexTable → IndexEntry → (IndexTable → List Round) → Option (ℕ × IndexTable)
unfolding search_unused index_remove
index_insert t e rounds = search_unused e (rounds (index_remove t e.id))

-- `HlistReplaceRcu` in a bucket.
abbrev pub swap : ℕ → IndexEntry → List IndexEntry → List IndexEntry
swap id new [] = []
swap id new (e ∷ es) = (if e.id == id then record new { index = e.index } else e) ∷ swap id new es

-- `IndexHashtableReplace`, when the old entry is in the table or not.
unfoldable pub index_replace : IndexTable → Bool → ℕ → IndexEntry → Bool × IndexTable
index_replace t hashed id new = if hashed then (true, λ b. swap id new (t b)) else (false, t)

-- The type and the reference of what a lookup found.
abbrev pub checked : TypeMask → (ℕ → Bool) → Option IndexEntry → Option IndexEntry
checked mask alive none = none
checked mask alive (some e) = if in_mask e.entry_type mask && alive e.peer then some e else none

-- `IndexHashtableLookup`, by the entries that the walk without the lock visits. A walk that no change
-- runs into visits the bucket of the index.
unfoldable pub index_lookup : List IndexEntry → TypeMask → (ℕ → Bool) → ℕ → Option IndexEntry
index_lookup visited mask alive i = checked mask alive (first_with i visited)

abbrev pub bucket_at : IndexTable → ℕ → List IndexEntry
bucket_at t i = t (index_bucket i)

-- A peer with its public key, `Handshake.RemoteStatic`.
pub record Keyed : Type 0 where
  pub owner : ℕ
  pub remote_static : Bytes

abbrev pub PubkeyTable : Type 0
PubkeyTable = ℕ → List Keyed

-- `PubkeyHashtableAlloc`.
unfoldable pub pubkey_table_alloc : PubkeyTable
pubkey_table_alloc b = []

abbrev pub delete_peer : ℕ → List Keyed → List Keyed
delete_peer id [] = []
delete_peer id (p ∷ ps) = let rest = delete_peer id ps in if p.owner == id then rest else p ∷ rest

-- The first peer with a key.
abbrev pub first_keyed : Bytes → List Keyed → Option ℕ
first_keyed key [] = none
first_keyed key (p ∷ ps) =
    if equal_bytes key p.remote_static then some p.owner else first_keyed key ps

-- `PeerGetMaybeZero`.
abbrev pub get_maybe_zero : (ℕ → Bool) → Option ℕ → Option ℕ
get_maybe_zero alive none = none
get_maybe_zero alive (some id) = if alive id then some id else none

-- `Siphash` under the table's key.
module _ (siphash : Bytes → ℕ) where
  -- `PubkeyBucket`, for 11 bits.
  unfoldable pub pubkey_bucket : Bytes → ℕ
  pubkey_bucket key = siphash key % 2048

  -- `PubkeyHashtableAdd`.
  unfoldable pub pubkey_add : PubkeyTable → Keyed → PubkeyTable
  pubkey_add t p b = if b == pubkey_bucket p.remote_static then p ∷ t b else t b

  -- `PubkeyHashtableLookup`.
  unfoldable pub pubkey_lookup : PubkeyTable → (ℕ → Bool) → Bytes → Option ℕ
  pubkey_lookup t alive key = get_maybe_zero alive (first_keyed key (t (pubkey_bucket key)))

-- `PubkeyHashtableRemove`.
unfoldable pub pubkey_remove : PubkeyTable → ℕ → PubkeyTable
pubkey_remove t id b = delete_peer id (t b)
