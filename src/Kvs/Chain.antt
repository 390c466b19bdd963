-- ===== src/Kvs/Chain.antt =====
-- One list of the table of src/dare/dare_kvs_sm.c.
use apus.Base.{
  ℕ, ◌+◌, ◌<◌, length, u16_mod, ◌≡◌, ◌≢◌, refl, true, Option, none, some, List, [], ◌∷◌, arith,
  if◌then◌else◌,
}
use apus.Kvs.Key.{Key, str_eq, str_eq_iff}

-- `kvs_entry_t`; the length of the blob is that of the list.
pub record Item : Type 0 where
  pub key : Key
  pub blob : List ℕ

abbrev pub Chain : Type 0
Chain = List Item

-- The loop of lookup_key.
unfoldable pub find : Key → Chain → Option (List ℕ)
find key [] = none
find key (x ∷ c) = if str_eq key x.key then some x.blob else find key c

-- The unlinking of the first entry with the key.
unfoldable pub unlink : Key → Chain → Chain
unlink key [] = []
unlink key (x ∷ c) = if str_eq key x.key then c else x ∷ unlink key c

-- The assignment through the pointer that lookup_key returns.
unfoldable pub overwrite : Key → List ℕ → Chain → Chain
overwrite key blob [] = []
overwrite key blob (x ∷ c) =
    if str_eq key x.key then record x { blob = blob } ∷ c else x ∷ overwrite key blob c

-- No key stands twice in the list, and the lengths fit into 16 bits.
abbrev pub IsChain : Chain → Type 0
IsChain [] = Unit {0}
IsChain (x ∷ c) = (find x.key c ≡ none) × (length x.blob < u16_mod) × IsChain c

-- sizeof(kvs_snapshot_entry_t)
abbrev pub snapshot_entry_size : ℕ
snapshot_entry_size = 66

-- The bytes that a snapshot of the list takes.
abbrev pub bytes : Chain → ℕ
bytes [] = 0
bytes (x ∷ c) = snapshot_entry_size + length x.blob + bytes c

pub find_eq : (k l : Key) (c : Chain) → str_eq k l ≡ true → find k c ≡ find l c
unfolding find
find_eq k l [] h = refl
find_eq k l (x ∷ c) h =
    ground (arith, find_eq k l c h, h, str_eq_iff k l, str_eq_iff k x.key, str_eq_iff l x.key)

pub find-unlink :
    (k j : Key) (c : Chain)
    → IsChain c
    → find j (unlink k c) ≡ (if str_eq k j then none else find j c)
unfolding find unlink
find-unlink k j [] d = ground arith
find-unlink k j (x ∷ c) d = ground (
  arith,
  find-unlink k j c d.2,
  d.0,
  find_eq j x.key c,
  str_eq_iff k j,
  str_eq_iff k x.key,
  str_eq_iff j x.key,
)

pub find-overwrite :
    (k j : Key) (b : List ℕ) (c : Chain)
    → find k c ≢ none
    → find j (overwrite k b c) ≡ (if str_eq k j then some b else find j c)
unfolding find overwrite
find-overwrite k j b [] h = absurd (h refl)
find-overwrite k j b (x ∷ c) h =
    ground (arith, find-overwrite k j b c, str_eq_iff k j, str_eq_iff k x.key, str_eq_iff j x.key)

pub unlink-IsChain : (k : Key) (c : Chain) → IsChain c → IsChain (unlink k c)
unfolding unlink
unlink-IsChain k [] d = d
unlink-IsChain k (x ∷ c) d =
    ground (arith, unlink-IsChain k c d.2, find-unlink k x.key c d.2, d.0, d.1, d.2)

pub overwrite-IsChain :
    (k : Key) (b : List ℕ) (c : Chain)
    → find k c ≢ none
    → length b < u16_mod
    → IsChain c
    → IsChain (overwrite k b c)
unfolding overwrite find
overwrite-IsChain k b [] h e d = d
overwrite-IsChain k b (x ∷ c) h e d = ground (
  arith,
  overwrite-IsChain k b c,
  find-overwrite k x.key b c,
  d.0,
  d.1,
  d.2,
  e,
  str_eq_iff k x.key,
  find_eq k x.key c,
)

pub find-lt :
    (k : Key) (b : List ℕ) (c : Chain) → IsChain c → find k c ≡ some b → length b < u16_mod
unfolding find
find-lt k b [] d h = ground arith
find-lt k b (x ∷ c) d h = ground (arith, find-lt k b c d.2, d.1)

pub bytes-unlink :
    (k : Key) (b : List ℕ) (c : Chain)
    → find k c ≡ some b
    → bytes (unlink k c) + (snapshot_entry_size + length b) ≡ bytes c
unfolding find unlink
bytes-unlink k b [] h = ground arith
bytes-unlink k b (x ∷ c) h = grind (arith, bytes-unlink k b c)

pub bytes-overwrite :
    (k : Key) (b v : List ℕ) (c : Chain)
    → find k c ≡ some b
    → bytes (overwrite k v c) + length b ≡ bytes c + length v
unfolding find overwrite
bytes-overwrite k b v [] h = ground arith
bytes-overwrite k b v (x ∷ c) h = grind (arith, bytes-overwrite k b v c)
