-- ===== src/Kvs/Lookup.antt =====
-- What a lookup in the table of src/dare/dare_kvs_sm.c finds after a write or a removal.
use apus.Base.{
  ℕ, ◌<◌, ◌≡◌, zero, suc, subst, length-set, u16_mod, Option-cases, sym, ◌∙◌, ap, true, Option,
  none, some, List, [], ◌∷◌, arith, if◌then◌else◌, length, get_or, set, get_or-set_self,
  get_or-set_ne, inl, inr, ◌==◌,
}
use apus.Kvs.Key.{Key, hash, hash-lt, hash_eq, str_eq, str_eq_iff}
use apus.Kvs.Chain.{
  Chain, find, IsChain, find-unlink, find-overwrite, unlink-IsChain, overwrite-IsChain, find_eq,
}
use apus.Kvs.Table.{
  Table, chain_of, put_chain, lookup_key, remove_key, put_key, remove_key-none, remove_key-some,
  put_key-none, put_key-some, size_removed, size_inserted, size_overwritten,
}

-- There is a list for each hash, and the lists are well formed.
abbrev pub IsTable : Table → Type 0
IsTable t = (0 < t.size) × (length t.table ≡ t.size) × ((i : ℕ) → IsChain (get_or t.table i []))

-- A list put for one key is found by the keys with its hash and by no others.
lookup-put_chain :
    (t : Table) (k j : Key) (c : Chain) (n : ℕ)
    → IsTable t
    → lookup_key (put_chain t k c n) j
      ≡ (if hash t.size k == hash t.size j then find j c else lookup_key t j)
unfolding lookup_key
lookup-put_chain t k j c n h = ground (
  arith,
  get_or-set_self t.table (hash t.size k) c [],
  get_or-set_ne t.table (hash t.size k) (hash t.size j) c [],
  hash-lt t.size k,
  h.0,
  h.1,
)

-- A list that finds `r` for one key, and what it found before for all others, makes the table do
-- so.
lookup-put_eq :
    (t : Table) (k j : Key) (c : Chain) (n : ℕ) (r : Option (List ℕ))
    → IsTable t
    → find j c ≡ (if str_eq k j then r else find j (chain_of t k))
    → lookup_key (put_chain t k c n) j ≡ (if str_eq k j then r else lookup_key t j)
unfolding lookup_key
lookup-put_eq t k j c n r h e = lookup-put_chain t k j c n h ∙ ground (arith, e, hash_eq t.size k j)

-- One key is found like any other that is the same string.
lookup_eq : (t : Table) (k j : Key) → str_eq k j ≡ true → lookup_key t k ≡ lookup_key t j
unfolding lookup_key
lookup_eq t k j h = grind (arith, find_eq k j (chain_of t k) h, hash_eq t.size k j h)

find-cons :
    (k j : Key) (b : List ℕ) (c : Chain)
    → find j (record { key = k; blob = b } ∷ c) ≡ (if str_eq k j then some b else find j c)
unfolding find
find-cons k j b c = ground (arith, str_eq_iff k j, str_eq_iff j k)

-- A removed key is found no more, and every other key is found as before.
pub lookup-remove_key :
    (t : Table) (k j : Key)
    → IsTable t
    → lookup_key (remove_key t k) j ≡ (if str_eq k j then none else lookup_key t j)
unfolding lookup_key
lookup-remove_key t k j h = elim (Option-cases (find k (chain_of t k))) [
  | inl e ↦ ground (arith, remove_key-none t k e, lookup_eq t k j, e)
  | inr (b, e) ↦
      ap (λ x. lookup_key x j) (remove_key-some t k b e)
      ∙ lookup-put_eq t k j _ (size_removed t b) none h
          (find-unlink k j (chain_of t k) (h.2 (hash t.size k)))
]

-- A written key is found with the value written, and every other key is found as before.
pub lookup-put_key :
    (t : Table) (k j : Key) (blob : List ℕ)
    → IsTable t
    → lookup_key (put_key t k blob) j ≡ (if str_eq k j then some blob else lookup_key t j)
unfolding lookup_key
lookup-put_key t k j blob h = elim (Option-cases (find k (chain_of t k))) [
  | inl e ↦
      ap (λ x. lookup_key x j) (put_key-none t k blob e)
      ∙ lookup-put_eq t k j _ (size_inserted t blob) (some blob) h
          (find-cons k j blob (chain_of t k))
  | inr (b, e) ↦
      ap (λ x. lookup_key x j) (put_key-some t k blob b e)
      ∙ lookup-put_eq t k j _ (size_overwritten t b blob) (some blob) h
          (find-overwrite k j blob (chain_of t k) (ground (arith, e)))
]

set_chain :
    (ts : List Chain) (i j : ℕ) (c : Chain)
    → IsChain c
    → ((i : ℕ) → IsChain (get_or ts i []))
    → IsChain (get_or (set ts i c) j [])
set_chain [] i j c d h = h j
set_chain (x ∷ ts) zero zero c d h = d
set_chain (x ∷ ts) zero (suc j) c d h = h (suc j)
set_chain (x ∷ ts) (suc i) zero c d h = h zero
set_chain (x ∷ ts) (suc i) (suc j) c d h = set_chain ts i j c d (λ n. h (suc n))

put_chain-IsTable :
    (t : Table) (k : Key) (c : Chain) (n : ℕ) → IsTable t → IsChain c → IsTable (put_chain t k c n)
put_chain-IsTable t k c n h d = (
  h.0,
  length-set t.table (hash t.size k) c ∙ h.1,
  λ j. set_chain t.table (hash t.size k) j c d h.2,
)

pub remove_key-IsTable : (t : Table) (k : Key) → IsTable t → IsTable (remove_key t k)
remove_key-IsTable t k h = elim (Option-cases (lookup_key t k)) [
  | inl e ↦ subst IsTable (sym (remove_key-none t k e)) h
  | inr (b, e) ↦ subst IsTable (sym (remove_key-some t k b e)) (
      put_chain-IsTable t k _ (size_removed t b) h
        (unlink-IsChain k (chain_of t k) (h.2 (hash t.size k))))
]

pub put_key-IsTable :
    (t : Table) (k : Key) (blob : List ℕ)
    → length blob < u16_mod
    → IsTable t
    → IsTable (put_key t k blob)
unfolding lookup_key
put_key-IsTable t k blob l h = elim (Option-cases (lookup_key t k)) [
  | inl e ↦
      subst IsTable (sym (put_key-none t k blob e))
        (put_chain-IsTable t k _ (size_inserted t blob) h (e, l, h.2 (hash t.size k)))
  | inr (b, e) ↦ subst IsTable (sym (put_key-some t k blob b e)) (
      put_chain-IsTable t k _ (size_overwritten t b blob) h
        (overwrite-IsChain k blob (chain_of t k) (ground (arith, e)) l (h.2 (hash t.size k))))
]
