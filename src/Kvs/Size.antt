-- ===== src/Kvs/Size.antt =====
-- The global `kvs_size` of src/dare/dare_kvs_sm.c, the bytes that a snapshot of the table takes.
use apus.Base.{
  ℕ, ◌+◌, ◌<◌, ◌≡◌, zero, suc, refl, sym, ap, subst, Option-cases, inl, inr, ◌%◌, length, get_or,
  set, List, [], ◌∷◌, arith, u16_mod, u32_mod, replicate, ◌==◌, if◌then◌else◌,
}
use apus.Kvs.Key.{Key, hash, hash-lt}
use apus.Kvs.Chain.{
  Chain, bytes, bytes-unlink, bytes-overwrite, find-lt, unlink, overwrite, IsChain,
}
use apus.Kvs.Table.{
  Table, lookup_key, remove_key, put_key, remove_key-none, remove_key-some, put_key-none,
  put_key-some, chain_of, put_chain, create_kvs_sm, default_kvs_size, size_removed, size_inserted,
  size_overwritten,
}
use apus.Kvs.Lookup.{IsTable, remove_key-IsTable, put_key-IsTable}

abbrev pub total : List Chain → ℕ
total [] = 0
total (c ∷ ts) = bytes c + total ts

-- The table is well formed, and `kvs_size` is the size of its contents modulo 2 ^ 32.
abbrev pub IsKvs : Table → Type 0
IsKvs t = IsTable t × (t.kvs_size ≡ total t.table % u32_mod)

total-set :
    (ts : List Chain) (i : ℕ) (c : Chain)
    → i < length ts
    → total (set ts i c) + bytes (get_or ts i []) ≡ total ts + bytes c
total-set [] i c h = absurd (omega arith)
total-set (x ∷ ts) zero c h = omega arith
total-set (x ∷ ts) (suc i) c h = omega (arith, total-set ts i c (omega arith))

total-put_chain :
    (t : Table) (k : Key) (c : Chain) (n : ℕ)
    → IsTable t
    → total (put_chain t k c n).table + bytes (chain_of t k) ≡ total t.table + bytes c
total-put_chain t k c n h =
    total-set t.table (hash t.size k) c (omega (arith, hash-lt t.size k h.0, h.1))

-- Removing a key keeps the invariant.
pub remove_key-IsKvs : (t : Table) (k : Key) → IsKvs t → IsKvs (remove_key t k)
unfolding lookup_key
remove_key-IsKvs t k (h, e) = elim (Option-cases (lookup_key t k)) [
  | inl n ↦ subst IsKvs (sym (remove_key-none t k n)) (h, e)
  | inr (b, s) ↦ (
    remove_key-IsTable t k h,
    subst (λ x. x.kvs_size ≡ total x.table % u32_mod) (sym (remove_key-some t k b s))
        (omega (
          arith,
          e,
          total-put_chain t k (unlink k (chain_of t k)) (size_removed t b) h,
          bytes-unlink k b (chain_of t k) s,
          find-lt k b (chain_of t k) (h.2 (hash t.size k)) s,
        )),
  )
]

-- Writing a key keeps the invariant.
pub put_key-IsKvs :
    (t : Table) (k : Key) (blob : List ℕ)
    → length blob < u16_mod
    → IsKvs t
    → IsKvs (put_key t k blob)
unfolding lookup_key
put_key-IsKvs t k blob l (h, e) = elim (Option-cases (lookup_key t k)) [
  | inl n ↦ (
    put_key-IsTable t k blob l h,
    subst (λ x. x.kvs_size ≡ total x.table % u32_mod) (sym (put_key-none t k blob n))
        (omega (
          arith,
          e,
          total-put_chain t k (record { key = k; blob = blob } ∷ chain_of t k)
              (size_inserted t blob) h,
        )),
  )
  | inr (b, s) ↦ (
    put_key-IsTable t k blob l h,
    subst (λ x. x.kvs_size ≡ total x.table % u32_mod) (sym (put_key-some t k blob b s))
        (ground (
          arith,
          e,
          total-put_chain t k (overwrite k blob (chain_of t k)) (size_overwritten t b blob) h,
          bytes-overwrite k b blob (chain_of t k) s,
          find-lt k b (chain_of t k) (h.2 (hash t.size k)) s,
        )),
  )
]

replicate-IsChain : (n i : ℕ) → IsChain (get_or (replicate n []) i [])
replicate-IsChain zero i = tt
replicate-IsChain (suc n) zero = tt
replicate-IsChain (suc n) (suc i) = replicate-IsChain n i

total-replicate : (n : ℕ) → total (replicate n []) ≡ 0
total-replicate zero = refl
total-replicate (suc n) = omega (arith, total-replicate n)

length-replicate : (n : ℕ) → length (replicate {A = Chain} n []) ≡ n
length-replicate zero = refl
length-replicate (suc n) = ap suc (length-replicate n)

initial_size : (size : ℕ) → 0 < (if size == 0 then default_kvs_size else size)
initial_size size = ground arith

-- The first table that a process creates satisfies the invariant.
pub create_kvs_sm-IsKvs : (size : ℕ) → IsKvs (create_kvs_sm 0 size)
unfolding create_kvs_sm
create_kvs_sm-IsKvs size =
    let n = (if size == 0 then default_kvs_size else size) in
    ((initial_size size, length-replicate n, replicate-IsChain n), omega (arith, total-replicate n))
