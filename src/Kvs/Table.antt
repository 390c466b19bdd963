-- ===== src/Kvs/Table.antt =====
-- The table of src/dare/dare_kvs_sm.c and its operations. Allocations are taken to succeed, but for
-- realloc with the length 0.
use apus.Base.{
  Bool, not, ◌&&◌, ℕ, ◌+◌, ◌≡◌, Option, none, some, List, [], ◌∷◌, ◌==◌, if◌then◌else◌, length,
  get_or, set, replicate, add32, sub32, arith,
}
use apus.Kvs.Key.{Key, hash}
use apus.Kvs.Chain.{Chain, find, unlink, overwrite, snapshot_entry_size}

abbrev pub default_kvs_size : ℕ
default_kvs_size = 1024

abbrev pub kvs_put : ℕ
kvs_put = 1

abbrev pub kvs_get : ℕ
kvs_get = 2

abbrev pub kvs_rm : ℕ
kvs_rm = 3

-- `kvs_table_t`, with the global `kvs_size`.
pub record Table : Type 0 where
  pub size : ℕ
  pub table : List Chain
  pub kvs_size : ℕ

-- `kvs_cmd_t`; its `len` is the length of `blob`, the C field `data`.
pub record KvsCmd : Type 0 where
  pub type : ℕ
  pub key : Key
  pub blob : List ℕ

-- The first argument is the global `kvs_size`, which is not reset.
unfoldable pub create_kvs_sm : ℕ → ℕ → Table
create_kvs_sm kvs_size size =
    let n = (if size == 0 then default_kvs_size else size) in
    record { size = n; table = replicate n []; kvs_size = kvs_size }

abbrev pub chain_of : Table → Key → Chain
chain_of t key = get_or t.table (hash t.size key) []

abbrev pub put_chain : Table → Key → Chain → ℕ → Table
put_chain t key c n = record t { table = set t.table (hash t.size key) c; kvs_size = n }

-- `kvs_size` after a removal, an overwriting and an insertion.
abbrev pub size_removed : Table → List ℕ → ℕ
size_removed t old = sub32 (sub32 t.kvs_size snapshot_entry_size) (length old)

abbrev pub size_overwritten : Table → List ℕ → List ℕ → ℕ
size_overwritten t old blob =
    if length old == length blob then t.kvs_size else sub32 (t.kvs_size + length blob) (length old)

abbrev pub size_inserted : Table → List ℕ → ℕ
size_inserted t blob = add32 t.kvs_size (snapshot_entry_size + length blob)

unfoldable pub lookup_key : Table → Key → Option (List ℕ)
lookup_key t key = find key (chain_of t key)

unfoldable pub remove_key : Table → Key → Table
remove_key t key = elim (find key (chain_of t key)) [
  | none ↦ t
  | some blob ↦ put_chain t key (unlink key (chain_of t key)) (size_removed t blob)
]

-- The table that write_key leaves.
unfoldable pub put_key : Table → Key → List ℕ → Table
put_key t key blob = elim (lookup_key t key) [
  | some old ↦ put_chain t key (overwrite key blob (chain_of t key)) (size_overwritten t old blob)
  | none ↦
      put_chain t key (record { key = key; blob = blob } ∷ chain_of t key) (size_inserted t blob)
]

-- The new length differs from the old one and is 0: realloc then frees the value and gives NULL.
abbrev pub empties : List ℕ → List ℕ → Bool
empties old blob = not (length old == length blob) && length blob == 0

abbrev pub write_result : Option (List ℕ) → List ℕ → ℕ
write_result none blob = 0
write_result (some old) blob = if empties old blob then 1 else 0

-- The result code and the table; an error is found once the length has been set.
unfoldable pub write_key : Table → Key → List ℕ → ℕ × Table
write_key t key blob = (write_result (lookup_key t key) blob, put_key t key blob)

-- The result code, the table, and what the reply `data` holds afterwards.
unfoldable pub apply_kvs_cmd : Table → KvsCmd → List ℕ → ℕ × Table × List ℕ
apply_kvs_cmd t cmd reply =
    if cmd.type == kvs_put
    then (let r = write_key t cmd.key cmd.blob in (if r.0 == 0 then 0 else 1, r.1, reply))
    else if cmd.type == kvs_get
    then elim (lookup_key t cmd.key) [ none ↦ (0, t, []) | some blob ↦ (0, t, blob) ]
    else if cmd.type == kvs_rm
    then (0, remove_key t cmd.key, reply)
    else (1, t, reply)

pub remove_key-none : (t : Table) (k : Key) → lookup_key t k ≡ none → remove_key t k ≡ t
unfolding remove_key lookup_key
remove_key-none t k h = ground (arith, h)

pub remove_key-some :
    (t : Table) (k : Key) (b : List ℕ)
    → lookup_key t k ≡ some b
    → remove_key t k ≡ put_chain t k (unlink k (chain_of t k)) (size_removed t b)
unfolding remove_key lookup_key
remove_key-some t k b h = ground (arith, h)

pub put_key-none :
    (t : Table) (k : Key) (blob : List ℕ)
    → lookup_key t k ≡ none
    → put_key t k blob
      ≡ put_chain t k (record { key = k; blob = blob } ∷ chain_of t k) (size_inserted t blob)
unfolding put_key
put_key-none t k blob h = ground (arith, h)

pub put_key-some :
    (t : Table) (k : Key) (blob old : List ℕ)
    → lookup_key t k ≡ some old
    → put_key t k blob
      ≡ put_chain t k (overwrite k blob (chain_of t k)) (size_overwritten t old blob)
unfolding put_key
put_key-some t k blob old h = ground (arith, h)
