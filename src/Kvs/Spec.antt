-- ===== src/Kvs/Spec.antt =====
-- What src/dare/dare_kvs_sm.c promises: it answers a sequence of commands as a map from keys does.
use apus.Base.{
  Bool, true, false, ℕ, ◌<◌, ◌≡◌, refl, ap, ap₂, ◌∙◌, Option, none, some, List, [], ◌∷◌, arith,
  ◌==◌, if◌then◌else◌, length, u16_mod, get_or, replicate, zero, suc,
}
use apus.Kvs.Key.{Key, key_size, c_string, str_eq, hash}
use apus.Kvs.Chain.{find, Chain}
use apus.Kvs.Table.{
  write_key, write_result, Table, KvsCmd, apply_kvs_cmd, lookup_key, create_kvs_sm, kvs_put,
  kvs_get, kvs_rm, default_kvs_size,
}
use apus.Kvs.Lookup.{lookup-put_key, lookup-remove_key}
use apus.Kvs.Size.{IsKvs, put_key-IsKvs, remove_key-IsKvs, create_kvs_sm-IsKvs}

-- A value that is not empty is there already, and the new one is empty.
abbrev pub clears : Option (List ℕ) → List ℕ → Bool
clears none blob = false
clears (some []) blob = false
clears (some (x ∷ xs)) [] = true
clears (some (x ∷ xs)) (y ∷ ys) = false

-- A result code and what the reply holds.
abbrev pub Reply : Type 0
Reply = ℕ × List ℕ

abbrev pub Dict : Type 0
Dict = Key → Option (List ℕ)

abbrev pub dict_answer : Dict → KvsCmd → List ℕ → Reply
dict_answer d cmd reply =
    if cmd.type == kvs_put
    then ((if clears (d cmd.key) cmd.blob then 1 else 0), reply)
    else if cmd.type == kvs_get
    then (0, elim (d cmd.key) [ none ↦ [] | some b ↦ b ])
    else if cmd.type == kvs_rm
    then (0, reply)
    else (1, reply)

abbrev pub dict_next : Dict → KvsCmd → Dict
dict_next d cmd k =
    if cmd.type == kvs_put
    then (if str_eq cmd.key k then some cmd.blob else d k)
    else if cmd.type == kvs_get
    then d k
    else if cmd.type == kvs_rm
    then (if str_eq cmd.key k then none else d k)
    else d k

abbrev pub dict_run : Dict → List KvsCmd → List ℕ → List Reply
dict_run d [] reply = []
dict_run d (cmd ∷ cmds) reply =
    let r = dict_answer d cmd reply in r ∷ dict_run (dict_next d cmd) cmds r.1

-- The replies of the table to the commands; each finds in `data` what the last one left there.
abbrev pub run : Table → List KvsCmd → List ℕ → List Reply
run t [] reply = []
run t (cmd ∷ cmds) reply = let r = apply_kvs_cmd t cmd reply in (r.0, r.2) ∷ run r.1 cmds r.2

-- `len` is a uint16_t, and `key` an array of 64 bytes with a NUL byte.
abbrev pub AreCommands : List KvsCmd → Type 0
AreCommands [] = Unit {0}
AreCommands (cmd ∷ cmds) =
    (length cmd.blob < u16_mod)
    × (length cmd.key ≡ key_size)
    × (length (c_string cmd.key) < key_size)
    × AreCommands cmds

write_result-clears :
    (o : Option (List ℕ)) (blob : List ℕ)
    → ◌≡◌ {A = ℕ} (if write_result o blob == 0 then 0 else 1) (if clears o blob then 1 else 0)
write_result-clears none blob = refl
write_result-clears (some []) [] = refl
write_result-clears (some []) (y ∷ ys) = ground arith
write_result-clears (some (x ∷ xs)) [] = ground arith
write_result-clears (some (x ∷ xs)) (y ∷ ys) = ground arith

apply_kvs_cmd-answer :
    (t : Table) (d : Dict) (cmd : KvsCmd) (reply : List ℕ)
    → ((k : Key) → lookup_key t k ≡ d k)
    → (let r = apply_kvs_cmd t cmd reply in (r.0, r.2)) ≡ dict_answer d cmd reply
unfolding apply_kvs_cmd write_key
apply_kvs_cmd-answer t d cmd reply h =
    ground (arith, h cmd.key, write_result-clears (d cmd.key) cmd.blob)

apply_kvs_cmd-next :
    (t : Table) (d : Dict) (cmd : KvsCmd) (reply : List ℕ)
    → IsKvs t
    → ((k : Key) → lookup_key t k ≡ d k)
    → (k : Key) → lookup_key (apply_kvs_cmd t cmd reply).1 k ≡ dict_next d cmd k
unfolding apply_kvs_cmd write_key
apply_kvs_cmd-next t d cmd reply i h k =
    ground (arith, h k, lookup-put_key t cmd.key k cmd.blob i.0, lookup-remove_key t cmd.key k i.0)

pub apply_kvs_cmd-IsKvs :
    (t : Table) (cmd : KvsCmd) (reply : List ℕ)
    → length cmd.blob < u16_mod
    → IsKvs t
    → IsKvs (apply_kvs_cmd t cmd reply).1
unfolding apply_kvs_cmd write_key
apply_kvs_cmd-IsKvs t cmd reply l i =
    ground (arith, put_key-IsKvs t cmd.key cmd.blob l i, remove_key-IsKvs t cmd.key i, i)

get_or-replicate : (n i : ℕ) → get_or (replicate {A = Chain} n []) i [] ≡ []
get_or-replicate zero i = refl
get_or-replicate (suc n) zero = refl
get_or-replicate (suc n) (suc i) = get_or-replicate n i

run-dict :
    (t : Table) (d : Dict) (cmds : List KvsCmd) (reply : List ℕ)
    → IsKvs t
    → AreCommands cmds
    → ((k : Key) → lookup_key t k ≡ d k)
    → run t cmds reply ≡ dict_run d cmds reply
run-dict t d [] reply i s h = refl
run-dict t d (cmd ∷ cmds) reply i s h =
    let r = apply_kvs_cmd t cmd reply in
    let e = apply_kvs_cmd-answer t d cmd reply h in
    let rest =
      run-dict r.1 (dict_next d cmd) cmds r.2 (apply_kvs_cmd-IsKvs t cmd reply s.0 i) s.3
        (apply_kvs_cmd-next t d cmd reply i h) in
    ap₂ (λ x xs. x ∷ xs) e (rest ∙ ap (λ x. dict_run (dict_next d cmd) cmds x.1) e)

lookup-create_kvs_sm : (n size : ℕ) (k : Key) → lookup_key (create_kvs_sm n size) k ≡ none
unfolding create_kvs_sm lookup_key find
lookup-create_kvs_sm n size k =
    let m = (if size == 0 then default_kvs_size else size) in
    ap (find k) (get_or-replicate m (hash m k))

-- A new store answers every sequence of commands, unknown ones included, whose keys are C strings of
-- less than 64 bytes, as the empty map does: with the same data, and with the same result codes. To
-- write an empty value in place of one that is not empty is an error, and does replace it.
pub create_kvs_sm-Dict :
    (size : ℕ) (cmds : List KvsCmd) (reply : List ℕ)
    → AreCommands cmds
    → run (create_kvs_sm 0 size) cmds reply ≡ dict_run (λ k. none) cmds reply
create_kvs_sm-Dict size cmds reply s =
    run-dict (create_kvs_sm 0 size) (λ k. none) cmds reply (create_kvs_sm-IsKvs size) s
      (lookup-create_kvs_sm 0 size)
