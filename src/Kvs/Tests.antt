-- ===== src/Kvs/Tests.antt =====
-- Runs of the store of src/dare/dare_kvs_sm.c on a table of two lists.
use apus.Base.{ℕ, replicate, ◌≡◌, refl, List, [], ◌∷◌, arith, none}
use apus.Kvs.Table.{
  KvsCmd, create_kvs_sm, apply_kvs_cmd, lookup_key, write_key, put_key, remove_key, kvs_put,
  kvs_get, kvs_rm,
}
use apus.Kvs.Key.{c_string, str_eq, hash, hash_from}
use apus.Kvs.Chain.{find, unlink, overwrite}
use apus.Kvs.Size.{IsKvs, create_kvs_sm-IsKvs}
use apus.Kvs.Spec.{AreCommands, run, dict_run, create_kvs_sm-Dict, apply_kvs_cmd-IsKvs}

abbrev key_of : ℕ → List ℕ
key_of c = c ∷ replicate 63 0

-- The keys "a", "c" (in the same list) and "b".
abbrev put_a : KvsCmd
put_a = record { type = kvs_put; key = key_of 97; blob = 1 ∷ 2 ∷ 3 ∷ [] }

abbrev put_c : KvsCmd
put_c = record { type = kvs_put; key = key_of 99; blob = 4 ∷ [] }

abbrev empty_c : KvsCmd
empty_c = record { type = kvs_put; key = key_of 99; blob = [] }

abbrev get_a : KvsCmd
get_a = record { type = kvs_get; key = 97 ∷ 0 ∷ replicate 62 7; blob = [] }

abbrev rm_a : KvsCmd
rm_a = record { type = kvs_rm; key = key_of 97; blob = [] }

abbrev unknown : KvsCmd
unknown = record { type = 9; key = key_of 0; blob = [] }

abbrev commands : List KvsCmd
commands = put_a ∷ put_c ∷ empty_c ∷ get_a ∷ rm_a ∷ get_a ∷ unknown ∷ []

commands-AreCommands : AreCommands commands
commands-AreCommands = (
  omega arith,
  refl,
  unfold c_string in omega arith,
  (
    omega arith,
    refl,
    unfold c_string in omega arith,
    (
      omega arith,
      refl,
      unfold c_string in omega arith,
      (
        omega arith,
        refl,
        unfold c_string in omega arith,
        (
          omega arith,
          refl,
          unfold c_string in omega arith,
          (
            omega arith,
            refl,
            unfold c_string in omega arith,
            (omega arith, refl, unfold c_string in omega arith, tt),
          ),
        ),
      ),
    ),
  ),
)

run-commands : run (create_kvs_sm 0 2) commands [] ≡ (
    (0, [])
    ∷ (0, [])
    ∷ (1, [])
    ∷ (0, 1 ∷ 2 ∷ 3 ∷ [])
    ∷ (0, 1 ∷ 2 ∷ 3 ∷ [])
    ∷ (0, [])
    ∷ (1, [])
    ∷ [])
unfolding create_kvs_sm apply_kvs_cmd lookup_key write_key put_key remove_key str_eq hash hash_from
    find unlink overwrite
run-commands = refl

create_kvs_sm-Dict_example : run (create_kvs_sm 0 2) commands [] ≡ dict_run (λ k. none) commands []
create_kvs_sm-Dict_example = create_kvs_sm-Dict 2 commands [] commands-AreCommands

apply_kvs_cmd-IsKvs_example : IsKvs (apply_kvs_cmd (create_kvs_sm 0 2) put_a []).1
apply_kvs_cmd-IsKvs_example =
    apply_kvs_cmd-IsKvs (create_kvs_sm 0 2) put_a [] (omega arith) (create_kvs_sm-IsKvs 2)
