-- ===== src/Db/Tests.antt =====
-- A run of src/db/db-interface.c in which the second store fails.
use apus.Base.{◌+◌, ◌%◌, ◌≡◌, [], ◌∷◌, ◌++◌, u32_mod}
use apus.Db.Records.{Db, dump_records, get_records_len}
use apus.Db.Dump.{Stores, store_all, stored, attempted, store_all-dump}

abbrev stores : Stores
stores = (0, 1 ∷ 2 ∷ []) ∷ (5, 3 ∷ []) ∷ (0, 4 ∷ []) ∷ []

abbrev fresh_db : Db
fresh_db = record { records = []; records_len = 0 }

store_all-dump_example :
    (dump_records (store_all stores fresh_db) ≡ dump_records fresh_db ++ stored stores)
    × (get_records_len (store_all stores fresh_db) % u32_mod ≡ (0 + attempted stores) % u32_mod)
store_all-dump_example = store_all-dump stores fresh_db
