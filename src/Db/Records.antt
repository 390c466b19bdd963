-- ===== src/Db/Records.antt =====
-- src/db/db-interface.c: store_record, dump_records and get_records_len. Berkeley DB is a
-- parameter: the code that its `put` returns, which appends the record exactly if the code is 0;
-- the cursor reads the records in the order in which they were appended. Records are shorter than 4
-- GB.
use apus.Base.{ℕ, Bool, List, [], ◌∷◌, ◌++◌, ◌==◌, if◌then◌else◌, length, add32}

-- What the database holds, and the global `records_len`.
pub record Db : Type 0 where
  pub records : List (List ℕ)
  pub records_len : ℕ

-- Whether the database is open, the code of `put`, and the data. The result is the code returned.
unfoldable pub store_record : Bool → ℕ → List ℕ → Db → ℕ × Db
store_record is_open rc blob db =
    let db' = record db { records_len = add32 db.records_len (length blob) } in
    if is_open
    then (rc, if rc == 0 then record db' { records = db.records ++ (blob ∷ []) } else db')
    else (1, db)

-- The loop over the cursor, which copies to the end of what is in the buffer.
unfoldable pub dump_from : List ℕ → List (List ℕ) → List ℕ
dump_from buf [] = buf
dump_from buf (r ∷ rs) = dump_from (buf ++ r) rs

unfoldable pub dump_records : Db → List ℕ
dump_records db = dump_from [] db.records

unfoldable pub get_records_len : Db → ℕ
get_records_len db = db.records_len
