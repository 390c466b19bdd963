-- ===== src/Db/Dump.antt =====
-- src/db/db-interface.c: a sequence of stores, the dump and the length that is reported for it.
use apus.Base.{
  ℕ, ◌+◌, ◌%◌, ◌≡◌, refl, sym, ap, ◌∙◌, Bool, true, false, List, [], ◌∷◌, ◌++◌, ◌==◌, if◌then◌else◌,
  length, u32_mod, arith, append_assoc, append-nil,
}
use apus.Db.Records.{Db, store_record, dump_from, dump_records, get_records_len}

-- The code of `put` and the data, for each call in turn.
abbrev pub Stores : Type 0
Stores = List (ℕ × List ℕ)

abbrev pub store_all : Stores → Db → Db
store_all [] db = db
store_all ((rc, blob) ∷ xs) db = store_all xs (store_record true rc blob db).1

-- The data of the stores that succeed, joined, and the length of all.
abbrev pub stored : Stores → List ℕ
stored [] = []
stored ((rc, blob) ∷ xs) = if rc == 0 then blob ++ stored xs else stored xs

abbrev pub attempted : Stores → ℕ
attempted [] = 0
attempted ((rc, blob) ∷ xs) = length blob + attempted xs

dump_from-append :
    (buf : List ℕ) (rs : List (List ℕ)) (r : List ℕ)
    → dump_from buf (rs ++ (r ∷ [])) ≡ dump_from buf rs ++ r
unfolding dump_from
dump_from-append buf [] r = refl
dump_from-append buf (x ∷ rs) r = dump_from-append (buf ++ x) rs r

dump-if :
    (b : Bool) (blob : List ℕ) (rs : List (List ℕ)) (n : ℕ)
    → dump_records (
        if b
        then record { records = rs ++ (blob ∷ []); records_len = n }
        else record { records = rs; records_len = n })
      ≡ dump_from [] rs ++ (if b then blob else [])
unfolding dump_records
dump-if true blob rs n = dump_from-append [] rs blob
dump-if false blob rs n = sym (append-nil (dump_from [] rs))

pub store_record-dump :
    (rc : ℕ) (blob : List ℕ) (db : Db)
    → dump_records (store_record true rc blob db).1
      ≡ dump_records db ++ (if rc == 0 then blob else [])
unfolding store_record dump_records
store_record-dump rc blob db = dump-if (rc == 0) blob db.records _

stored-if :
    (b : Bool) (blob rest : List ℕ)
    → (if b then blob else []) ++ rest ≡ (if b then blob ++ rest else rest)
stored-if true blob rest = refl
stored-if false blob rest = refl

abbrev HasLen : ℕ → Db → Type 0
HasLen n db = db.records_len ≡ n

if-HasLen : (b : Bool) (n : ℕ) (x y : Db) → HasLen n x → HasLen n y → HasLen n (if b then x else y)
if-HasLen true n x y h k = h
if-HasLen false n x y h k = k

store_record-len :
    (rc : ℕ) (blob : List ℕ) (db : Db)
    → (store_record true rc blob db).1.records_len ≡ (db.records_len + length blob) % u32_mod
unfolding store_record
store_record-len rc blob db = if-HasLen (rc == 0) _ _ _ refl refl

-- After any sequence of stores, a dump holds what was there and then the data of those that
-- succeeded, in order; the length that get_records_len reports has grown by the data of all of
-- them, those that failed included, modulo 2 ^ 32.
pub store_all-dump :
    (xs : Stores) (db : Db)
    → (dump_records (store_all xs db) ≡ dump_records db ++ stored xs)
      × (get_records_len (store_all xs db) % u32_mod ≡ (db.records_len + attempted xs) % u32_mod)
unfolding get_records_len
store_all-dump [] db = (sym (append-nil (dump_records db)), omega arith)
store_all-dump ((rc, blob) ∷ xs) db =
    let next = (store_record true rc blob db).1 in
    let (h, k) = store_all-dump xs next in
    (
      h
          ∙ ap (λ l. l ++ stored xs) (store_record-dump rc blob db)
          ∙ append_assoc (dump_records db) (if rc == 0 then blob else []) (stored xs)
          ∙ ap (λ l. dump_records db ++ l) (stored-if (rc == 0) blob (stored xs)),
      omega (arith, k, store_record-len rc blob db),
    )
