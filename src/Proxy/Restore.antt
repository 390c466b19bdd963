-- ===== src/Proxy/Restore.antt =====
-- src/proxy/proxy.c: what is saved, dumped and loaded is replayed.
use apus.Base.{
  ℕ, zero, suc, ◌+◌, ◌^◌, ◌<◌, ◌≡◌, refl, ap, ap₂, sym, ◌∙◌, subst, arith, false, some, List, [],
  ◌∷◌, ◌++◌, ltb, lt→ltb, length, length-append, get_or, add32, append-nil, append_assoc,
}
use apus.Log.Mem.{Mem, bytes}
use apus.Db.Records.{dump_records, dump_from}
use apus.Db.Dump.{store_record-dump}
use apus.Proxy.State.{Proxy, HashTable}
use apus.Proxy.Storage.{
  msg_size, store, stablestorage_save_request, stablestorage_dump_records, replay, load_from,
  stablestorage_load_records,
}
use apus.Proxy.Copies.{Copied, size-le, same_size, same_replay, bytes-Copied}

-- Requests in memory, each with its address, and the bytes of their records.
pub data IsRequests : List (Mem × ℕ) → List ℕ → Type 0 where
  no_requests : IsRequests [] []
  request :
      {rs : List (Mem × ℕ)} {bs : List ℕ} (m : Mem) (a n : ℕ)
      → msg_size m a ≡ some n
      → IsRequests rs bs
      → IsRequests ((m, a) ∷ rs) (bytes m a n ++ bs)

length-bytes : (m : Mem) (a n : ℕ) → length (bytes m a n) ≡ n
unfolding bytes
length-bytes m a zero = refl
length-bytes m a (suc n) = ap suc (length-bytes m (a + 1) n)

get_or-bytes : (m : Mem) (a n i : ℕ) → i < n → get_or (bytes m a n) i 0 ≡ m (a + i)
unfolding bytes
get_or-bytes m a zero i h = absurd (omega (arith, h))
get_or-bytes m a (suc n) zero h = ap m (omega arith)
get_or-bytes m a (suc n) (suc i) h =
    get_or-bytes m (a + 1) n i (omega (arith, h)) ∙ ap m (omega arith)

get_or-append_left :
    (xs ys : List ℕ) (i : ℕ) → i < length xs → get_or (xs ++ ys) i 0 ≡ get_or xs i 0
get_or-append_left [] ys i h = absurd (omega (arith, h))
get_or-append_left (x ∷ xs) ys zero h = refl
get_or-append_left (x ∷ xs) ys (suc i) h = get_or-append_left xs ys i (omega (arith, h))

get_or-append_right : (xs ys : List ℕ) (i : ℕ) → get_or (xs ++ ys) (length xs + i) 0 ≡ get_or ys i 0
get_or-append_right [] ys i = ap (λ j. get_or ys j 0) (omega arith)
get_or-append_right (x ∷ xs) ys i =
    let e : suc (length xs) + i ≡ suc (length xs + i) = omega arith in
    ap (λ j. get_or (x ∷ (xs ++ ys)) j 0) e ∙ get_or-append_right xs ys i

-- The list is in memory from this address on.
abbrev pub IsImage : Mem → ℕ → List ℕ → Type 0
IsImage m b bs = (i : ℕ) → i < length bs → m (b + i) ≡ get_or bs i 0

image-Copied :
    (m m' : Mem) (a b n : ℕ) (bs : List ℕ) → IsImage m' b (bytes m a n ++ bs) → Copied m a m' b n
image-Copied m m' a b n bs h i l =
    h i (omega (arith, l, length-bytes m a n, length-append (bytes m a n) bs))
    ∙ get_or-append_left (bytes m a n) bs i (omega (arith, l, length-bytes m a n))
    ∙ get_or-bytes m a n i l

behind_first :
    (m m' : Mem) (a b n : ℕ) (bs : List ℕ)
    → IsImage m' b (bytes m a n ++ bs)
    → IsImage m' (b + n) bs
behind_first m m' a b n bs h i l =
    let k = length-bytes m a n in
    ap m' (omega (arith, k))
    ∙ h (length (bytes m a n) + i) (omega (arith, l, length-append (bytes m a n) bs))
    ∙ get_or-append_right (bytes m a n) bs i

pub saved_request :
    {M : Type 0} (code : ℕ) (m : Mem) (a n : ℕ) (p : Proxy M)
    → msg_size m a ≡ some n
    → store code (bytes m a n) p ≡ stablestorage_save_request code m a p
unfolding stablestorage_save_request
saved_request code m a n p e = rw (stablestorage_save_request, e) refl

module _ {M : Type 0} (table : HashTable M) (rc : ℕ) where
  abbrev pub save_all : List (Mem × ℕ) → Proxy M → Proxy M
  save_all [] p = p
  save_all ((m, a) ∷ rs) p = save_all rs (stablestorage_save_request 0 m a p)

  -- Store a request, and replay it.
  abbrev pub restore_all : List (Mem × ℕ) → Proxy M → Proxy M
  restore_all [] p = p
  restore_all ((m, a) ∷ rs) p =
      restore_all rs (replay table m a (stablestorage_save_request rc m a p))

  saved-dump :
      {rs : List (Mem × ℕ)} {bs : List ℕ} (p : Proxy M)
      → IsRequests rs bs
      → stablestorage_dump_records (save_all rs p) ≡ stablestorage_dump_records p ++ bs
  unfolding stablestorage_dump_records
  saved-dump p no_requests = sym (append-nil (dump_records p.db))
  saved-dump p (request {rs} {bs} m a n e r) =
      ap (λ y. stablestorage_dump_records (save_all rs y)) (sym (saved_request 0 m a n p e))
      ∙ saved-dump (store 0 (bytes m a n) p) r
      ∙ ap (λ l. l ++ bs) (store_record-dump 0 (bytes m a n) p.db)
      ∙ append_assoc (dump_records p.db) (bytes m a n) bs

  load_step :
      (fuel : ℕ) (m : Mem) (b size n : ℕ) (p : Proxy M)
      → b < size
      → msg_size m b ≡ some n
      → load_from table (suc fuel) rc m b size p
        ≡ load_from table fuel rc m (add32 b n) size (replay table m b (store rc (bytes m b n) p))
  unfolding load_from
  load_step fuel m b size n p h e = rw (lt→ltb b size h, e) refl

  no_wrap : (b n : ℕ) → b + n < 2 ^ 32 → add32 b n ≡ b + n
  no_wrap b n h = omega (arith, h)

  load-all :
      (fuel : ℕ) {rs : List (Mem × ℕ)} {bs : List ℕ} (m' : Mem) (b size : ℕ) (p : Proxy M)
      → IsRequests rs bs
      → IsImage m' b bs
      → b + length bs ≡ size
      → size < 2 ^ 32
      → length bs < fuel
      → load_from table fuel rc m' b size p ≡ some (restore_all rs p)
  unfolding load_from
  load-all zero m' b size p r h t l f = absurd (omega (arith, f))
  load-all (suc fuel) m' b size p no_requests h t l f = rw (at_end b size (omega (arith, t))) refl
    where
      at_end : (b size : ℕ) → b ≡ size → ltb b size ≡ false
      at_end b size e = ground (arith, e)
  load-all (suc fuel) m' b size p (request {rs} {bs} m a n e r) h t l f =
      let copy = image-Copied m m' a b n bs h in
      let q = store rc (bytes m a n) p in
      let total = length-append (bytes m a n) bs in
      let k = length-bytes m a n in
      let small = size-le m a n e in
      let next =
        load-all fuel m' (b + n) size (replay table m a q) r (behind_first m m' a b n bs h)
          (omega (arith, t, total, k)) l (omega (arith, f, total, k, small)) in
      load_step fuel m' b size n p (omega (arith, t, total, k, small)) (same_size m m' a b n copy e)
      ∙ ap₂ (λ x y. load_from table fuel rc m' x size (replay table m' b (store rc y p)))
          (no_wrap b n (omega (arith, t, total, k, l)))
          (bytes-Copied m m' a b n n copy (omega arith))
      ∙ ap (λ y. load_from table fuel rc m' (b + n) size y) (same_replay m m' a b n copy table q e)
      ∙ next
      ∙ ap (λ y. some (restore_all rs (replay table m a y))) (saved_request rc m a n p e)

-- Requests are saved in an empty database, and none of the stores fails. A dump then holds the
-- requests, one after the other. Where it has less than 4 GB and is put into the memory of another
-- proxy, loading it there returns, and stores and replays each of the requests, in order.
pub load-dump :
    {M : Type 0} (table : HashTable M) (rc : ℕ) {rs : List (Mem × ℕ)} {bs : List ℕ} (p q : Proxy M)
    (buf : Mem)
    → IsRequests rs bs
    → p.db.records ≡ []
    → length bs < 2 ^ 32
    → IsImage buf 0 (stablestorage_dump_records (save_all table rc rs p))
    → (stablestorage_dump_records (save_all table rc rs p) ≡ bs)
      × (stablestorage_load_records table rc buf (length bs) q ≡ some (restore_all table rc rs q))
unfolding stablestorage_load_records
load-dump table rc {rs} {bs} p q buf r e l h =
    let dump = saved-dump table rc p r ∙ ap (λ l. l ++ bs) (no_dump p e) in
    (
      dump,
      load-all table rc (suc (length bs)) buf 0 (length bs) q r (subst (IsImage buf 0) dump h)
          (omega arith) l (omega arith),
    )
  where
    no_dump : {M : Type 0} (p : Proxy M) → p.db.records ≡ [] → stablestorage_dump_records p ≡ []
    no_dump p e = unfold stablestorage_dump_records dump_records dump_from in rw e refl
