-- ===== src/Proxy/Loss.antt =====
-- src/proxy/proxy.c: what a server passes to stablestorage_save_request. persist_new_entries passes
-- the address of the client of an entry, whose data lies 24 bytes behind it, not 8.
use apus.Base.{ℕ, ◌+◌, ◌≡◌, refl, ap, sym, ◌∙◌, arith, some}
use apus.Log.Mem.{Mem, Same, load}
use apus.Log.Entry.{entry_type}
use apus.Rc.Replicate.{entry_reply}
use apus.Proxy.State.{Proxy, send_type}
use apus.Proxy.Storage.{header_action, send_len, msg_size, store, stablestorage_save_request}
use apus.Proxy.Copies.{Copied, same_size, bytes-Copied}
use apus.Proxy.Restore.{saved_request}

-- The size is that of an entry without data: what is read as its length are two replies.
entry-msg_size :
    (m : Mem) (a : ℕ)
    → entry_type m a ≡ send_type
    → entry_reply m a 4 ≡ 0
    → entry_reply m a 5 ≡ 0
    → msg_size m (a + 24) ≡ some 24
unfolding msg_size header_action send_len entry_type entry_reply load
entry-msg_size m a t r s =
    let type : load m (a + 24 + 2) 1 ≡ send_type = ap (λ x. load m x 1) (omega arith) ∙ t in
    let low : m (a + 24 + 8) ≡ 0 = ap m (omega arith) ∙ r in
    let high : m (a + 24 + 8 + 1) ≡ 0 = ap m (omega arith) ∙ s in rw (type, low, high) refl

-- In a group of up to four servers, whose replies 4 and 5 of an entry are 0, the record of an entry
-- with data is the same for any two entries that agree on the 24 bytes from the client on: the data,
-- which begins 26 bytes behind it, is not part of the record.
pub save_request-loss :
    {M : Type 0} (rc : ℕ) (m m' : Mem) (a : ℕ) (p : Proxy M)
    → entry_type m a ≡ send_type
    → entry_reply m a 4 ≡ 0
    → entry_reply m a 5 ≡ 0
    → Same m m' (a + 24) (a + 48)
    → stablestorage_save_request rc m' (a + 24) p ≡ stablestorage_save_request rc m (a + 24) p
save_request-loss rc m m' a p t r s h =
    let size = entry-msg_size m a t r s in
    let copy : Copied m (a + 24) m' (a + 24) 24 =
      λ i l. h (a + 24 + i) (omega arith) (omega (arith, l)) in
    sym (saved_request rc m' (a + 24) 24 p (same_size m m' (a + 24) (a + 24) 24 copy size))
    ∙ ap (λ y. store rc y p) (bytes-Copied m m' (a + 24) (a + 24) 24 24 copy (omega arith))
    ∙ saved_request rc m (a + 24) 24 p size
