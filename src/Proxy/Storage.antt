-- ===== src/Proxy/Storage.antt =====
-- src/proxy/proxy.c: the requests as records of the database. A request in memory is a header, the
-- connection at 0 and the action at 2, of 4 bytes; that of data goes on with the length at 8 and the
-- data from 10 on, and has sizeof(proxy_send_msg) = 24.
use apus.Base.{ℕ, zero, suc, ◌+◌, true, Option, none, some, List, ◌==◌, ltb, if◌then◌else◌, add32}
use apus.Log.Mem.{Mem, load, bytes}
use apus.Db.Records.{store_record, dump_records, get_records_len}
use apus.Proxy.State.{Proxy, HashTable, connect_type, send_type, close_type}
use apus.Proxy.Action.{do_action_connect, do_action_send, do_action_close}

abbrev pub header_size : ℕ
header_size = 4

abbrev pub send_size : ℕ
send_size = 24

unfoldable pub header_connection : Mem → ℕ → ℕ
header_connection m a = load m a 2

unfoldable pub header_action : Mem → ℕ → ℕ
header_action m a = load m (a + 2) 1

unfoldable pub send_len : Mem → ℕ → ℕ
send_len m a = load m (a + 8) 2

unfoldable pub send_data : Mem → ℕ → List ℕ
send_data m a = bytes m (a + 10) (send_len m a)

-- The size of the request at an address; none for another action.
unfoldable pub msg_size : Mem → ℕ → Option ℕ
msg_size m a =
    if header_action m a == send_type
    then some (send_len m a + send_size)
    else if header_action m a == connect_type
    then some header_size
    else if header_action m a == close_type
    then some header_size
    else none

module _ {M : Type 0} where
  -- The database, and the code that its `put` returns, which is not looked at.
  abbrev pub store : ℕ → List ℕ → Proxy M → Proxy M
  store rc blob p = record p { db = (store_record true rc blob p.db).1 }

  unfoldable pub stablestorage_save_request : ℕ → Mem → ℕ → Proxy M → Proxy M
  stablestorage_save_request rc m a p = elim (msg_size m a) [
    | none ↦ p
    | some n ↦ store rc (bytes m a n) p
  ]

  unfoldable pub stablestorage_get_records_len : Proxy M → ℕ
  stablestorage_get_records_len p = get_records_len p.db

  unfoldable pub stablestorage_dump_records : Proxy M → List ℕ
  stablestorage_dump_records p = dump_records p.db

module _ {M : Type 0} (table : HashTable M) where
  unfoldable pub replay : Mem → ℕ → Proxy M → Proxy M
  replay m a p =
      if header_action m a == send_type
      then do_action_send table (header_connection m a) (send_data m a) p
      else if header_action m a == connect_type
      then do_action_connect table (header_connection m a) p
      else do_action_close table (header_connection m a) p

  -- The loop over the buffer at address 0, on fuel; it does not move on at another action. `len` has
  -- 32 bits.
  unfoldable pub load_from : ℕ → ℕ → Mem → ℕ → ℕ → Proxy M → Option (Proxy M)
  load_from zero rc m len size p = none
  load_from (suc fuel) rc m len size p =
      if ltb len size
      then elim (msg_size m len) [
        | none ↦ load_from fuel rc m len size p
        | some n ↦
            load_from fuel rc m (add32 len n) size (replay m len (store rc (bytes m len n) p))
      ]
      else some p

  -- Each request has 4 bytes at least.
  unfoldable pub stablestorage_load_records : ℕ → Mem → ℕ → Proxy M → Option (Proxy M)
  stablestorage_load_records rc m size p = load_from (suc size) rc m 0 size p
