-- ===== src/Proxy/Tests.antt =====
-- Runs of src/proxy/proxy.c with tables that are functions, and the theorems there.
use apus.Base.{
  ℕ, ◌+◌, ◌%◌, ◌^◌, ◌<◌, ◌≡◌, ◌≢◌, ◌↔◌, ◌≤◌, refl, ap, arith, true, Option, none, some, List, [],
  ◌∷◌, ◌++◌, ◌==◌, if◌then◌else◌, length, get_or,
}
use apus.Log.Mem.{Mem, load, bytes}
use apus.Log.Entry.{entry_type}
use apus.Rc.Replicate.{entry_reply}
use apus.Proxy.State.{Proxy, SocketPair, HashTable, SocketCall, connected, written, send_type}
use apus.Proxy.Submit.{Request, send, new_pair, leader_handle_submit_req, take_pair, is_over}
use apus.Proxy.Action.{do_action_connect, do_action_send, do_socket, open_pair}
use apus.Proxy.Storage.{
  header_action, send_len, msg_size, stablestorage_save_request, stablestorage_dump_records,
  stablestorage_load_records, replay, header_connection, send_data,
}
use apus.Proxy.Keys.{count_pairs, connection_id_iff, updates, submit-is_over}
use apus.Proxy.Restore.{IsRequests, no_requests, request, IsImage, save_all, restore_all, load-dump}
use apus.Proxy.Loss.{save_request-loss}

abbrev Table : Type 0
Table = ℕ → Option SocketPair

abbrev put : Table → ℕ → Option SocketPair → Table
put m k x j = if j == k then x else m j

put_self : (m : Table) (k : ℕ) (x : Option SocketPair) → put m k x k ≡ x
put_self m k x = ground arith

put-ne : (m : Table) (k j : ℕ) (x : Option SocketPair) → j ≢ k → put m k x j ≡ m j
put-ne m k j x h = ground (arith, h)

abbrev table : HashTable Table
table = record {
  empty = λ k. none;
  find = λ m k. m k;
  add = λ m k x. put m k (some x);
  replace = λ m k x. put m k (some x);
  delete = λ m k. put m k none;
  find-empty = λ k. refl;
  find-add_self = λ m k x h. put_self m k (some x);
  find-add_ne = λ m k j x h n. put-ne m k j (some x) n;
  find-replace_self = λ m k x. put_self m k (some x);
  find-replace_ne = λ m k j x n. put-ne m k j (some x) n;
  find-delete_self = λ m k. put_self m k none;
  find-delete_ne = λ m k j n. put-ne m k j none n;
}

abbrev started : Proxy Table
started = record {
  leader_hash_map = λ k. none;
  follower_hash_map = λ k. none;
  highest_rec = 0;
  cur_rec = 0;
  pair_count = 0;
  db = record { records = []; records_len = 0 };
  tailq = [];
  calls = [];
  next_sockets = some 7 ∷ some 8 ∷ [];
}

abbrev pair : SocketPair
pair = record { clt_id = 5; req_id = 1; connection_id = 513; p_s = 0 }

-- Client 5 is known; client 6 is new.
abbrev one_client : Proxy Table
one_client = record started {
  leader_hash_map = put (λ k. none) 5 (some pair);
  cur_rec = 1;
  pair_count = 1;
}

submit_or : Request → ℕ → Proxy Table → ℕ × Proxy Table
submit_or req fd p = elim (leader_handle_submit_req table 2 req fd p) [ none ↦ (0, p) | some r ↦ r ]

abbrev sent : ℕ × Proxy Table
sent = submit_or (send (1 ∷ 2 ∷ [])) 5 one_client

sent_runs : leader_handle_submit_req table 2 (send (1 ∷ 2 ∷ [])) 5 one_client ≡ some sent
unfolding submit_or leader_handle_submit_req take_pair
sent_runs = refl

connection_id_iff_example :
    ((new_pair 2 5 started).connection_id ≡ (new_pair 2 6 (count_pairs 3 started)).connection_id)
    ↔ (3 % 256 ≡ 0)
connection_id_iff_example = connection_id_iff 2 5 6 3 started (omega arith)

submit-is_over_example : (is_over sent.0 (updates 2 sent.1) ≡ true) ↔ (1 + 1 ≤ 0 + 2)
submit-is_over_example =
    submit-is_over table 2 5 2 sent.0 (send (1 ∷ 2 ∷ [])) one_client sent.1 sent_runs (omega arith)
      (omega arith)

-- A new connection 3, and the data 9 of it, at the addresses 0 and 4.
abbrev two_requests : Mem
two_requests x = get_or (3 ∷ 0 ∷ 4 ∷ 0 ∷ 3 ∷ 0 ∷ 5 ∷ 0 ∷ 0 ∷ 0 ∷ 0 ∷ 0 ∷ 1 ∷ 0 ∷ 9 ∷ []) x 0

abbrev requests : List (Mem × ℕ)
requests = (two_requests, 0) ∷ (two_requests, 4) ∷ []

request_bytes : List ℕ
request_bytes = bytes two_requests 0 4 ++ (bytes two_requests 4 25 ++ [])

requests-IsRequests : IsRequests requests request_bytes
unfolding request_bytes msg_size header_action send_len load
requests-IsRequests = request two_requests 0 4 refl (request two_requests 4 25 refl no_requests)

request_bytes-length : length request_bytes < 2 ^ 32
unfolding request_bytes bytes
request_bytes-length = omega arith

saved : List ℕ
saved = stablestorage_dump_records (save_all table 0 requests started)

saved-IsImage : IsImage (λ x. get_or saved x 0) 0 saved
saved-IsImage i h = ap (λ j. get_or saved j 0) (omega arith)

load-dump_example :
    (saved ≡ request_bytes)
    × (stablestorage_load_records table 0 (λ x. get_or saved x 0) (length request_bytes) started
        ≡ some (restore_all table 0 requests started))
unfolding saved
load-dump_example =
    load-dump table 0 started started (λ x. get_or saved x 0) requests-IsRequests refl
      request_bytes-length saved-IsImage

-- The replay opens the socket 7 and writes the data 9 to it.
restored_calls : List SocketCall
restored_calls = (restore_all table 0 requests started).calls

restored_runs : restored_calls ≡ connected 7 ∷ written 7 (9 ∷ []) ∷ []
unfolding restored_calls replay header_connection send_data header_action send_len load bytes
    do_action_connect do_action_send do_socket open_pair stablestorage_save_request msg_size
restored_runs = refl

-- An entry with data, and one with other data.
abbrev data_entry : Mem
data_entry x = if x == 26 then 5 else 0

abbrev other_entry : Mem
other_entry x = if x == 26 then 5 else if x == 50 then 9 else 0

data_entry_type : entry_type data_entry 0 ≡ send_type
unfolding entry_type load
data_entry_type = refl

data_entry_reply : (i : ℕ) → i < 10 → entry_reply data_entry 0 i ≡ 0
unfolding entry_reply
data_entry_reply i h = ground (arith, h)

same_client : (x : ℕ) → 24 ≤ x → x < 48 → other_entry x ≡ data_entry x
same_client x h l = ground (arith, h, l)

save_request-loss_example :
    stablestorage_save_request 0 other_entry (0 + 24) started
    ≡ stablestorage_save_request 0 data_entry (0 + 24) started
save_request-loss_example =
    save_request-loss 0 data_entry other_entry 0 started data_entry_type
      (data_entry_reply 4 (omega arith)) (data_entry_reply 5 (omega arith)) same_client
