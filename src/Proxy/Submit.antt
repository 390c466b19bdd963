-- ===== src/Proxy/Submit.antt =====
-- src/proxy/proxy.c: leader_handle_submit_req, and the hooks that call it.
use apus.Base.{
  ℕ, ◌+◌, ◌%◌, Bool, false, Option, none, some, List, [], ◌∷◌, ◌++◌, ◌==◌, leb, ◌||◌, if◌then◌else◌,
  add64, length, u16_mod,
}
use apus.Proxy.State.{
  Proxy, SocketPair, HashTable, TailqEntry, connect_type, send_type, close_type, gen_key,
}

-- A thread, with the list of the threads of the proxy.
unfoldable pub is_inner : ℕ → List ℕ → Bool
is_inner tid [] = false
is_inner tid (t ∷ ts) = t == tid || is_inner tid ts

-- A request: the new connection of a client, data of it, or its end.
pub data Request : Type 0 where
  connect : Request
  send : List ℕ → Request
  close : Request

abbrev pub request_type : Request → ℕ
request_type connect = connect_type
request_type (send bytes) = send_type
request_type close = close_type

abbrev pub request_data : Request → List ℕ
request_data connect = []
request_data (send bytes) = bytes
request_data close = []

-- The pair of a client, or of a connection, if it is not NULL.
abbrev pub if_known {ℓ κ} : {A : Type ℓ} {B : Type κ} → Option A → (A → B) → Option B
if_known none f = none
if_known (some a) f = some (f a)

unfoldable pub next_req : SocketPair → SocketPair
next_req x = record x { req_id = add64 x.req_id 1 }

unfoldable pub new_entry : Request → SocketPair → TailqEntry
new_entry req x = record {
  type = request_type req;
  connection_id = x.connection_id;
  req_id = x.req_id;
  cmd_len = length (request_data req) % u16_mod;
  cmd = request_data req;
}

module _ {M : Type 0} where
  -- The pair of a new client; its socket is 0 as all of the memory is.
  unfoldable pub new_pair : ℕ → ℕ → Proxy M → SocketPair
  new_pair node_id clt_id p = record {
    clt_id = clt_id;
    req_id = 1;
    connection_id = gen_key node_id p.pair_count;
    p_s = 0;
  }

  unfoldable pub count_pair : Proxy M → Proxy M
  count_pair p = record p { pair_count = (p.pair_count + 1) % 256 }

  unfoldable pub put_request : Request → SocketPair × Proxy M → Proxy M
  put_request req (x, p) = record p { tailq = p.tailq ++ (new_entry req x ∷ []) }

  -- while (cur_rec > proxy->highest_rec)
  unfoldable pub is_over : ℕ → Proxy M → Bool
  is_over cur_rec p = leb cur_rec p.highest_rec

  unfoldable pub update_highest_rec : Proxy M → Proxy M
  update_highest_rec p = record p { highest_rec = add64 p.highest_rec 1 }

module _ {M : Type 0} (table : HashTable M) where
  -- The pair of the request, and the table; none where a client is not known, whose pair is NULL.
  unfoldable pub take_pair : ℕ → Request → ℕ → Proxy M → Option (SocketPair × Proxy M)
  take_pair node_id connect clt_id p =
      let x = new_pair node_id clt_id p in
      some (x, record (count_pair p) { leader_hash_map = table.add p.leader_hash_map clt_id x })
  take_pair node_id (send bytes) clt_id p = if_known (table.find p.leader_hash_map clt_id) (λ x. (
    next_req x,
    record p { leader_hash_map = table.replace p.leader_hash_map clt_id (next_req x) },
  ))
  take_pair node_id close clt_id p =
      if_known (table.find p.leader_hash_map clt_id)
        (λ x. (next_req x, record p { leader_hash_map = table.delete p.leader_hash_map clt_id }))

  -- The number that the request waits for, and the state; none for a pair that is NULL.
  unfoldable pub leader_handle_submit_req : ℕ → Request → ℕ → Proxy M → Option (ℕ × Proxy M)
  leader_handle_submit_req node_id req clt_id p =
      let p = record p { cur_rec = add64 p.cur_rec 1 } in
      if_known (take_pair node_id req clt_id p) (λ t. (p.cur_rec, put_request req t))

  -- proxy_on_accept, proxy_on_read and proxy_on_close: nothing to wait for, in a thread of the proxy
  -- or on a follower.
  unfoldable pub proxy_on :
      ℕ → List ℕ → Bool → ℕ → Request → ℕ → Proxy M → Option (Option ℕ × Proxy M)
  proxy_on tid threads is_leader node_id req fd p =
      if is_inner tid threads
      then some (none, p)
      else if is_leader
      then if_known (leader_handle_submit_req node_id req fd p) (λ r. (some r.0, r.1))
      else some (none, p)
