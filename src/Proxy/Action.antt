-- ===== src/Proxy/Action.antt =====
-- src/proxy/proxy.c: do_action_to_server, the replay of a request on the server program. Errors of
-- connect, write and close are only printed.
use apus.Base.{ℕ, Option, none, some, List, [], ◌∷◌, ◌++◌, ◌==◌, if◌then◌else◌}
use apus.Proxy.State.{
  Proxy, HashTable, SocketCall, connected, written, closed, connect_type, send_type, close_type,
}

module _ {M : Type 0} (table : HashTable M) where
  abbrev pub socket_call : SocketCall → Proxy M → Proxy M
  socket_call c p = record p { calls = p.calls ++ (c ∷ []) }

  unfoldable pub open_pair : ℕ → ℕ → Proxy M → Proxy M
  open_pair clt_id sockfd p = socket_call (connected sockfd) (record p {
    follower_hash_map =
        table.add p.follower_hash_map clt_id
          (record { clt_id = 0; req_id = 0; connection_id = clt_id; p_s = sockfd });
  })

  -- An answer of socket(): with no answer left it is an error.
  unfoldable pub do_socket : List (Option ℕ) → ℕ → Proxy M → Proxy M
  do_socket [] clt_id p = p
  do_socket (none ∷ rest) clt_id p = record p { next_sockets = rest }
  do_socket (some sockfd ∷ rest) clt_id p =
      open_pair clt_id sockfd (record p { next_sockets = rest })

  unfoldable pub do_action_connect : ℕ → Proxy M → Proxy M
  do_action_connect clt_id p = elim (table.find p.follower_hash_map clt_id) [
    | none ↦ do_socket p.next_sockets clt_id p
    | some x ↦ p
  ]

  unfoldable pub do_action_send : ℕ → List ℕ → Proxy M → Proxy M
  do_action_send clt_id bytes p = elim (table.find p.follower_hash_map clt_id) [
    | none ↦ p
    | some x ↦ socket_call (written x.p_s bytes) p
  ]

  unfoldable pub do_action_close : ℕ → Proxy M → Proxy M
  do_action_close clt_id p = elim (table.find p.follower_hash_map clt_id) [
    | none ↦ p
    | some x ↦
        socket_call (closed x.p_s)
          (record p { follower_hash_map = table.delete p.follower_hash_map clt_id })
  ]

  unfoldable pub do_action_to_server : ℕ → ℕ → List ℕ → Proxy M → Proxy M
  do_action_to_server clt_id type bytes p =
      if type == connect_type
      then do_action_connect clt_id p
      else if type == send_type
      then do_action_send clt_id bytes p
      else if type == close_type
      then do_action_close clt_id p
      else p
