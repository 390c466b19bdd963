-- ===== src/Proxy/State.antt =====
-- src/include/proxy/proxy.h and src/include/dare/message.h: the state of the proxy. The hash tables
-- of utils/uthash are a parameter.
use apus.Base.{ℕ, ◌+◌, ◌*◌, ◌≡◌, ◌≢◌, Option, none, some, List}
use apus.Db.Records.{Db}

abbrev pub connect_type : ℕ
connect_type = 4

abbrev pub send_type : ℕ
send_type = 5

abbrev pub close_type : ℕ
close_type = 6

-- `socket_pair`; `p_s` is the socket to the server program.
pub record SocketPair : Type 0 where
  pub clt_id : ℕ
  pub req_id : ℕ
  pub connection_id : ℕ
  pub p_s : ℕ

-- The tables of pairs: HASH_FIND, HASH_ADD for a key that is not there, HASH_REPLACE and HASH_DEL.
pub record HashTable (M : Type 0) : Type 0 where
  pub empty : M
  pub find : M → ℕ → Option SocketPair
  pub add : M → ℕ → SocketPair → M
  pub replace : M → ℕ → SocketPair → M
  pub delete : M → ℕ → M
  pub find-empty : (k : ℕ) → find empty k ≡ none
  pub find-add_self :
      (m : M) (k : ℕ) (x : SocketPair) → find m k ≡ none → find (add m k x) k ≡ some x
  pub find-add_ne :
      (m : M) (k j : ℕ) (x : SocketPair) → find m k ≡ none → j ≢ k → find (add m k x) j ≡ find m j
  pub find-replace_self : (m : M) (k : ℕ) (x : SocketPair) → find (replace m k x) k ≡ some x
  pub find-replace_ne :
      (m : M) (k j : ℕ) (x : SocketPair) → j ≢ k → find (replace m k x) j ≡ find m j
  pub find-delete_self : (m : M) (k : ℕ) → find (delete m k) k ≡ none
  pub find-delete_ne : (m : M) (k j : ℕ) → j ≢ k → find (delete m k) j ≡ find m j

-- `tailq_entry_t`; `cmd_len` has 16 bits.
pub record TailqEntry : Type 0 where
  pub type : ℕ
  pub connection_id : ℕ
  pub req_id : ℕ
  pub cmd_len : ℕ
  pub cmd : List ℕ

-- What the proxy does with a socket to the server program.
pub data SocketCall : Type 0 where
  connected : ℕ → SocketCall
  written : ℕ → List ℕ → SocketCall
  closed : ℕ → SocketCall

-- `proxy_node`, with the queue of requests, the calls on sockets so far, and what the next calls of
-- socket() answer: none for an error.
pub record Proxy (M : Type 0) : Type 0 where
  pub leader_hash_map : M
  pub follower_hash_map : M
  pub highest_rec : ℕ
  pub cur_rec : ℕ
  pub pair_count : ℕ
  pub db : Db
  pub tailq : List TailqEntry
  pub calls : List SocketCall
  pub next_sockets : List (Option ℕ)

-- (node_id << 8) | node_count, of two bytes
unfoldable pub gen_key : ℕ → ℕ → ℕ
gen_key node_id node_count = node_id * 256 + node_count
