-- ===== src/Proxy/Numbers.antt =====
-- src/proxy/proxy.c: the numbers of the requests, and of the connections.
use apus.Base.{
  ◌+◌, ◌%◌, ◌^◌, length, u16_mod, ℕ, ◌≡◌, ◌≢◌, refl, Option, none, some, List, [], ◌∷◌, ◌++◌, add64,
}
use mathlib.Core.Option.{some-injective, none-ne-some}
use apus.Proxy.State.{send_type, Proxy, SocketPair, HashTable, TailqEntry}
use apus.Proxy.Submit.{Request, connect, send, close, if_known, leader_handle_submit_req}

module _ {M : Type 0} (table : HashTable M) where
  -- A new connection is one of a client that is not known.
  abbrev pub IsNew : Request → ℕ → M → Type 0
  IsNew connect fd m = table.find m fd ≡ none
  IsNew (send bytes) fd m = Unit
  IsNew close fd m = Unit

  -- Requests of clients, submitted one after the other.
  pub data Submitted (node_id : ℕ) (p : Proxy M) : List (ℕ × Request) → Proxy M → Type 0 where
    nothing : Submitted node_id p [] p
    submit :
        {q r : Proxy M} {es : List (ℕ × Request)} (n fd : ℕ) (req : Request)
        → Submitted node_id p es q
        → IsNew req fd q.leader_hash_map
        → leader_handle_submit_req table node_id req fd q ≡ some (n, r)
        → Submitted node_id p ((fd, req) ∷ es) r

-- The requests of this client are data.
pub data SendsOnly (fd : ℕ) : List (ℕ × Request) → Type 0 where
  sends_nothing : SendsOnly fd []
  sends :
      {es : List (ℕ × Request)} (bytes : List ℕ)
      → SendsOnly fd es
      → SendsOnly fd ((fd, send bytes) ∷ es)
  sends_other :
      {es : List (ℕ × Request)} {k : ℕ} {req : Request}
      → k ≢ fd
      → SendsOnly fd es
      → SendsOnly fd ((k, req) ∷ es)

-- The pair of a client after its request with this number.
abbrev pub numbered : SocketPair → ℕ → SocketPair
numbered x n = record x { req_id = n }

-- The entry of this data, with the number n and the connection of the pair x.
abbrev pub data_entry : SocketPair → ℕ → List ℕ → TailqEntry
data_entry x n bytes = record {
  type = send_type;
  connection_id = x.connection_id;
  req_id = n;
  cmd_len = length bytes % u16_mod;
  cmd = bytes;
}

-- From the newest to the oldest request: those of the client of the pair x are data, each with the
-- next number, from that of x on, modulo 2 ^ 64; the others are those of other clients. The last
-- number is n.
pub data Numbered (fd : ℕ) (x : SocketPair)
    : ℕ → List (ℕ × Request) → List TailqEntry → Type 0 where
  none_yet : Numbered fd x x.req_id [] []
  own :
      {n : ℕ} {es : List (ℕ × Request)} {ts : List TailqEntry} (bytes : List ℕ)
      → Numbered fd x n es ts
      → Numbered fd x
          ((n + 1) % 2 ^ 64)
          ((fd, send bytes) ∷ es)
          (ts ++ (data_entry x ((n + 1) % 2 ^ 64) bytes ∷ []))
  other :
      {n : ℕ} {es : List (ℕ × Request)} {ts : List TailqEntry} (k : ℕ) (req : Request)
      (t : TailqEntry)
      → k ≢ fd
      → Numbered fd x n es ts
      → Numbered fd x n ((k, req) ∷ es) (ts ++ (t ∷ []))

pub known :
    {A B : Type 0} (o : Option A) (f : A → B) (b : B)
    → if_known o f ≡ some b
    → (a : A) × (o ≡ some a) × (f a ≡ b)
known none f b h = absurd (none-ne-some _ h)
known (some a) f b h = (a, refl, some-injective _ _ h)

module _ {M : Type 0} (table : HashTable M) (node_id : ℕ) where
  abbrev counted : Proxy M → Proxy M
  counted q = record q { cur_rec = add64 q.cur_rec 1 }

  abbrev Leaves : ℕ → Proxy M → SocketPair × Proxy M → Type 0
  Leaves fd p t =
      (table.find t.1.leader_hash_map fd ≡ table.find p.leader_hash_map fd) × (t.1.tailq ≡ p.tailq)

  abbrev Known : ℕ → SocketPair → Proxy M → Type 0
  Known fd y q = table.find q.leader_hash_map fd ≡ some y
