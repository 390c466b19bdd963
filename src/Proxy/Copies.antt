-- ===== src/Proxy/Copies.antt =====
-- src/proxy/proxy.c: a request that is copied to another place keeps its size, and what it does.
use apus.Base.{
  ℕ, zero, suc, ◌+◌, ◌*◌, ◌≤◌, ◌<◌, ◌≡◌, refl, ap, ap₂, sym, ◌∙◌, arith, Bool, true, false, none,
  some, ◌∷◌, ◌==◌, if◌then◌else◌, inl, inr, ◌⊎◌,
}
use mathlib.Core.Bool.{true≢false}
use mathlib.Core.Option.{some-injective, none-ne-some}
use apus.Log.Mem.{Mem, load, bytes}
use apus.Proxy.State.{Proxy, HashTable, connect_type, send_type, close_type}
use apus.Proxy.Storage.{
  header_connection, header_action, send_len, send_data, msg_size, send_size, header_size, replay,
}

-- n bytes from address a on are also at address b of another memory.
abbrev pub Copied : Mem → ℕ → Mem → ℕ → ℕ → Type 0
Copied m a m' b n = (i : ℕ) → i < n → m' (b + i) ≡ m (a + i)

copied_at : (m : Mem) (a a' : ℕ) → a ≡ a' → m a ≡ m a'
copied_at m a a' e = ap m e

load-Copied : (m m' : Mem) (a b k n : ℕ) → Copied m a m' b k → n ≤ k → load m' b n ≡ load m a n
unfolding load
load-Copied m m' a b k zero h l = refl
load-Copied m m' a b (suc k) (suc n) h l =
    ap₂ (λ x y. x + 256 * y)
      (copied_at m' b (b + 0) (omega arith)
        ∙ h 0 (omega arith)
        ∙ copied_at m (a + 0) a (omega arith))
      (load-Copied m m' (a + 1) (b + 1) k n
        (λ i q.
          copied_at m' (b + 1 + i) (b + suc i) (omega arith)
          ∙ h (suc i) (omega (arith, q))
          ∙ copied_at m (a + suc i) (a + 1 + i) (omega arith))
        (omega (arith, l)))
load-Copied m m' a b zero (suc n) h l = absurd (omega (arith, l))

pub bytes-Copied :
    (m m' : Mem) (a b k n : ℕ) → Copied m a m' b k → n ≤ k → bytes m' b n ≡ bytes m a n
unfolding bytes
bytes-Copied m m' a b k zero h l = refl
bytes-Copied m m' a b (suc k) (suc n) h l =
    ap₂ ◌∷◌
      (copied_at m' b (b + 0) (omega arith)
        ∙ h 0 (omega arith)
        ∙ copied_at m (a + 0) a (omega arith))
      (bytes-Copied m m' (a + 1) (b + 1) k n
        (λ i q.
          copied_at m' (b + 1 + i) (b + suc i) (omega arith)
          ∙ h (suc i) (omega (arith, q))
          ∙ copied_at m (a + suc i) (a + 1 + i) (omega arith))
        (omega (arith, l)))
bytes-Copied m m' a b zero (suc n) h l = absurd (omega (arith, l))

-- ... and so at the same distance behind both addresses.
Copied-shift :
    (m m' : Mem) (a b k d n : ℕ) → Copied m a m' b k → d + n ≤ k → Copied m (a + d) m' (b + d) n
Copied-shift m m' a b k d n h l i q =
    copied_at m' (b + d + i) (b + (d + i)) (omega arith)
    ∙ h (d + i) (omega (arith, l, q))
    ∙ copied_at m (a + (d + i)) (a + d + i) (omega arith)

sizes :
    (b c d : Bool) (k n : ℕ)
    → (if b then some k else if c then some header_size else if d then some header_size else none)
      ≡ some n
    → ((b ≡ true) × (n ≡ k)) ⊎ ((b ≡ false) × (n ≡ header_size))
sizes true c d k n h = inl (refl, sym (some-injective _ _ h))
sizes false true d k n h = inr (refl, sym (some-injective _ _ h))
sizes false false true k n h = inr (refl, sym (some-injective _ _ h))
sizes false false false k n h = absurd (none-ne-some _ h)

plain_size :
    (b c d : Bool) (k l : ℕ)
    → b ≡ false
    → (if b then some k else if c then some header_size else if d then some header_size else none)
      ≡ (if b then some l else if c then some header_size else if d then some header_size else none)
plain_size true c d k l e = absurd (true≢false e)
plain_size false c d k l e = refl

-- The size of a request is that of data, or of a header alone.
size_cases :
    (m : Mem) (a n : ℕ)
    → msg_size m a ≡ some n
    → (((header_action m a == send_type) ≡ true) × (n ≡ send_len m a + send_size))
      ⊎ (((header_action m a == send_type) ≡ false) × (n ≡ header_size))
unfolding msg_size
size_cases m a n h =
    sizes (header_action m a == send_type) (header_action m a == connect_type)
      (header_action m a == close_type) (send_len m a + send_size) n h

pub size-le : (m : Mem) (a n : ℕ) → msg_size m a ≡ some n → 4 ≤ n
size-le m a n h = elim (size_cases m a n h) [
  | inl (e, q) ↦ omega (arith, q)
  | inr (e, q) ↦ omega (arith, q)
]

module _ (m m' : Mem) (a b n : ℕ) (h : Copied m a m' b n) where
  action-Copied : 4 ≤ n → header_action m' b ≡ header_action m a
  unfolding header_action
  action-Copied l =
      load-Copied m m' (a + 2) (b + 2) 1 1 (Copied-shift m m' a b n 2 1 h (omega (arith, l)))
        (omega arith)

  connection-Copied : 4 ≤ n → header_connection m' b ≡ header_connection m a
  unfolding header_connection
  connection-Copied l = load-Copied m m' a b n 2 h (omega (arith, l))

  len-Copied : 10 ≤ n → send_len m' b ≡ send_len m a
  unfolding send_len
  len-Copied l =
      load-Copied m m' (a + 8) (b + 8) 2 2 (Copied-shift m m' a b n 8 2 h (omega (arith, l)))
        (omega arith)

  data-Copied : n ≡ send_len m a + send_size → send_data m' b ≡ send_data m a
  unfolding send_data
  data-Copied e =
      ap (bytes m' (b + 10)) (len-Copied (omega (arith, e)))
      ∙ bytes-Copied m m' (a + 10) (b + 10) (send_len m a) (send_len m a)
          (Copied-shift m m' a b n 10 (send_len m a) h (omega (arith, e))) (omega arith)

  -- A request that is copied has the same size, and is replayed in the same way.
  pub same_size : msg_size m a ≡ some n → msg_size m' b ≡ some n
  unfolding msg_size
  same_size e = elim (size_cases m a n e) [
    | inl (s, q) ↦
        rw (action-Copied (size-le m a n e), s)
          (ap some (ap (λ k. k + send_size) (len-Copied (omega (arith, q))) ∙ sym q))
    | inr (s, q) ↦ rw (action-Copied (size-le m a n e)) (
        plain_size (header_action m a == send_type) (header_action m a == connect_type)
          (header_action m a == close_type) (send_len m' b + send_size) (send_len m a + send_size) s
        ∙ e)
  ]

  pub same_replay :
      {M : Type 0} (table : HashTable M) (p : Proxy M)
      → msg_size m a ≡ some n
      → replay table m' b p ≡ replay table m a p
  unfolding replay
  same_replay table p e = elim (size_cases m a n e) [
    | inl (s, q) ↦
        rw (action-Copied (size-le m a n e), s, connection-Copied (size-le m a n e), data-Copied q)
          refl
    | inr (s, q) ↦ rw (action-Copied (size-le m a n e), s, connection-Copied (size-le m a n e)) refl
  ]
