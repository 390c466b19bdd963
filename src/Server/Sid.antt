-- ===== src/Server/Sid.antt =====
-- src/include/dare/dare_server.h: the state identifier, a word [TERM|L|IDX] of 55, 1 and 8 bits,
-- and the roles of src/dare/dare_server.c that it gives to the server with an index.
use apus.Base.{
  true, ◌≢◌, ◌≤◌, ℕ, ◌+◌, ◌-◌, ◌*◌, ◌/◌, ◌%◌, ◌<◌, ◌≡◌, ◌⊎◌, ◌↔◌, Bool, not, ◌&&◌, ◌==◌,
  if◌then◌else◌, arith, u64_mod,
}

abbrev pub sid_null : ℕ
sid_null = 255

unfoldable pub sid_get_idx : ℕ → ℕ
sid_get_idx sid = sid % 256

unfoldable pub sid_get_l : ℕ → Bool
sid_get_l sid = sid / 256 % 2 == 1

unfoldable pub sid_get_term : ℕ → ℕ
sid_get_term sid = sid / 512

-- (sid) = idx | ((sid >> 8) << 8), where idx is a uint8_t
unfoldable pub sid_set_idx : ℕ → ℕ → ℕ
sid_set_idx sid idx = sid / 256 * 256 + idx % 256

unfoldable pub sid_set_l : ℕ → ℕ
sid_set_l sid = if sid / 256 % 2 == 1 then sid else sid + 256

unfoldable pub sid_unset_l : ℕ → ℕ
sid_unset_l sid = if sid / 256 % 2 == 1 then sid - 256 else sid

unfoldable pub sid_set_term : ℕ → ℕ → ℕ
sid_set_term sid term = (term * 512 + sid % 512) % u64_mod

unfoldable pub is_none : ℕ → ℕ → Bool
unfolding sid_get_idx sid_get_l sid_get_term
is_none sid idx = sid_get_idx sid == idx && not (sid_get_l sid) && sid_get_term sid == 0

unfoldable pub is_leader : ℕ → ℕ → Bool
unfolding is_none sid_get_idx sid_get_l
is_leader sid idx = not (is_none sid idx) && sid_get_idx sid == idx && sid_get_l sid

unfoldable pub is_candidate : ℕ → ℕ → Bool
unfolding is_none sid_get_idx sid_get_l
is_candidate sid idx = not (is_none sid idx) && sid_get_idx sid == idx && not (sid_get_l sid)

unfoldable pub is_follower : ℕ → ℕ → Bool
unfolding is_none is_leader is_candidate
is_follower sid idx = not (is_none sid idx) && not (is_leader sid idx) && not (is_candidate sid idx)

-- The number that a Boolean test counts for.
abbrev pub flag : Bool → ℕ
flag b = if b then 1 else 0

-- A state identifier is the one word with its term, its flag and its index.
pub sid_eq : (sid : ℕ) → sid ≡ sid_get_term sid * 512 + flag (sid_get_l sid) * 256 + sid_get_idx sid
unfolding sid_get_term sid_get_l sid_get_idx
sid_eq sid = ground arith

is_none_iff : (sid idx : ℕ) → idx < 256 → (is_none sid idx ≡ true) ↔ (sid ≡ idx)
unfolding is_none sid_get_idx sid_get_l sid_get_term
is_none_iff sid idx h = (λ e. ground (arith, e, h), λ e. ground (arith, e, h))

is_leader_iff : (sid idx : ℕ) → idx < 256 → (is_leader sid idx ≡ true) ↔ (sid % 512 ≡ 256 + idx)
unfolding is_leader is_none sid_get_idx sid_get_l sid_get_term
is_leader_iff sid idx h = (λ e. ground (arith, e, h), λ e. ground (arith, e, h))

is_candidate_iff :
    (sid idx : ℕ) → idx < 256 → (is_candidate sid idx ≡ true) ↔ ((sid % 512 ≡ idx) × (512 ≤ sid))
unfolding is_candidate is_none sid_get_idx sid_get_l sid_get_term
is_candidate_iff sid idx h =
    (λ e. (ground (arith, e, h), ground (arith, e, h)), λ (e, l). ground (arith, e, l, h))

is_follower_iff : (sid idx : ℕ) → idx < 256 → (is_follower sid idx ≡ true) ↔ (sid % 256 ≢ idx)
unfolding is_follower is_leader is_candidate is_none sid_get_idx sid_get_l sid_get_term
is_follower_iff sid idx h = (λ e. λ q. ground (arith, e, q, h), λ e. ground (arith, e, h))

-- The roles of a server with this index, by the lower bits of its state identifier: it has none where
-- the identifier is the index, it is a leader where the lower 9 bits are the index with the flag, a
-- candidate where they are the index and the term is not 0, and a follower where the lower 8 bits are
-- another index.
pub role_iff :
    (sid idx : ℕ)
    → idx < 256
    → ((is_none sid idx ≡ true) ↔ (sid ≡ idx))
      × ((is_leader sid idx ≡ true) ↔ (sid % 512 ≡ 256 + idx))
      × ((is_candidate sid idx ≡ true) ↔ ((sid % 512 ≡ idx) × (512 ≤ sid)))
      × ((is_follower sid idx ≡ true) ↔ (sid % 256 ≢ idx))
role_iff sid idx h = (
  is_none_iff sid idx h,
  is_leader_iff sid idx h,
  is_candidate_iff sid idx h,
  is_follower_iff sid idx h,
)

-- By the term, then by the flag, then by the index.
abbrev pub IsBefore : ℕ → ℕ → Type 0
IsBefore a b =
    (sid_get_term a < sid_get_term b)
    ⊎ ((sid_get_term a ≡ sid_get_term b)
        × ((flag (sid_get_l a) < flag (sid_get_l b))
            ⊎ ((flag (sid_get_l a) ≡ flag (sid_get_l b)) × (sid_get_idx a < sid_get_idx b))))

sid-lt→IsBefore : (a b : ℕ) → a < b → IsBefore a b
unfolding sid_get_term sid_get_l sid_get_idx
sid-lt→IsBefore a b h = ground (arith, h)

IsBefore→sid-lt : (a b : ℕ) → IsBefore a b → a < b
unfolding sid_get_term sid_get_l sid_get_idx
IsBefore→sid-lt a b h = ground (arith, h)

-- State identifiers are ordered by the term, then by the leader flag, then by the index.
pub sid-lt_iff : (a b : ℕ) → (a < b) ↔ IsBefore a b
sid-lt_iff a b = (sid-lt→IsBefore a b, IsBefore→sid-lt a b)
