-- ===== src/Log/Order.antt =====
-- log_is_offset_larger orders the offsets inside the log by their place in it.
use apus.Base.{
  ℕ, ◌+◌, ◌-◌, ◌^◌, ◌≤◌, ◌<◌, ◌≡◌, ◌↔◌, inl, inr, arith, tests, lt→ltb, true, leb, if◌then◌else◌,
}
use apus.Log.State.{Log}
use apus.Log.Offsets.{log_offset_end_distance, log_is_offset_larger}
use apus.Log.Window.{Inside}

-- How many bytes of the circular buffer lie between the head and an offset.
abbrev pub place : Log → ℕ → ℕ
place log o = if leb log.head o then o - log.head else log.len - log.head + o

-- The distance to the end and the place add up to the bytes that the log takes up.
distance-add-place :
    (log : Log) (o : ℕ)
    → log.len < 2 ^ 64
    → log.head ≤ log.len
    → log.end < log.len
    → o ≤ log.len
    → Inside log o
    → log_offset_end_distance log o + place log o ≡ place log log.end
unfolding log_offset_end_distance
distance-add-place log o small hl lt ol (inl i) = ground arith
distance-add-place log o small hl lt ol (inr (h, inl i)) = ground arith
distance-add-place log o small hl lt ol (inr (h, inr i)) = ground arith

-- Of two offsets inside a log that is not empty, the larger is the one that lies further from the
-- head in the circular buffer, wherever the log wraps around.
pub log_is_offset_larger_iff :
    (log : Log) (l r : ℕ)
    → log.len < 2 ^ 64
    → log.head ≤ log.len
    → log.end < log.len
    → l ≤ log.len
    → r ≤ log.len
    → Inside log l
    → Inside log r
    → (log_is_offset_larger log l r ≡ true) ↔ (place log r < place log l)
unfolding log_is_offset_larger
log_is_offset_larger_iff log l r small hl lt ll rl i j =
    let p = distance-add-place log l small hl lt ll i in
    let q = distance-add-place log r small hl lt rl j in
    (λ h. omega (tests, p, q, h), λ h. lt→ltb _ _ (omega (arith, p, q)))
