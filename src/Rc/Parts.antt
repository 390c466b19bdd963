-- ===== src/Rc/Parts.antt =====
-- src/dare/dare_ibv_rc.c: what the parts of update_remote_logs cover.
use apus.Base.{ℕ, ◌+◌, ◌^◌, ◌≤◌, ◌<◌, ◌≡◌, ◌≢◌, Bool, ◌&&◌, ◌||◌, ltb, leb, if◌then◌else◌, arith}
use apus.Log.Mem.{Mem}
use apus.Log.State.{Log}
use apus.Log.Offsets.{log_offset_end_distance}
use apus.Rc.Replicate.{log_parts}

-- The log of a server, once n bytes from an offset on are those of the leader.
unfoldable pub write_part : Mem → ℕ × ℕ → Mem → Mem
write_part m (offset, n) remote x = if leb offset x && ltb x (offset + n) then m x else remote x

-- Whether a byte lies between the two offsets of the circular buffer.
unfoldable pub is_between : ℕ → ℕ → ℕ → Bool
is_between a b x = if ltb a b then leb a x && ltb x b else leb a x || ltb x b

-- Where a server does not have all entries, the two parts together are as long as the distance of
-- its end offset to that of the leader, and once both are written the log of the server has the
-- leader's bytes between the two offsets, and its own elsewhere.
pub log_parts-write :
    (log : Log) (remote_end : ℕ) (remote : Mem) (x : ℕ)
    → log.len < 2 ^ 64
    → log.end < log.len
    → remote_end ≤ log.len
    → remote_end ≢ log.end
    → x < log.len
    → ((log_parts log remote_end).0.1 + (log_parts log remote_end).1.1
        ≡ log_offset_end_distance log remote_end)
      × (write_part log.mem
            (log_parts log remote_end).1
            (write_part log.mem (log_parts log remote_end).0 remote)
            x
          ≡ (if is_between remote_end log.end x then log.mem x else remote x))
unfolding log_parts write_part is_between log_offset_end_distance
log_parts-write log remote_end remote x small fits h ne l =
    (ground (arith, small, fits, h, ne, l), ground (arith, small, fits, h, ne, l))
