-- ===== src/Log/Brim.antt =====
-- An entry that ends exactly where the buffer ends makes the log read as empty.
use apus.Base.{ℕ, ◌+◌, ◌^◌, ◌≤◌, ◌<◌, ◌≡◌, ◌≢◌, arith, none, some, true}
use apus.Log.State.{Log, Data}
use apus.Log.Offsets.{is_log_empty, log_offset_end_distance, log_get_entry, log_add_new_entry}
use apus.Log.Append.{append_new}
use apus.Log.Written.{size_of, size_of-ge, IsData}
use apus.Log.NewEntry.{IsStamp}
use apus.Log.Placed.{placed, append_at-end}

new_at_end :
    (log : Log)
    → log.len < 2 ^ 64
    → log.end ≢ log.head
    → log.end + 64 ≤ log.len
    → log_add_new_entry log ≡ some log.end
unfolding log_add_new_entry
new_at_end log small full f = ground arith

-- A new entry that takes up the rest of the buffer to the last byte leaves a log that is not empty
-- and that every test takes for empty: no offset is before its end, no entry is found in it, and
-- the next entry goes to the start of the buffer whatever lies there.
pub append_to_brim :
    (idx term req_id clt_id : ℕ) (d : Data) (log : Log)
    → IsStamp idx term req_id clt_id
    → IsData d
    → log.len < 2 ^ 64
    → log.end ≢ log.head
    → log.head < log.len
    → log.end + size_of d ≡ log.len
    → let log' = (append_new idx term req_id clt_id log d).1 in
      (is_log_empty log' ≡ true)
      × ((o : ℕ) → log_offset_end_distance log' o ≡ 0)
      × ((o : ℕ) → log_get_entry log' o ≡ none)
      × (log_add_new_entry log' ≡ some 0)
unfolding append_new
append_to_brim idx term req_id clt_id d log s h small full hd e =
    rw (new_at_end log small full (omega (arith, size_of-ge d)), append_new)
      (rw (append_at-end idx term req_id clt_id d log s h small (omega arith)) (
        unfold is_log_empty placed in ground arith,
        λ o. unfold log_offset_end_distance placed in ground arith,
        λ o. unfold log_get_entry placed in ground arith,
        unfold log_add_new_entry placed in ground arith,
      ))
