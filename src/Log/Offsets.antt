-- ===== src/Log/Offsets.antt =====
-- src/include/dare/dare_log.h: the tests on offsets, and the entry that an offset stands for.
use apus.Base.{ℕ, ◌-◌, Bool, not, ◌&&◌, Option, none, some, ◌==◌, ltb, leb, if◌then◌else◌, sub64}
use apus.Log.State.{Log}
use apus.Log.Entry.{entry_size, log_entry_len}

unfoldable pub is_log_empty : Log → Bool
is_log_empty log = log.end == log.len

unfoldable pub is_log_full : Log → Bool
is_log_full log = log.end == log.head

unfoldable pub not_committed_entries : Log → Bool
unfolding is_log_empty
not_committed_entries log = not (is_log_empty log) && not (log.commit == log.end)

unfoldable pub not_applied_entries : Log → Bool
unfolding is_log_empty
not_applied_entries log = not (is_log_empty log) && not (log.apply == log.commit)

unfoldable pub log_fit_entry_header : Log → ℕ → Bool
log_fit_entry_header log offset = leb entry_size (sub64 log.len offset)

-- The offset of the new entry.
unfoldable pub log_add_new_entry : Log → Option ℕ
unfolding is_log_full is_log_empty log_fit_entry_header
log_add_new_entry log =
    if is_log_full log
    then none
    else if is_log_empty log
    then some 0
    else if log_fit_entry_header log log.end
    then some log.end
    else some 0

-- `entry` is the address of the entry whose length counts, which need not be `offset`.
unfoldable pub log_fit_entry : Log → ℕ → ℕ → Bool
log_fit_entry log offset entry = leb (log_entry_len log.mem entry) (sub64 log.len offset)

unfoldable pub log_offset_end_distance : Log → ℕ → ℕ
log_offset_end_distance log offset =
    if log.end == log.len
    then 0
    else if leb offset log.end
    then log.end - offset
    else sub64 log.len (offset - log.end)

unfoldable pub log_is_offset_larger : Log → ℕ → ℕ → Bool
log_is_offset_larger log loffset roffset =
    ltb (log_offset_end_distance log loffset) (log_offset_end_distance log roffset)

-- The offset that `*offset` has after the call, which is that of the entry; none for NULL, and
-- `*offset` is then unchanged.
unfoldable pub log_get_entry : Log → ℕ → Option ℕ
unfolding is_log_empty log_offset_end_distance log_fit_entry_header
log_get_entry log offset =
    if is_log_empty log
    then none
    else if log_offset_end_distance log offset == 0
    then none
    else if log_fit_entry_header log offset
    then some offset
    else some 0
