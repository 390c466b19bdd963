-- ===== src/Log/Scan.antt =====
-- src/include/dare/dare_log.h: the loops that walk from entry to entry. Each takes fuel, one for
-- each round, and is none if the fuel runs out.
use mathlib.Core.Option
use apus.Base.{
  ℕ, zero, suc, ◌+◌, ◌/◌, not, ◌||◌, Option, none, some, [], ◌∷◌, ◌==◌, if◌then◌else◌, add64,
}
use apus.Log.State.{Log, Det, NcBuf}
use apus.Log.Entry.{entry_idx, entry_term, log_entry_len}
use apus.Log.Offsets.{is_log_empty, log_fit_entry, log_get_entry}

infixl 5 ◌>>=◌
abbrev pub ◌>>=◌ {ℓ κ} : {A : Type ℓ} {B : Type κ} → Option A → (A → Option B) → Option B
none >>= f = none
some a >>= f = f a

-- From an entry to the next: an entry that does not fit before the end of the buffer lies at its
-- start.
unfoldable pub skip_entry : Log → ℕ → ℕ
skip_entry log offset =
    add64 (if log_fit_entry log offset offset then offset else 0) (log_entry_len log.mem offset)

unfoldable pub det_at : Log → ℕ → Det
det_at log offset = record {
  idx = entry_idx log.mem offset;
  term = entry_term log.mem offset;
  offset = offset;
}

unfoldable pub entries_to_nc_buf : ℕ → Log → ℕ → Option NcBuf
entries_to_nc_buf zero log offset = none
entries_to_nc_buf (suc fuel) log offset = elim (log_get_entry log offset) [
  | none ↦ some []
  | some entry ↦
      Option.map (λ ds. det_at log entry ∷ ds) (entries_to_nc_buf fuel log (skip_entry log entry))
]

-- Every round moves on by at least the size of an entry without data.
unfoldable pub scan_fuel : Log → ℕ
scan_fuel log = log.len / 64 + 2

unfoldable pub log_entries_to_nc_buf : Log → Option NcBuf
log_entries_to_nc_buf log = entries_to_nc_buf (scan_fuel log) log log.commit

-- `offset` is the value of the local variable, which is not initialised before the first round.
unfoldable pub find_remote_end : Log → NcBuf → ℕ → ℕ
find_remote_end log [] offset = offset
find_remote_end log (d ∷ ds) offset = elim (log_get_entry log d.offset) [
  | none ↦ d.offset
  | some entry ↦
      if not (entry_idx log.mem entry == d.idx) || not (entry_term log.mem entry == d.term)
      then entry
      else find_remote_end log ds (skip_entry log entry)
]

unfoldable pub find_tail : ℕ → Log → ℕ → ℕ → Option ℕ
find_tail zero log offset tail = none
find_tail (suc fuel) log offset tail = elim (log_get_entry log offset) [
  | none ↦ some tail
  | some entry ↦ find_tail fuel log (skip_entry log entry) entry
]

-- The search from the commit offset, then from the apply offset, then from the head offset.
unfoldable pub log_get_tail : Log → Option ℕ
log_get_tail log =
    if not (log.tail == log.len)
    then some log.tail
    else if is_log_empty log
    then some log.len
    else do
      t ← find_tail (scan_fuel log) log log.commit log.len
      if not (t == log.len) then some t else do
        u ← find_tail (scan_fuel log) log log.apply log.len
        if not (u == log.len) then some u else find_tail (scan_fuel log) log log.head log.len
