-- ===== src/Log/Append.antt =====
-- src/include/dare/dare_log.h: log_append_entry.
use apus.Base.{ℕ, ◌+◌, Bool, ◌&&◌, Option, none, some, List, ◌==◌, if◌then◌else◌, add64, length}
use apus.Log.Mem.{store, copy}
use apus.Log.State.{Log, Data, noop, config, head, csm, noop_type, config_type, head_type}
use apus.Log.Entry.{entry_idx, log_entry_len, write_header, write_cid}
use apus.Log.Offsets.{log_fit_entry_header, log_fit_entry, log_add_new_entry, log_get_entry}
use apus.Log.Scan.{log_get_tail, ◌>>=◌}

-- The argument `type`, which tells what `data` points to.
abbrev pub type_of : Data → ℕ
type_of noop = noop_type
type_of (config cid) = config_type
type_of (head h) = head_type
type_of (csm t cmd) = t

-- What the call returns, the global `prev_log_entry_head` and the log.
pub record Appended : Type 0 where
  pub idx : ℕ
  pub prev_head : Bool
  pub log : Log

-- The index after that of the last entry.
unfoldable pub next_idx : Log → ℕ
next_idx log = elim (log_get_entry log log.tail) [
  | none ↦ 1
  | some last ↦ add64 (entry_idx log.mem last) 1
]

-- The new tail and the new end.
unfoldable pub finish : ℕ → ℕ → Log → ℕ × Log
finish idx entry log =
    (idx, record log { tail = log.end; end = add64 log.end (log_entry_len log.mem entry) })

-- The length, then the bytes of a command.
unfoldable pub write_cmd_len : Log → ℕ → List ℕ → Log
write_cmd_len log entry cmd = record log { mem = store log.mem (entry + 48) 2 (length cmd) }

unfoldable pub copy_cmd : Log → ℕ → List ℕ → Log
copy_cmd log entry cmd = record log { mem = copy log.mem (entry + 50) cmd }

module _ (idx term req_id clt_id : ℕ) where
  -- The command goes to the start of the buffer, with a header of its own.
  unfoldable pub append_wrapped : Log → ℕ → List ℕ → ℕ × Log
  append_wrapped log type cmd = elim (log_add_new_entry log) [
    | none ↦ (0, log)
    | some entry ↦
        let log = record log { mem = write_header log.mem entry idx term req_id clt_id type } in
        finish idx entry (copy_cmd (write_cmd_len log entry cmd) entry cmd)
  ]

  -- The switch on the type.
  unfoldable pub append_data : Log → ℕ → Data → ℕ × Log
  append_data log entry noop = finish idx entry log
  append_data log entry (config cid) =
      finish idx entry (record log { mem = write_cid log.mem entry cid })
  append_data log entry (head h) =
      finish idx entry (record log { mem = store log.mem (entry + 48) 8 h })
  append_data log entry (csm type cmd) =
      let log = write_cmd_len log entry cmd in
      if log_fit_entry log log.end entry
      then finish idx entry (copy_cmd log entry cmd)
      else append_wrapped (record log { end = 0 }) type cmd

  unfoldable pub append_at : Log → ℕ → Data → ℕ × Log
  append_at log entry d =
      let log = record log {
        mem = write_header log.mem entry idx term req_id clt_id (type_of d);
      } in
      append_data (if log_fit_entry_header log log.end then log else record log { end = 0 }) entry d

  unfoldable pub append_new : Log → Data → ℕ × Log
  append_new log d = elim (log_add_new_entry log) [
    | none ↦ (0, log)
    | some entry ↦ append_at log entry d
  ]

unfoldable pub set_tail : Log → Option Log
set_tail log =
    if log.tail == log.len
    then (do t ← log_get_tail log; some (record log { tail = t }))
    else some log

-- None if the search for the tail runs out of fuel.
unfoldable pub log_append_entry : Bool → Log → ℕ → ℕ → ℕ → Data → Option Appended
log_append_entry prev_head log term req_id clt_id d = do
  log' ← set_tail log
  let r = append_new (next_idx log') term req_id clt_id log' d
  some (record { idx = r.0; prev_head = type_of d == head_type && prev_head; log = r.1 })
