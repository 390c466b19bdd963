-- ===== src/Log/Placed.antt =====
-- log_append_entry: where it puts the new entry, on each of its paths.
use apus.Base.{ℕ, ◌+◌, ◌^◌, ◌≤◌, ◌<◌, ◌≡◌, ◌∙◌, arith, List, length, some, true, false, add64}
use apus.Log.Mem.{Mem, store, Outside, store-Outside, load-store_ne}
use apus.Log.State.{Log, Data, noop, config, head, csm}
use apus.Log.Entry.{entry_idx, entry_term, entry_type, log_entry_len, write_header, write_cid}
use apus.Log.Offsets.{log_fit_entry_header, log_fit_entry, log_add_new_entry}
use apus.Log.Append.{
  type_of, finish, write_cmd_len, copy_cmd, append_data, append_at, append_wrapped,
}
use apus.Log.Written.{
  size_of, size_of-ge, IsData, write_data, type-header, header-Outside, idx-header, term-header,
}
use apus.Log.NewEntry.{
  IsStamp, write_entry, write_entry-Stored, data-write_data, len-write_cmd_len, type-lt,
}

-- The log after a new entry at p.
unfoldable pub placed : Data → Log → ℕ → Mem → Log
placed d log p m = record log { mem = m; tail = p; end = p + size_of d }

finish-placed :
    (idx : ℕ) (d : Data) (log : Log) (m : Mem)
    → log.len < 2 ^ 64
    → log.end + size_of d ≤ log.len
    → log_entry_len m log.end ≡ size_of d
    → finish idx log.end (record log { mem = m }) ≡ (idx, placed d log log.end m)
unfolding finish placed
finish-placed idx d log m small f e =
    rw e (λ i. (idx, record log { mem = m; tail = log.end; end = sum i }))
  where
    sum : add64 log.end (size_of d) ≡ log.end + size_of d
    sum = omega arith

module _ (idx term req_id clt_id : ℕ) where
  -- Where the entry at the end fits, its data is written there.
  append_data-fits :
      (d : Data) (log : Log)
      → IsData d
      → log.len < 2 ^ 64
      → log.end + size_of d ≤ log.len
      → entry_type log.mem log.end ≡ type_of d
      → append_data idx term req_id clt_id log log.end d
        ≡ (idx, placed d log log.end (write_data log.mem log.end d))
  unfolding append_data write_data write_cmd_len copy_cmd
  append_data-fits noop log h small f e =
      finish-placed idx noop log log.mem small f
        (unfold write_data in (data-write_data log.mem log.end noop h e).1)
  append_data-fits (config c) log h small f e =
      finish-placed idx (config c) log (write_cid log.mem log.end c) small f
        (unfold write_data in (data-write_data log.mem log.end (config c) h e).1)
  append_data-fits (head k) log h small f e =
      finish-placed idx (head k) log (store log.mem (log.end + 48) 8 k) small f
        (unfold write_data in (data-write_data log.mem log.end (head k) h e).1)
  append_data-fits (csm t cmd) log h small f e =
      rw (fits, append_data)
        (finish-placed idx (csm t cmd) log _ small f
          (unfold write_data in (data-write_data log.mem log.end (csm t cmd) h e).1))
    where
      fits : log_fit_entry (write_cmd_len log log.end cmd) log.end log.end ≡ true
      fits =
          unfold log_fit_entry write_cmd_len in
          rw (len-write_cmd_len log.mem log.end t cmd h e) (ground arith)

  -- Where the entry fits at the end it is written there.
  pub append_at-end :
      (d : Data) (log : Log)
      → IsStamp idx term req_id clt_id
      → IsData d
      → log.len < 2 ^ 64
      → log.end + size_of d ≤ log.len
      → append_at idx term req_id clt_id log log.end d
        ≡ (idx, placed d log log.end (write_entry idx term req_id clt_id d log.mem log.end))
  unfolding append_at write_entry placed
  append_at-end d log s h small f = rw header (
      append_data-fits d (record log { mem = m }) h small f
        (type-header log.mem log.end idx term req_id clt_id (type_of d) (type-lt d h)))
    where
      m : Mem
      m = write_header log.mem log.end idx term req_id clt_id (type_of d)

      header : log_fit_entry_header (record log { mem = m }) log.end ≡ true
      header = unfold log_fit_entry_header in ground (arith, size_of-ge d)

  -- Where no header fits at the end the entry is written at the start.
  pub append_at-start :
      (d : Data) (log : Log)
      → IsStamp idx term req_id clt_id
      → IsData d
      → log.len < 2 ^ 64
      → log.end ≤ log.len
      → log.len < log.end + 64
      → size_of d ≤ log.len
      → append_at idx term req_id clt_id log 0 d
        ≡ (idx, placed d log 0 (write_entry idx term req_id clt_id d log.mem 0))
  unfolding append_at write_entry placed
  append_at-start d log s h small e g f = rw header (
      append_data-fits d (record log { mem = m; end = 0 }) h small (omega arith)
        (type-header log.mem 0 idx term req_id clt_id (type_of d) (type-lt d h)))
    where
      m : Mem
      m = write_header log.mem 0 idx term req_id clt_id (type_of d)

      header : log_fit_entry_header (record log { mem = m }) log.end ≡ false
      header = unfold log_fit_entry_header in ground arith

  -- The memory with the copy of the header that stays at p.
  unfoldable pub with_copy : Mem → ℕ → ℕ → List ℕ → Mem
  with_copy m p t cmd = store (write_header m p idx term req_id clt_id t) (p + 48) 2 (length cmd)

  -- At the start of the buffer a command is written with a header of its own.
  append_wrapped-start :
      (t : ℕ) (cmd : List ℕ) (log : Log)
      → IsStamp idx term req_id clt_id
      → IsData (csm t cmd)
      → log.len < 2 ^ 64
      → 0 < log.head
      → 64 + length cmd ≤ log.len
      → append_wrapped idx term req_id clt_id (record log { end = 0 }) t cmd
        ≡ (idx, placed (csm t cmd) log 0 (write_entry idx term req_id clt_id (csm t cmd) log.mem 0))
  unfolding append_wrapped write_entry write_data write_cmd_len copy_cmd placed
  append_wrapped-start t cmd log s h small n f =
      rw (new_at, append_wrapped)
        (finish-placed idx (csm t cmd) (record log { end = 0 }) m small (omega arith)
          (write_entry-Stored log.mem 0 idx term req_id clt_id (csm t cmd) s h).size)
    where
      m : Mem
      m = write_entry idx term req_id clt_id (csm t cmd) log.mem 0

      new_at : log_add_new_entry (record log { end = 0 }) ≡ some 0
      new_at = unfold log_add_new_entry in ground arith

  -- Where only the header of a command fits at the end, it stays there, and the entry is written at
  -- the start.
  pub append_at-copied :
      (t : ℕ) (cmd : List ℕ) (log : Log)
      → IsStamp idx term req_id clt_id
      → IsData (csm t cmd)
      → log.len < 2 ^ 64
      → log.end + 64 ≤ log.len
      → log.len < log.end + (64 + length cmd)
      → 64 + length cmd ≤ log.len
      → 0 < log.head
      → append_at idx term req_id clt_id log log.end (csm t cmd) ≡ (
        idx,
        placed
            (csm t cmd)
            log
            0
            (write_entry idx term req_id clt_id (csm t cmd) (with_copy log.mem log.end t cmd) 0),
      )
  unfolding append_at append_data with_copy write_cmd_len placed
  append_at-copied t cmd log s h small e g f n =
      rw header (rw (misfit, append_data) (append_wrapped-start t cmd log1 s h small n f))
    where
      m : Mem
      m = write_header log.mem log.end idx term req_id clt_id t

      log1 : Log
      log1 = write_cmd_len (record log { mem = m }) log.end cmd

      header : log_fit_entry_header (record log { mem = m }) log.end ≡ true
      header = unfold log_fit_entry_header in ground arith

      misfit : log_fit_entry log1 log1.end log.end ≡ false
      misfit =
          unfold log_fit_entry in
          rw
            (len-write_cmd_len m log.end t cmd h
              (type-header log.mem log.end idx term req_id clt_id t h.0))
            (ground arith)

module _ (m : Mem) (p idx term req_id clt_id t : ℕ) (cmd : List ℕ) where
  -- The copy of the header lies in the 64 bytes from p on.
  pub with_copy-Outside :
      (x : ℕ) → Outside p 64 x → with_copy idx term req_id clt_id m p t cmd x ≡ m x
  unfolding with_copy
  with_copy-Outside x o =
      store-Outside _ (p + 48) 2 (length cmd) x (omega arith)
      ∙ header-Outside m p idx term req_id clt_id t x (omega arith)

  -- It has the index, the term and the length of the entry.
  pub idx-with_copy : idx < 2 ^ 64 → entry_idx (with_copy idx term req_id clt_id m p t cmd) p ≡ idx
  unfolding with_copy entry_idx
  idx-with_copy h =
      load-store_ne _ (p + 48) 2 (length cmd) p 8 (omega arith)
      ∙ idx-header m p idx term req_id clt_id t h

  pub term-with_copy :
      term < 2 ^ 64 → entry_term (with_copy idx term req_id clt_id m p t cmd) p ≡ term
  unfolding with_copy entry_term
  term-with_copy h =
      load-store_ne _ (p + 48) 2 (length cmd) (p + 8) 8 (omega arith)
      ∙ term-header m p idx term req_id clt_id t h

  pub len-with_copy :
      IsData (csm t cmd)
      → log_entry_len (with_copy idx term req_id clt_id m p t cmd) p ≡ 64 + length cmd
  unfolding with_copy
  len-with_copy h = len-write_cmd_len _ p t cmd h (type-header m p idx term req_id clt_id t h.0)
