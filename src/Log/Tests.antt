-- ===== src/Log/Tests.antt =====
-- Runs of the log on a buffer of 256 bytes, and the theorems at such logs.
use apus.Base.{
  ◌+◌, ◌≤◌, ℕ, ◌<◌, ◌≡◌, ◌↔◌, refl, arith, inl, inr, true, false, Option, none, some, [], ◌∷◌,
  length, ◌==◌, ◌&&◌,
}
use apus.Log.Mem.{load, store, copy, clear, bytes}
use apus.Log.State.{Log, Data, noop, csm, Entry, NcBuf, head_type}
use apus.Log.Entry.{
  entry_idx, entry_term, entry_req_id, entry_clt_id, entry_type, entry_cmd_len, entry_cmd,
  log_entry_len, read_data, read_entry, write_header,
}
use apus.Log.Offsets.{
  is_log_empty, log_fit_entry_header, log_fit_entry, log_offset_end_distance, log_is_offset_larger,
  log_get_entry, log_add_new_entry,
}
use apus.Log.Scan.{
  skip_entry, det_at, entries_to_nc_buf, scan_fuel, log_entries_to_nc_buf, find_tail, log_get_tail,
  ◌>>=◌,
}
use apus.Log.Append.{
  Appended, next_idx, finish, write_cmd_len, copy_cmd, append_wrapped, append_data, append_at,
  append_new, set_tail, log_append_entry,
}
use apus.Log.NewEntry.{new_entry}
use apus.Log.Layout.{Holds, linear, more, done, empty}
use apus.Log.Walk.{AreDets}
use apus.Log.Refine.{fresh}
use apus.Log.Window.{IsWindow}
use apus.Log.AppendEntry.{log_append_entry-IsWindow}
use apus.Log.NcBuf.{log_entries_to_nc_buf-dets}
use apus.Log.Brim.{append_to_brim}
use apus.Log.Order.{place, log_is_offset_larger_iff}

abbrev small : Log
small = record {
  head = 0;
  apply = 0;
  commit = 0;
  end = 256;
  tail = 256;
  old_end = 256;
  old_commit = 0;
  len = 256;
  nc_buf = [];
  mem = λ x. 0;
}

abbrev cmd : Data
cmd = csm 5 (7 ∷ 8 ∷ 9 ∷ [])

two : Option Appended
two = do a ← log_append_entry false small 3 17 5 cmd; log_append_entry a.prev_head a.log 3 18 5 noop

two_view : Option (ℕ × ℕ × ℕ × Entry × Option NcBuf)
two_view = do
  a ← two
  some (a.idx, a.log.tail, a.log.end, read_entry a.log.mem 0, log_entries_to_nc_buf a.log)

-- A command of three bytes, then an entry without data: indices 1 and 2, offsets 0 and 67.
two_runs :
    two_view
    ≡ some (
      2,
      67,
      131,
      record { idx = 1; term = 3; req_id = 17; clt_id = 5; content = cmd },
      some (
          record { idx = 1; term = 3; offset = 0 }
          ∷ record { idx = 2; term = 3; offset = 67 }
          ∷ []),
    )
unfolding two two_view load store copy clear bytes entry_idx entry_term entry_req_id entry_clt_id
    entry_type entry_cmd_len entry_cmd log_entry_len read_data read_entry write_header is_log_empty
    log_fit_entry_header log_fit_entry log_get_entry log_add_new_entry skip_entry det_at
    entries_to_nc_buf scan_fuel log_entries_to_nc_buf find_tail log_get_tail next_idx finish
    write_cmd_len copy_cmd append_wrapped append_data append_at append_new set_tail log_append_entry
two_runs = refl

small-IsWindow : IsWindow small [] [] []
small-IsWindow = record {
  len_fits = omega arith;
  len_pos = omega arith;
  whole = empty refl refl;
  unapplied = empty refl refl;
  uncommitted = empty refl refl;
  apply_inside = inl (omega arith, omega arith, omega arith);
  commit_inside = inl (omega arith, omega arith, omega arith);
  tail_right = inl refl;
}

log_append_entry-IsWindow_example :
    (r : Appended) × (log_append_entry true small 3 17 5 cmd ≡ some r)
    × (r.idx ≡ 1)
    × (r.prev_head ≡ (5 == head_type && true))
    × IsWindow r.log [] [] (new_entry 1 3 17 5 cmd ∷ [])
log_append_entry-IsWindow_example =
    log_append_entry-IsWindow true 3 17 5 cmd small [] [] [] small-IsWindow (omega arith)
      (omega arith, refl, omega arith) (omega arith) (fresh refl (omega arith))

-- One entry without data, which is not committed.
abbrev one : Log
one = record small { end = 64 }

one-Holds : Holds one 0 (read_entry one.mem 0 ∷ [])
one-Holds =
    linear (omega arith) (more 64 (read_entry one.mem 0) one_size (omega arith) refl (done refl))
  where
    one_size : 64 ≡ 0 + log_entry_len one.mem 0
    one_size = unfold log_entry_len entry_type load in refl

one-IsWindow : IsWindow one [] [] (read_entry one.mem 0 ∷ [])
one-IsWindow = record {
  len_fits = omega arith;
  len_pos = omega arith;
  whole = one-Holds;
  unapplied = one-Holds;
  uncommitted = one-Holds;
  apply_inside = inl (omega arith, omega arith, omega arith);
  commit_inside = inl (omega arith, omega arith, omega arith);
  tail_right = inl refl;
}

log_entries_to_nc_buf-dets_example :
    (ds : NcBuf) × (log_entries_to_nc_buf one ≡ some ds)
    × (length ds ≤ 1024)
    × AreDets one ds (read_entry one.mem 0 ∷ [])
log_entries_to_nc_buf-dets_example =
    log_entries_to_nc_buf-dets one [] [] (read_entry one.mem 0 ∷ []) one-IsWindow (omega arith)

-- Three entries without data leave room for just one more.
abbrev nearly : Log
nearly = record small { end = 192; tail = 128 }

append_to_brim_example :
    let log = (append_new 4 3 17 5 nearly noop).1 in
    (is_log_empty log ≡ true)
    × ((o : ℕ) → log_offset_end_distance log o ≡ 0)
    × ((o : ℕ) → log_get_entry log o ≡ none)
    × (log_add_new_entry log ≡ some 0)
append_to_brim_example =
    append_to_brim 4 3 17 5 noop nearly (omega arith) tt (omega arith) (omega arith) (omega arith)
      refl

-- A log that wraps around: 192 comes before 64.
abbrev around : Log
around = record small { head = 128; end = 80; tail = 16 }

log_is_offset_larger_iff_example :
    (log_is_offset_larger around 64 192 ≡ true) ↔ (place around 192 < place around 64)
log_is_offset_larger_iff_example =
    log_is_offset_larger_iff around 64 192 (omega arith) (omega arith) (omega arith) (omega arith)
      (omega arith) (inr (omega arith, inr (omega arith))) (inr (omega arith, inl (omega arith)))
