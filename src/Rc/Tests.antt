-- ===== src/Rc/Tests.antt =====
-- Runs of src/dare/dare_ibv_rc.c in a group of three servers, and the theorems there.
use apus.Base.{
  ℕ, ◌+◌, ◌≡◌, ◌⊎◌, refl, arith, true, false, List, [], ◌∷◌, ◌==◌, if◌then◌else◌, test_bit, map,
  replicate,
}
use apus.Log.Mem.{Mem, load}
use apus.Log.State.{Log}
use apus.Log.Entry.{log_entry_len, entry_type, read_entry}
use apus.Log.Offsets.{log_offset_end_distance}
use apus.Log.Layout.{Holds, linear, more, done}
use apus.Server.Sid.{sid_get_idx}
use apus.Config.Cid.{is_server_on, get_extended_group_size}
use apus.Server.State.{lr_update_log, lr_update_end}
use apus.Server.Step.{no_server}
use apus.Server.Sample.{server}
use apus.Rc.Wrid.{wrid_get_ssn, wrid_get_conn, wrid_get_wa, wrid_get_tag, new_wrid, wrid_roundtrip}
use apus.Rc.State.{Rc, Ep, Device, no_qp, Run}
use apus.Rc.State
use apus.Rc.Adjust.{expected}
use apus.Rc.Replicate.{log_parts, counted_size, advance_commit, update_started, send_count_of}
use apus.Rc.WriteLogs.{rc_write_remote_logs}
use apus.Rc.Completion.{wc_success, lr_success}
use apus.Rc.Access.{rc_revoke_log_access, rc_restore_log_access}
use apus.Rc.Ends.{Ends, self}
use apus.Rc.KeepLog.{offsets_of}
use apus.Rc.Parts.{write_part, is_between, log_parts-write}
use apus.Rc.LrStep.{
  Link, waiting, answered, post_log, completed, LrReach, start, next, update_end-whole,
}
use apus.Rc.Commit.{Split, advance_commit-replicated}
use apus.Rc.Forward.{IsForward}
use apus.Rc.WriteForward.{rc_write_remote_logs-IsForward}
use apus.Rc.Fence.{has_access, rc_revoke_log_access-lem, restore_log_access-fence}

wrid_roundtrip_example :
    (wrid_get_ssn (new_wrid 77 3 true false) ≡ 77)
    × (wrid_get_conn (new_wrid 77 3 true false) ≡ 3)
    × (wrid_get_wa (new_wrid 77 3 true false) ≡ true)
    × (wrid_get_tag (new_wrid 77 3 true false) ≡ false)
wrid_roundtrip_example = wrid_roundtrip 77 3 true false (omega arith) (omega arith)

-- One entry without data, to which server 0 has replied.
abbrev replied : Mem
replied x = if x == 28 then 1 else 0

abbrev one : Log
one = record {
  head = 0;
  apply = 0;
  commit = 0;
  end = 64;
  tail = 0;
  old_end = 0;
  old_commit = 0;
  len = 256;
  nc_buf = replicate 3 [];
  mem = replied;
}

-- A log that wraps around.
abbrev around : Log
around = record one { end = 64; head = 128; commit = 128 }

log_parts-write_example :
    ((log_parts around 192).0.1 + (log_parts around 192).1.1 ≡ log_offset_end_distance around 192)
    × (write_part replied
          (log_parts around 192).1
          (write_part replied (log_parts around 192).0 (λ x. 9))
          28
        ≡ (if is_between 192 64 28 then replied 28 else 9))
log_parts-write_example =
    log_parts-write around 192 (λ x. 9) 28 (omega arith) (omega arith) (omega arith) (omega arith)
      (omega arith)

-- A server to which the log is written, and the two completions of its two parts.
abbrev ready : Link
ready = record {
  info = record no_server { next_lr_step = lr_update_log; send_flag = 1 };
  pending = 0;
  lost = false;
}

abbrev first_sent : Link
first_sent = waiting (send_count_of around 192) (expected 7 (update_started around 192 ready.info))

abbrev one_written : Link
one_written = answered wc_success 1 first_sent

abbrev both_written : Link
both_written = answered wc_success 0 one_written

one_written-LrReach : LrReach ready one_written
unfolding send_count_of
one_written-LrReach =
    next (next start (post_log 7 around 192 refl refl)) (completed 1 wc_success refl)

lr_step_runs :
    (one_written.info.next_lr_step ≡ lr_update_log)
    × (both_written.info.next_lr_step ≡ lr_update_end)
unfolding lr_success expected update_started send_count_of
lr_step_runs = (refl, refl)

update_end-whole_example : (both_written.pending ≡ 0) × (both_written.lost ≡ false)
update_end-whole_example =
    update_end-whole refl refl one_written-LrReach (completed 0 wc_success refl) lr_step_runs.0
      lr_step_runs.1

abbrev connected : Ep
connected = record { rc_connected = true; log_access = true; ctrl = no_qp; log = no_qp }

-- Server 1, whose state identifier names server 0 the leader of term 2.
abbrev pub group_of_three : Rc
group_of_three = record {
  server = record (server 1280 [] [] (0 ∷ 0 ∷ 0 ∷ []) false) { log = one };
  eps = replicate 3 connected;
  ssn = 0;
  wa_flag = false;
  committed = false;
  polls = [];
  posts = [];
}

abbrev pub device : Device
device = record { rc_max_send_wr = 64; modify_rc = λ i q. 0; post_rc = λ ps p. 0 }

one-Holds : Holds one 0 (read_entry replied 0 ∷ [])
one-Holds =
    linear (omega arith) (more 64 (read_entry replied 0) one_size (omega arith) refl (done refl))
  where
    one_size : 64 ≡ 0 + log_entry_len replied 0
    one_size = unfold log_entry_len entry_type load in refl

advance_commit-replicated_example :
    (t : Rc) × (advance_commit group_of_three ≡ State.done t)
    × (xs : List ℕ) × (map (read_entry replied) xs ≡ read_entry replied 0 ∷ [])
    × (c : ℕ) × (s : Split one 1 (counted_size group_of_three.server.config.cid) c xs)
    × ((t.server.log.commit ≡ c) ⊎ ((s.before ≡ []) × (t ≡ group_of_three)))
advance_commit-replicated_example =
    advance_commit-replicated group_of_three (read_entry replied 0 ∷ []) (omega arith) one-Holds

rc_write_remote_logs-IsForward_example :
    Ends self (λ t. IsForward one (offsets_of t)) (rc_write_remote_logs device true group_of_three)
rc_write_remote_logs-IsForward_example = rc_write_remote_logs-IsForward device group_of_three

group_size : get_extended_group_size group_of_three.server.config.cid ≡ 3
unfolding get_extended_group_size
group_size = refl

rc_revoke_log_access-lem_example :
    (t : Rc) × (rc_revoke_log_access device group_of_three ≡ State.done t)
    × (has_access t 2 ≡ false)
rc_revoke_log_access-lem_example =
    rc_revoke_log_access-lem device group_of_three 2 (λ j. refl) (omega (arith, group_size))
      (omega (arith, group_size))

leader_is_on :
    (sid_get_idx 1280 ≡ 0)
    × (is_server_on group_of_three.server.config.cid (sid_get_idx 1280) ≡ true)
unfolding is_server_on sid_get_idx test_bit
leader_is_on = (refl, refl)

restore_log_access-fence_example :
    (t : Rc) × (u : Rc) × (rc_revoke_log_access device group_of_three ≡ State.done t)
    × (rc_restore_log_access device t ≡ State.done u)
    × (has_access u 2 ≡ false)
restore_log_access-fence_example =
    restore_log_access-fence device group_of_three 2 (λ j. refl) (omega (arith, group_size))
      (omega (arith, leader_is_on.0)) leader_is_on.1 (unfold sid_get_idx in refl)
      (omega (arith, group_size)) (omega (arith, leader_is_on.0))
