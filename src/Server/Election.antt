-- ===== src/Server/Election.antt =====
-- src/dare/dare_server.c: start_election, server_to_follower, server_update_sid and update_cid.
use apus.Base.{
  length, ℕ, ◌+◌, Bool, true, false, not, ◌&&◌, ◌==◌, ltb, if◌then◌else◌, set, for_range,
}
use apus.Config.Cid.{Cid, get_group_size, is_server_on, equal_cid}
use apus.Log.State.{max_nc_entries, Log, NcBuf, Data}
use apus.Log.Append.{log_append_entry}
use apus.Log.Scan.{log_entries_to_nc_buf}
use apus.Server.Sid.{sid_get_l, sid_get_term, sid_set_idx, sid_unset_l, sid_set_term}
use apus.Server.State.{
  Server, hb_receive_cb, election_timeout, hb_timeout, Delay, lr_get_write, off, send_vote_request,
  send_vote_ack, revoke_log_access, restore_log_access, disconnect_server,
}
use apus.Server.Step.{
  Result, ok, crash, shutdown, ◌>>=◌, in_fuel, exit_unless_zero, set_sid, set_log, set_cid,
  set_server, set_hb_event, stop_hb_event, set_prune_event, set_to_adjust_event, call, server_at,
  Net, AckResult, sent, ack_failed, ack_error,
}

-- The compare-and-swap fails if the state identifier is not the old one.
unfoldable pub server_update_sid : ℕ → ℕ → Server → Result Server
server_update_sid new_sid old_sid s =
    if s.ctrl.sid == old_sid then ok (set_sid new_sid s) else shutdown

-- The timeout in tenths of the heartbeat period.
unfoldable pub hb_timeout_value : Server → Delay
hb_timeout_value s =
    if s.vars.hb_timeout_flag then hb_timeout s.vars.recomputed_hb_timeout else hb_timeout 100

-- SID [t+1|0|own_idx]
unfoldable pub next_sid : Server → ℕ
next_sid s = sid_set_idx (sid_unset_l (sid_set_term 0 (sid_get_term s.ctrl.sid + 1))) s.config.idx

-- Clear the vote of a server, and let its replication start anew.
unfoldable pub clear_vote : ℕ → Server → Server
clear_vote i s =
    set_server i (record (server_at s i) { next_lr_step = lr_get_write; send_flag = 1 })
      (record s { ctrl = record s.ctrl { vote_ack = set s.ctrl.vote_ack i s.log.len } })

unfoldable pub start_election : Net → Server → Result Server
start_election net s = do
  s ← server_update_sid (next_sid s) s.ctrl.sid s
  let rc = net.revoke_rc s
  s ← exit_unless_zero rc (call revoke_log_access s)
  let s = for_range (get_group_size s.config.cid) clear_vote s
  let s = set_hb_event hb_receive_cb election_timeout s
  exit_unless_zero (net.vote_request_rc s) (call send_vote_request s)

abbrev pub filled : Server → NcBuf → Log
filled s ds = record s.log { nc_buf = set s.log.nc_buf s.config.idx ds }

-- Store the determinants of the entries that are not committed. More than the array has room for are
-- written behind it.
unfoldable pub fill_nc_buf : Server → Result Server
fill_nc_buf s = do
  ds ← in_fuel (log_entries_to_nc_buf s.log)
  if ltb max_nc_entries (length ds) then crash else ok (set_log (filled s ds) s)

-- Stop the pruning, and adjust the timeout again.
unfoldable pub stop_leading : Server → Server
stop_leading s =
    let s = set_prune_event off s in
    let s = record s { vars = record s.vars { leader_failed = false } } in
    if s.vars.hb_timeout_flag
    then s
    else set_to_adjust_event (hb_timeout s.vars.recomputed_hb_timeout) s

-- What follows the vote ACK: the election if it could not be sent, else the wait for heartbeats.
abbrev pub on_ack : Net → Server → AckResult → Result Server
on_ack net s sent = ok (set_hb_event hb_receive_cb (hb_timeout_value s) s)
on_ack net s ack_failed = start_election net s
on_ack net s ack_error = shutdown

unfoldable pub after_vote_ack : Net → Server → Result Server
after_vote_ack net s = on_ack net (call send_vote_ack s) (net.vote_ack_rc s)

unfoldable pub server_to_follower : Net → Server → Result Server
server_to_follower net s = do
  let s = stop_leading (stop_hb_event s)
  s ← fill_nc_buf (call revoke_log_access s)
  let s = call restore_log_access s
  if sid_get_l s.ctrl.sid
      then after_vote_ack net s
      else ok (set_hb_event hb_receive_cb (hb_timeout_value s) s)

-- A server that leaves the group is disconnected; this server ends if it is the one.
unfoldable pub drop_server : Cid → ℕ → Result Server → Result Server
drop_server cid i r = do
  s ← r
  if not (is_server_on cid i) && is_server_on s.config.cid i
      then (if i == s.config.idx then shutdown else ok (call (disconnect_server i) s))
      else ok s

unfoldable pub update_cid : Cid → Server → Result (Bool × Server)
update_cid cid s = if equal_cid s.config.cid cid then ok (false, s) else (do
  s ←
      for_range (if ltb cid.size cid.new_size then cid.new_size else cid.size) (drop_server cid)
        (ok s)
  ok (true, set_cid cid s))

-- log_append_entry in the current term, with the global `prev_log_entry_head`.
unfoldable pub append_entry : ℕ → ℕ → Data → Server → Result (ℕ × Server)
append_entry req_id clt_id d s = do
  a ←
      in_fuel (
        log_append_entry s.vars.prev_log_entry_head s.log (sid_get_term s.ctrl.sid) req_id clt_id d)
  ok (a.idx, record s { log = a.log; vars = record s.vars { prev_log_entry_head = a.prev_head } })
