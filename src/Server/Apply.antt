-- ===== src/Server/Apply.antt =====
-- src/dare/dare_server.c: commit_new_entries, persist_new_entries and apply_committed_entries.
use apus.Base.{
  ℕ, zero, suc, ◌+◌, ◌-◌, Bool, true, false, not, ◌&&◌, ◌||◌, none, some, ◌==◌, ltb, leb,
  if◌then◌else◌, for_range, add64, get_or,
}
use apus.Config.Cid.{Cid, cid_stable, cid_transit, cid_extended, get_group_size, is_server_on}
use apus.Log.State.{config, noop_type, config_type, head_type}
use apus.Log.Mem.{store}
use apus.Log.Entry.{
  entry_idx, entry_term, entry_type, entry_req_id, entry_clt_id, entry_sender, entry_cid, entry_cmd,
  log_entry_len, is_plain,
}
use apus.Log.Offsets.{
  log_offset_end_distance, log_is_offset_larger, log_fit_entry, log_get_entry, is_log_empty,
}
use apus.Server.State.{
  Server, LogOffsets, permanent_failure, lr_update_log, store_cmd, send_entries_reply,
  send_clt_reply, do_action, update_state, reply_read_req,
}
use apus.Server.Step.{
  Result, ok, shutdown, crash, no_fuel, ◌>>=◌, set_owner, set_log, call, leads, server_at, Net,
}
use apus.Server.Election.{append_entry}
use apus.Server.Reconfig.{round_fuel, remove_server, shrink_sizes, set_cid_state}

abbrev pub no_offsets : LogOffsets
no_offsets = record { commit = 0; end = 0 }

-- A server that has voted, is reached, and whose log is not the leader's.
unfoldable pub is_behind : Server → ℕ → Bool
is_behind s i =
    not (
      i == s.config.idx
      || not (is_server_on s.config.cid i)
      || leb permanent_failure (server_at s i).fail_count)
    && not (get_or s.ctrl.vote_ack i 0 == s.log.len)
    && (not ((server_at s i).next_lr_step == lr_update_log)
        || not ((get_or s.ctrl.log_offsets i no_offsets).end == s.log.end))

-- The result code of the network layer is only reported.
unfoldable pub commit_new_entries : Net → Server → Server
commit_new_entries net s =
    if not (log_offset_end_distance s.log s.log.commit == 0)
    then (net.write_remote_logs true s).1
    else if is_log_empty s.log
    then s
    else if for_range (get_group_size s.config.cid) (λ i b. b || is_behind s i) false
    then (net.write_remote_logs false s).1
    else s

abbrev pub set_old_end : ℕ → Server → Server
set_old_end o s = set_log (record s.log { old_end = o }) s

unfoldable pub persist_entry : ℕ → Server → Server
persist_entry entry s =
    let s = call (store_cmd (entry_clt_id s.log.mem entry)) s in
    let s =
      (if leads s
        then set_log (record s.log { mem = store s.log.mem (entry + 27) 1 s.config.idx }) s
        else call (send_entries_reply (entry_sender s.log.mem entry)) s) in
    set_old_end (add64 entry (log_entry_len s.log.mem entry)) s

unfoldable pub persist_rounds : ℕ → Server → Result Server
persist_rounds zero s = no_fuel
persist_rounds (suc fuel) s =
    if log_is_offset_larger s.log s.log.end s.log.old_end
    then elim (log_get_entry s.log s.log.old_end) [
      | none ↦ crash
      | some entry ↦
          ok (if log_fit_entry s.log entry entry then persist_entry entry s else set_old_end 0 s)
          >>= persist_rounds fuel
    ]
    else ok s

unfoldable pub persist_new_entries : Server → Result Server
persist_new_entries s = persist_rounds (round_fuel s.log) s

abbrev pub set_apply : ℕ → Server → Server
set_apply o s = set_log (record s.log { apply = o }) s

-- A client's entry goes to the state machine; at the leader the proxy has already executed it.
unfoldable pub apply_entry : ℕ → Server → Server
apply_entry entry s =
    let m = s.log.mem in
    let type = entry_type m entry in
    let s' =
      (if leads s
        then call update_state s
        else call (do_action (entry_clt_id m entry) type (entry_cmd m entry)) s) in
    if is_plain type then s else record s' {
      vars = record s'.vars {
        last_applied_entry = record {
          idx = entry_idx m entry;
          term = entry_term m entry;
          offset = add64 s.log.apply (log_entry_len m entry);
        };
        last_cmt_write_csm_idx = entry_idx m entry;
      };
    }

-- From the transitional state to the stable one: the servers from size[1] on are removed.
unfoldable pub settle : Server → Server
settle s =
    let lo = s.config.cid.new_size in
    let s = set_cid_state cid_stable s in
    shrink_sizes (for_range (s.config.cid.size - lo) (λ k. remove_server (lo + k)) s)

unfoldable pub apply_unstable : Cid → ℕ → ℕ → Server → Result Server
apply_unstable cid req_id clt_id s =
    let extended = cid.state == cid_extended in
    let joined = extended && not (req_id == 0) in
    let s =
      (if extended
        then set_cid_state cid_transit s
        else if cid.state == cid_transit
        then settle s
        else s) in
    let s = (if joined then call (send_clt_reply clt_id req_id) s else s) in
    let req_id = (if joined then 0 else req_id) in
    let clt_id = (if joined then 0 else clt_id) in
    append_entry req_id clt_id (config s.config.cid) (set_owner req_id clt_id s) >>= λ r. ok r.1

-- A CONFIG entry at the leader.
unfoldable pub apply_config : ℕ → Server → Result Server
apply_config entry s =
    let cid = entry_cid s.log.mem entry in
    let req_id = entry_req_id s.log.mem entry in
    let clt_id = entry_clt_id s.log.mem entry in
    if cid.state == cid_stable
    then (if req_id == 0
        then ok s
        else if s.state.die_af_commit
        then shutdown
        else ok (call (send_clt_reply clt_id req_id) s))
    else if ltb cid.epoch s.config.cid.epoch
    then ok s
    else apply_unstable cid req_id clt_id s

unfoldable pub apply_as : Bool → ℕ → Server → Result Server
apply_as leader entry s =
    let type = entry_type s.log.mem entry in
    if not leader
    then ok (apply_entry entry s)
    else if type == noop_type || type == head_type
    then ok s
    else if type == config_type
    then apply_config entry s
    else ok (apply_entry entry s)

-- One round, on the entry that the apply offset stands for.
unfoldable pub apply_at : ℕ → Server → Result Server
apply_at entry s =
    if log_fit_entry s.log entry entry
    then (do
      t ← apply_as (leads s) entry (set_apply entry s)
      ok (set_apply (add64 t.log.apply (log_entry_len t.log.mem entry)) t))
    else ok (set_apply 0 s)

unfoldable pub apply_rounds : ℕ → Server → Result Server
apply_rounds zero s = no_fuel
apply_rounds (suc fuel) s =
    if log_is_offset_larger s.log s.log.commit s.log.apply
    then elim (log_get_entry s.log s.log.apply) [
      | none ↦ crash
      | some entry ↦ apply_at entry s >>= apply_rounds fuel
    ]
    else ok s

unfoldable pub apply_committed_entries : Server → Result Server
apply_committed_entries s = do
  t ← apply_rounds (round_fuel s.log) s
  ok (
      if not (s.log.apply == t.log.apply) && leads t
      then call (reply_read_req t.vars.last_cmt_write_csm_idx) t
      else t)
