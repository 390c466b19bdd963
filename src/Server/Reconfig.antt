-- ===== src/Server/Reconfig.antt =====
-- src/dare/dare_server.c: poll_config_entries, check_failure_count, and how a server leaves the
-- group.
use apus.Base.{
  ℕ, zero, suc, ◌+◌, ◌*◌, ◌/◌, true, false, not, ◌&&◌, none, some, ◌==◌, ltb, leb, if◌then◌else◌,
  for_range, add64,
}
use apus.Config.Cid.{Cid, cid_stable, get_group_size, is_server_on, server_rm, equal_cid}
use apus.Log.State.{Log, config, config_type, head_type}
use apus.Log.Entry.{
  entry_idx, entry_type, entry_req_id, entry_clt_id, entry_cid, entry_head, log_entry_len,
}
use apus.Log.Offsets.{log_offset_end_distance, log_is_offset_larger, log_fit_entry, log_get_entry}
use apus.Log.Scan.{scan_fuel}
use apus.Server.State.{Server, disconnect_server, permanent_failure}
use apus.Server.Step.{
  Result, ok, shutdown, crash, no_fuel, ◌>>=◌, set_cid, set_owner, set_log, call, leads, server_at,
}
use apus.Server.Election.{update_cid, append_entry}

-- The local variables of the loop in poll_config_entries.
pub record ConfigPoll : Type 0 where
  pub offset : ℕ
  pub head_offset : ℕ
  pub server : Server

abbrev pub clear_snapshot : Server → Server
clear_snapshot s = record s { state = record s.state { snapshot = false } }

-- A CONFIG entry that is new to the server.
unfoldable pub poll_config : ℕ → Server → Result Server
poll_config entry s =
    if ltb s.config.cid_idx (entry_idx s.log.mem entry)
    then (do
      (updated, t) ← update_cid (entry_cid s.log.mem entry) s
      ok (
          if updated
          then set_owner (entry_req_id s.log.mem entry) (entry_clt_id s.log.mem entry) t
          else t))
    else ok s

unfoldable pub poll_entry : ℕ → ℕ → ConfigPoll → Result ConfigPoll
poll_entry commit entry p =
    let s = p.server in
    let next = add64 entry (log_entry_len s.log.mem entry) in
    if entry_type s.log.mem entry == config_type
    then (do t ← poll_config entry s; ok (record p { offset = next; server = t }))
    else if entry_type s.log.mem entry == head_type && not (log_is_offset_larger s.log entry commit)
    then ok (record {
      offset = next;
      head_offset = entry_head s.log.mem entry;
      server = clear_snapshot s;
    })
    else ok (record p { offset = next })

-- One round of the loop per unit of fuel.
unfoldable pub config_rounds : ℕ → ℕ → ConfigPoll → Result ConfigPoll
config_rounds zero commit p = no_fuel
config_rounds (suc fuel) commit p =
    if log_offset_end_distance p.server.log p.offset == 0
    then ok p
    else elim (log_get_entry p.server.log p.offset) [
      | none ↦ crash
      | some entry ↦
          (if log_fit_entry p.server.log entry entry
            then poll_entry commit entry p
            else ok (record p { offset = 0 }))
          >>= config_rounds fuel commit
    ]

-- Twice the entries: an entry that does not fit costs a round more.
abbrev pub round_fuel : Log → ℕ
round_fuel log = 2 * scan_fuel log

unfoldable pub poll_config_entries : Server → Result Server
poll_config_entries s = do
  let commit = s.log.commit
  p ←
      config_rounds (round_fuel s.log) commit
        (record { offset = s.config.cid_offset; head_offset = s.log.head; server = s })
  let t = p.server
  let end = (if log_is_offset_larger t.log p.offset commit then commit else p.offset)
  let t = record t { config = record t.config { cid_offset = end } }
  ok (
      if log_is_offset_larger t.log p.head_offset t.log.head
      then set_log (record t.log { head = p.head_offset }) t
      else t)

-- The local variables of check_failure_count.
pub record Failures : Type 0 where
  pub connections : ℕ
  pub cid : Cid
  pub server : Server

unfoldable pub check_server : ℕ → Failures → Failures
check_server i f =
    if not (is_server_on f.cid i)
    then f
    else if leb permanent_failure (server_at f.server i).fail_count
    then (if leads f.server && f.server.config.cid.state == cid_stable
        then record f { cid = server_rm f.cid i; server = call (disconnect_server i) f.server }
        else f)
    else record f { connections = f.connections + 1 }

unfoldable pub check_failure_count : Server → Result Server
check_failure_count s =
    let size = get_group_size s.config.cid in
    let f =
      for_range size check_server (record { connections = 0; cid = s.config.cid; server = s }) in
    if leb f.connections (size / 2)
    then shutdown
    else if leads s && not (equal_cid f.cid s.config.cid)
    then (do
      (idx, t) ← append_entry 0 0 (config f.cid) (set_owner 0 0 (set_cid f.cid f.server))
      ok t)
    else ok f.server

-- One server of the old group is removed; the leader itself goes once the entry is committed.
unfoldable pub remove_server : ℕ → Server → Server
remove_server i s =
    if i == s.config.idx
    then record s {
      state = record s.state { die_af_commit = true };
      config = record s.config { cid = server_rm s.config.cid i };
    }
    else if not (is_server_on s.config.cid i)
    then s
    else call (disconnect_server i) (set_cid (server_rm s.config.cid i) s)

-- size[0] = size[1]; size[1] = 0;
unfoldable pub shrink_sizes : Server → Server
shrink_sizes s = set_cid (record s.config.cid { size = s.config.cid.new_size; new_size = 0 }) s

abbrev pub set_cid_state : ℕ → Server → Server
set_cid_state state s = set_cid (record s.config.cid { state = state }) s
