-- ===== src/Server/Count.antt =====
-- src/dare/dare_server.c: poll_vote_count.
use apus.Base.{
  ℕ, zero, suc, ◌+◌, ◌-◌, ◌/◌, ◌%◌, Bool, not, ◌&&◌, ◌||◌, Option, none, some, ◌==◌, ltb, leb,
  if◌then◌else◌, set, get_or, for_range, add64,
}
use apus.Config.Cid.{cid_stable, cid_transit, cid_extended, get_group_size, get_extended_group_size}
use apus.Log.State.{config, noop, config_type}
use apus.Log.Entry.{entry_idx, entry_type, entry_cid, log_entry_len}
use apus.Log.Offsets.{log_offset_end_distance, log_is_offset_larger, log_fit_entry, log_get_entry}
use apus.Server.Sid.{sid_set_l}
use apus.Server.State.{
  Server, lr_get_nce_len, hb_send_cb, now, off, restore_log_access, reset_wait_idx,
}
use apus.Server.Step.{
  Result, ok, crash, no_fuel, ◌>>=◌, exit_unless_zero, set_owner, set_log, set_server, server_at,
  set_hb_event, set_prune_event, set_to_adjust_event, call, Net,
}
use apus.Server.Election.{server_update_sid, append_entry}
use apus.Server.Reconfig.{
  poll_config_entries, round_fuel, remove_server, shrink_sizes, set_cid_state,
}
use apus.Server.Apply.{apply_committed_entries, no_offsets}

-- `vote_count[0]`, `vote_count[1]` and the state.
pub record Count : Type 0 where
  pub old_count : ℕ
  pub new_count : ℕ
  pub server : Server

-- The vote of server `i` carries its commit offset.
unfoldable pub take_vote : ℕ → ℕ → Server → Server
take_vote i remote_commit s =
    let offsets = record (get_or s.ctrl.log_offsets i no_offsets) { commit = remote_commit } in
    let s = record s { ctrl = record s.ctrl { log_offsets = set s.ctrl.log_offsets i offsets } } in
    let s = set_server i (record (server_at s i) { next_lr_step = lr_get_nce_len }) s in
    if log_is_offset_larger s.log remote_commit s.log.commit
    then set_log (record s.log { commit = remote_commit }) s
    else s

unfoldable pub has_voted : Server → ℕ → Bool
has_voted s i = not (i == s.config.idx) && not (s.log.len == get_or s.ctrl.vote_ack i 0)

unfoldable pub add_vote : ℕ → Count → Count
add_vote i c =
    let s = c.server in
    record {
      old_count = (if ltb i s.config.cid.size then c.old_count + 1 else c.old_count);
      new_count = (if ltb i s.config.cid.new_size then c.new_count + 1 else c.new_count);
      server = take_vote i (get_or s.ctrl.vote_ack i 0) s;
    }

unfoldable pub count_vote : ℕ → Count → Count
count_vote i c = if has_voted c.server i then add_vote i c else c

unfoldable pub count_votes : Server → Count
count_votes s =
    for_range (get_group_size s.config.cid) count_vote
      (record { old_count = 1; new_count = 1; server = s })

-- A majority of the old group, and of the new one while the configuration is not stable.
unfoldable pub is_elected : Count → Bool
is_elected c =
    let cid = c.server.config.cid in
    leb (cid.size / 2 + 1) c.old_count
    && (cid.state == cid_stable || leb (cid.new_size / 2 + 1) c.new_count)

unfoldable pub append_write : ℕ → ℕ → Server → Result Server
append_write req_id clt_id s = append_entry req_id clt_id (config s.config.cid) s >>= λ r.
    ok (record r.1 { vars = record r.1.vars { last_write_csm_idx = r.0 } })

-- The search for a CONFIG entry that is not applied: the offset reached, and the variable `entry`,
-- which is not initialised before the first round.
unfoldable pub find_config : ℕ → Server → ℕ → Option ℕ → Result (ℕ × Option ℕ)
find_config zero s offset last = no_fuel
find_config (suc fuel) s offset last =
    if log_offset_end_distance s.log offset == 0
    then ok (offset, last)
    else elim (log_get_entry s.log offset) [
      | none ↦ crash
      | some entry ↦
          let fits = log_fit_entry s.log entry entry in
          let next = (if fits then add64 entry (log_entry_len s.log.mem entry) else 0) in
          let rest = find_config fuel s next (some entry) in
          if fits
            && entry_type s.log.mem entry == config_type
            && ltb s.config.cid_idx (entry_idx s.log.mem entry)
          then ok (entry, some entry)
          else rest
    ]

-- The downsizing counts down from size[0] - 1, and stops before size[1].
unfoldable pub downsize : Server → Server
downsize s =
    let top = (s.config.cid.size + 255) % 256 in
    let s = set_cid_state cid_stable s in
    shrink_sizes (for_range (top - s.config.cid.new_size) (λ k. remove_server (top - k)) s)

unfoldable pub finish_transition : Option ℕ → Server → Result Server
finish_transition none s = crash
finish_transition (some entry) s =
    let t =
      (if (entry_cid s.log.mem entry).state == cid_extended
        then set_cid_state cid_transit s
        else downsize s) in
    append_write t.config.req_id t.config.clt_id t

unfoldable pub first_entry : Server → Result Server
first_entry s = if s.config.cid.state == cid_stable then append_write 0 0 (set_owner 0 0 s) else (do
  (offset, entry) ← find_config (round_fuel s.log) s s.config.cid_offset none
  if log_offset_end_distance s.log offset == 0
      then finish_transition entry s
      else append_entry 0 0 noop s >>= λ r.
          ok (record r.1 { vars = record r.1.vars { last_write_csm_idx = r.0 } }))

unfoldable pub become_leader : Net → Server → Result Server
become_leader net s =
    let s = set_hb_event hb_send_cb now (call reset_wait_idx s) in
    let s = set_to_adjust_event off s in
    let offsets =
      for_range (get_extended_group_size s.config.cid) (λ i xs. set xs i s.log.head)
        s.ctrl.apply_offsets in
    let s = record s { ctrl = record s.ctrl { apply_offsets = offsets } } in
    let s = set_prune_event now s in exit_unless_zero (net.restore_rc s) (call restore_log_access s)

unfoldable pub win_election : Net → Server → Result Server
win_election net s = do
  s ← server_update_sid (sid_set_l s.ctrl.sid) s.ctrl.sid s
  s ← poll_config_entries s
  s ← apply_committed_entries s
  s ← first_entry s
  become_leader net s

unfoldable pub poll_vote_count : Net → Server → Result Server
poll_vote_count net s =
    let c = count_votes s in if is_elected c then win_election net c.server else ok c.server
