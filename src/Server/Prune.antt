-- ===== src/Server/Prune.antt =====
-- src/dare/dare_server.c: log_pruning and force_log_pruning.
use apus.Base.{
  ℕ, ◌*◌, Bool, true, not, ◌&&◌, ◌==◌, ltb, if◌then◌else◌, List, set, get_or, for_range,
}
use apus.Config.Cid.{get_extended_group_size, is_server_on, server_rm}
use apus.Log.State.{Log, config, head}
use apus.Log.Offsets.{log_offset_end_distance, log_is_offset_larger}
use apus.Log.Scan.{log_get_tail}
use apus.Server.State.{Server, disconnect_server, log_pruning_period}
use apus.Server.Step.{
  Result, ok, shutdown, ◌>>=◌, in_fuel, set_log, set_cid, set_owner, set_prune_event, call, leads,
  Net,
}
use apus.Server.Election.{append_entry}
use apus.Server.Reconfig.{clear_snapshot}

-- The least offset so far, and the apply offsets.
abbrev pub Least : Type 0
Least = ℕ × List ℕ

abbrev pub set_apply_offsets : List ℕ → Server → Server
set_apply_offsets xs s = record s { ctrl = record s.ctrl { apply_offsets = xs } }

-- A server that is off does not hold the head back.
unfoldable pub least_round : Server → ℕ → Least → Least
least_round s i (least, xs) =
    let xs = (if is_server_on s.config.cid i then xs else set xs i s.log.apply) in
    (if log_is_offset_larger s.log least (get_or xs i 0) then get_or xs i 0 else least, xs)

unfoldable pub least_offset : Server → Least
least_offset s =
    for_range (get_extended_group_size s.config.cid) (least_round s)
      (s.log.apply, s.ctrl.apply_offsets)

-- One entry stays in the log.
unfoldable pub keep_entry : Log → ℕ → Result ℕ
keep_entry log offset =
    if log_offset_end_distance log offset == 0 then in_fuel (log_get_tail log) else ok offset

unfoldable pub advance_head : ℕ → Server → Result Server
advance_head offset s =
    if log_is_offset_larger s.log offset s.log.head && not s.vars.prev_log_entry_head
    then (do
      (idx, t) ←
          append_entry 0 0 (head offset)
            (clear_snapshot (set_log (record s.log { head = offset }) s))
      ok (record t { vars = record t.vars { prev_log_entry_head = true } }))
    else ok s

-- Whether the call succeeds, and the state.
unfoldable pub log_pruning : Net → Server → Result (Bool × Server)
log_pruning net s =
    if leads s
    then (do
      let l = least_offset s
      let s = set_apply_offsets l.1 s
      offset ← keep_entry s.log l.0
      t ← advance_head offset s
      let r = net.get_remote_apply_offsets t
      ok (r.0 == 0, r.1))
    else ok (true, s)

unfoldable pub prune_log : Net → Server → Result Server
prune_log net s = do
  (success, t) ← log_pruning net s
  if success then ok (set_prune_event log_pruning_period t) else shutdown

-- The least offset so far, and the server that it is from.
unfoldable pub target_round : Server → ℕ → ℕ × ℕ → ℕ × ℕ
target_round s i (least, target) =
    let x = get_or s.ctrl.apply_offsets i 0 in
    if log_is_offset_larger s.log least x then (x, i) else (least, target)

unfoldable pub slowest : Server → ℕ × ℕ
slowest s =
    for_range (get_extended_group_size s.config.cid) (target_round s) (s.log.apply, s.config.idx)

unfoldable pub drop_slowest : ℕ → Server → Result Server
drop_slowest target s = do
  let t = call (disconnect_server target) (set_cid (server_rm s.config.cid target) s)
  (idx, t) ← append_entry 0 0 (config t.config.cid) (set_owner 0 0 t)
  -- the index is the loop's counter, which has passed the last server
  ok (
      set_apply_offsets
        (set t.ctrl.apply_offsets (get_extended_group_size s.config.cid) t.log.apply) t)

unfoldable pub force_log_pruning : Net → Server → Result Server
force_log_pruning net s =
    let target = (slowest s).1 in
    if ltb (4 * log_offset_end_distance s.log s.log.head) (3 * s.log.len)
    then ok s
    else if not (target == s.config.idx) && is_server_on s.config.cid target
    then (drop_slowest target s >>= log_pruning net >>= λ r. ok r.1)
    else log_pruning net s >>= λ r. ok r.1
