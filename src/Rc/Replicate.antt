-- ===== src/Rc/Replicate.antt =====
-- src/dare/dare_ibv_rc.c: update_remote_logs, as it is built without DEBUG (makefile.init).
use apus.Base.{
  ℕ, zero, suc, ◌+◌, ◌-◌, ◌/◌, Bool, true, false, not, ◌&&◌, ◌||◌, none, some, ◌==◌, ltb, leb,
  if◌then◌else◌, add64, for_range,
}
use apus.Config.Cid.{Cid, cid_transit, get_extended_group_size}
use apus.Log.Mem.{Mem}
use apus.Log.State.{Log}
use apus.Log.Entry.{log_entry_len}
use apus.Log.Offsets.{log_offset_end_distance, log_is_offset_larger, log_fit_entry, log_get_entry}
use apus.Server.State.{ServerInfo, lr_update_log, lr_update_end}
use apus.Server.Reconfig.{round_fuel}
use apus.Rc.State.{
  Rc, Device, log_qp, write_log, write_end, write_commit, server_at, set_server, set_log, Run, done,
  crash, endless, ◌>>=◌, ignore_error,
}
use apus.Rc.Send.{post}
use apus.Rc.Adjust.{
  offsets_at, set_offsets, is_other, is_reachable, can_send, start_round, expect, each,
}

-- The parts of the log from an offset to the end, each an offset and a number of bytes: two where
-- the buffer wraps. A buffer of LOG_SIZE bytes, 2 ^ 26, stays below the uint32_t of the code.
unfoldable pub log_parts : Log → ℕ → (ℕ × ℕ) × (ℕ × ℕ)
log_parts log remote_end =
    if ltb remote_end log.end
    then ((remote_end, log.end - remote_end), (0, 0))
    else ((remote_end, log.len - remote_end), (0, log.end))

unfoldable pub send_count_of : Log → ℕ → ℕ
send_count_of log remote_end = if ltb remote_end log.end then 1 else 2

-- The leader's end offset is kept: it becomes that of the server once the update has succeeded.
unfoldable pub update_started : Log → ℕ → ServerInfo → ServerInfo
update_started log remote_end x = record x {
  cached_end_offset = log.end;
  send_count = send_count_of log remote_end;
}

unfoldable pub start_update : ℕ → Rc → Rc
start_update i rc =
    set_server i (update_started rc.server.log (offsets_at rc i).end (server_at rc i)) rc

-- The second part.
unfoldable pub post_rest : Device → ℕ → ℕ × ℕ → Rc → Run Rc
post_rest dev i (offset, n) rc =
    if ltb 0 n
    then (let rc = set_server i (record (server_at rc i) { send_flag = 0 }) rc in
        post dev i log_qp (write_log offset n) true (record rc { wa_flag = true }))
    else done rc

-- Without DEBUG the result of the first part is not looked at, nor that of the end offset.
unfoldable pub update_log : Device → ℕ → Rc → Run Rc
update_log dev i rc = do
  let parts = log_parts rc.server.log (offsets_at rc i).end
  let rc = start_update i rc
  rc ← ignore_error (post dev i log_qp (write_log parts.0.0 parts.0.1) true (expect i rc))
  post_rest dev i parts.1 rc

unfoldable pub update_end : Device → ℕ → Rc → Run Rc
update_end dev i rc =
    let end = (server_at rc i).cached_end_offset in
    let rc = set_offsets i (record (offsets_at rc i) { end = end }) rc in
    ignore_error (post dev i log_qp (write_end end) true (expect i rc))

-- Whether the number has been raised, and the state.
unfoldable pub update_server : Device → ℕ → Bool × Rc → Run (Bool × Rc)
update_server dev i (init, rc) =
    let step = (server_at rc i).next_lr_step in
    if not (can_send rc i)
    then done (init, rc)
    else if step == lr_update_log
    then (if log_offset_end_distance rc.server.log (offsets_at rc i).end == 0
        then done (init, rc)
        else (do rc ← update_log dev i (start_round init rc); done (true, rc)))
    else if step == lr_update_end
    then (do rc ← update_end dev i (start_round init rc); done (true, rc))
    else done (init, rc)

-- What `size` is after the loop over the two groups. The least offset that this loop computes is set
-- anew behind it.
unfoldable pub counted_size : Cid → ℕ
counted_size cid = if cid.state == cid_transit then cid.new_size else cid.size

-- The bytes `reply` of an entry.
unfoldable pub entry_reply : Mem → ℕ → ℕ → ℕ
entry_reply m a i = m (a + 28 + i)

unfoldable pub count_replies : Mem → ℕ → ℕ → ℕ → ℕ
count_replies m idx a size =
    for_range size (λ i n. if i == idx || entry_reply m a i == 1 then n + 1 else n) 0

unfoldable pub is_replicated : Mem → ℕ → ℕ → ℕ → Bool
is_replicated m idx size a = leb (size / 2 + 1) (count_replies m idx a size)

-- The search for the first entry that is not on a majority.
unfoldable pub find_replicated : ℕ → Log → ℕ → ℕ → ℕ → Run ℕ
find_replicated zero log idx size offset = endless
find_replicated (suc fuel) log idx size offset =
    if log_offset_end_distance log offset == 0
    then done offset
    else elim (log_get_entry log offset) [
      | none ↦ crash
      | some entry ↦
          let fits = log_fit_entry log entry entry in
          let next = (if fits then add64 entry (log_entry_len log.mem entry) else 0) in
          let rest = find_replicated fuel log idx size next in
          if fits && not (is_replicated log.mem idx size entry) then done entry else rest
    ]

unfoldable pub set_commit : ℕ → Rc → Rc
set_commit commit rc =
    let rc = set_log (record rc.server.log { commit = commit }) rc in
    let s = rc.server in
    record rc {
      server = record s { config = record s.config { cid_offset = commit } };
      committed = true;
    }

unfoldable pub commit_replicated : ℕ → Rc → Rc
commit_replicated offset rc =
    if log_is_offset_larger rc.server.log offset rc.server.log.commit
    then set_commit offset rc
    else rc

unfoldable pub advance_commit : Rc → Run Rc
advance_commit rc = do
  let log = rc.server.log
  offset ←
      find_replicated (round_fuel log) log rc.server.config.idx (counted_size rc.server.config.cid)
        log.commit
  done (commit_replicated offset rc)

-- The commit offset that a server is told: no larger than its end offset.
unfoldable pub remote_commit_of : Log → ℕ → ℕ
remote_commit_of log remote_end =
    if log_is_offset_larger log log.commit remote_end then remote_end else log.commit

unfoldable pub wants_commit : ℕ → Rc → Bool
wants_commit i rc =
    let x = offsets_at rc i in
    is_other rc i
    && is_reachable rc i
    && (server_at rc i).next_lr_step == lr_update_log
    && not (x.commit == x.end)
    && not (x.commit == rc.server.log.commit)

unfoldable pub update_commit : Device → ℕ → Bool × Rc → Run (Bool × Rc)
update_commit dev i (init, rc) =
    if wants_commit i rc
    then (do
      let x = offsets_at rc i
      let commit = remote_commit_of rc.server.log x.end
      let rc = start_round init (set_offsets i (record x { commit = commit }) rc)
      rc ← ignore_error (post dev i log_qp (write_commit commit) false rc)
      done (true, rc))
    else done (init, rc)

unfoldable pub update_remote_logs : Device → Rc → Run Rc
update_remote_logs dev rc = do
  (init, rc) ← each (get_extended_group_size rc.server.config.cid) (update_server dev) (false, rc)
  let size = counted_size rc.server.config.cid
  rc ← advance_commit rc
  (init, rc) ← each size (update_commit dev) (false, rc)
  done rc
