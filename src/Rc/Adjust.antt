-- ===== src/Rc/Adjust.antt =====
-- src/dare/dare_ibv_rc.c: log_adjustment.
use apus.Base.{
  ℕ, zero, suc, Bool, true, false, not, ◌&&◌, ◌||◌, Option, none, some, [], ◌==◌, ltb,
  if◌then◌else◌, set, get_or, length, add64,
}
use apus.Config.Cid.{get_extended_group_size, is_server_on}
use apus.Log.State.{NcBuf}
use apus.Log.Offsets.{log_is_offset_larger}
use apus.Log.Scan.{find_remote_end}
use apus.Server.State.{
  ServerInfo, LogOffsets, permanent_failure, lr_get_write, lr_get_nce_len, lr_get_nce, lr_set_end,
  lr_update_log,
}
use apus.Server.Apply.{no_offsets}
use apus.Rc.Wrid.{wrid_set_conn, wrid_set_ssn}
use apus.Rc.State.{
  Rc, Device, log_qp, Work, read_nc_len, read_nc_entries, write_end, ep_at, server_at, set_server,
  set_log, Run, done, ◌>>=◌,
}
use apus.Rc.Send.{post}

abbrev pub offsets_at : Rc → ℕ → LogOffsets
offsets_at rc i = get_or rc.server.ctrl.log_offsets i no_offsets

abbrev pub set_offsets : ℕ → LogOffsets → Rc → Rc
set_offsets i x rc =
    let s = rc.server in
    record rc {
      server = record s { ctrl = record s.ctrl { log_offsets = set s.ctrl.log_offsets i x } };
    }

abbrev pub nc_buf_at : Rc → ℕ → NcBuf
nc_buf_at rc i = get_or rc.server.log.nc_buf i []

-- A server that is on, and is not the leader.
unfoldable pub is_other : Rc → ℕ → Bool
is_other rc i = not (i == rc.server.config.idx) && is_server_on rc.server.config.cid i

-- Not suspected, and connected.
unfoldable pub is_reachable : Rc → ℕ → Bool
is_reachable rc i = ltb (server_at rc i).fail_count permanent_failure && (ep_at rc i).rc_connected

unfoldable pub can_send : Rc → ℕ → Bool
can_send rc i = is_other rc i && is_reachable rc i && not ((server_at rc i).send_flag == 0)

unfoldable pub next_ssn : Rc → Rc
next_ssn rc = record rc { ssn = add64 rc.ssn 1 }

-- The number is raised once in a loop: whether it has been, and the state.
unfoldable pub start_round : Bool → Rc → Rc
start_round init rc = if init then rc else next_ssn rc

-- Stop posting until a completion of the next request is received.
unfoldable pub expected : ℕ → ServerInfo → ServerInfo
expected wr_id x = record x { send_flag = 0; next_wr_id = wr_id }

unfoldable pub expect : ℕ → Rc → Rc
expect i rc =
    let x = server_at rc i in
    set_server i (expected (wrid_set_conn (wrid_set_ssn x.next_wr_id rc.ssn) i) x) rc

unfoldable pub has_acked : Rc → ℕ → Bool
has_acked rc i = not (rc.server.log.len == get_or rc.server.ctrl.vote_ack i 0)

-- The commit offset comes with the vote.
unfoldable pub take_commit : ℕ → Rc → Rc
take_commit i rc =
    let rc =
      set_offsets i (record (offsets_at rc i) { commit = get_or rc.server.ctrl.vote_ack i 0 }) rc in
    set_server i (record (server_at rc i) { next_lr_step = lr_get_nce_len }) rc

unfoldable pub raise_commit : ℕ → Rc → Rc
raise_commit remote_commit rc =
    let log = rc.server.log in
    if log_is_offset_larger log remote_commit log.commit
    then set_log (record log { commit = remote_commit }) rc
    else rc

-- No entries that are not committed: the adjustment is done.
unfoldable pub skip_adjustment : ℕ → Rc → Rc
skip_adjustment i rc =
    let x = offsets_at rc i in
    set_server i (record (server_at rc i) { next_lr_step = lr_update_log })
      (set_offsets i (record x { end = x.commit }) rc)

-- `offset`, which log_find_remote_end_offset returns for an empty buffer, is not initialised; the
-- buffer is not empty in this step.
unfoldable pub remote_end_of : ℕ → Rc → ℕ
remote_end_of i rc = find_remote_end rc.server.log (nc_buf_at rc i) 0

-- What the step posts, if it does, and the state.
unfoldable pub adjust_step : ℕ → Rc → Option Work × Rc
adjust_step i rc =
    let step = (server_at rc i).next_lr_step in
    let remote_commit = get_or rc.server.ctrl.vote_ack i 0 in
    if step == lr_get_write
    then (some read_nc_len, raise_commit remote_commit (take_commit i rc))
    else if step == lr_get_nce_len
    then (some read_nc_len, raise_commit remote_commit rc)
    else if step == lr_get_nce
    then (if length (nc_buf_at rc i) == 0
        then (none, skip_adjustment i rc)
        else (some (read_nc_entries (length (nc_buf_at rc i))), rc))
    else if step == lr_set_end
    then (
      some (write_end (remote_end_of i rc)),
      set_offsets i (record (offsets_at rc i) { end = remote_end_of i rc }) rc,
    )
    else (none, rc)

unfoldable pub send_step : Device → ℕ → Option Work × Rc → Run Rc
send_step dev i (none, rc) = done rc
send_step dev i (some work, rc) = post dev i log_qp work true (expect i rc)

-- Whether the number has been raised, and the state.
unfoldable pub adjust_server : Device → ℕ → Bool × Rc → Run (Bool × Rc)
adjust_server dev i (init, rc) =
    if can_send rc i && has_acked rc i
    then (do
      let starts = ltb (server_at rc i).next_lr_step lr_update_log
      let rc = (if starts then start_round init rc else rc)
      rc ← send_step dev i (adjust_step i rc)
      done (init || starts, rc))
    else done (init, rc)

-- The loop over the servers, which an error ends.
abbrev pub each {ℓ} : {S : Type ℓ} → ℕ → (ℕ → S → Run S) → S → Run S
each zero f s = done s
each (suc n) f s = each n f s >>= λ t. f n t

unfoldable pub log_adjustment : Device → Rc → Run Rc
log_adjustment dev rc = do
  (init, rc) ← each (get_extended_group_size rc.server.config.cid) (adjust_server dev) (false, rc)
  done rc
