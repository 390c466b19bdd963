-- ===== src/Rc/WriteLogs.antt =====
-- src/dare/dare_ibv_rc.c: rc_write_remote_logs, rc_send_entries_reply and
-- rc_get_remote_apply_offsets.
use apus.Base.{ℕ, zero, suc, ◌+◌, Bool, true, false, not, ◌&&◌, none, ◌==◌, if◌then◌else◌, set}
use apus.Config.Cid.{get_extended_group_size}
use apus.Log.Mem.{poke}
use apus.Rc.State.{
  Rc, Device, log_qp, write_reply, read_apply, ep_at, server_at, set_server, set_log, Run, done,
  ◌>>=◌, ignore_error,
}
use apus.Rc.Completion.{empty_completion_queue}
use apus.Rc.Send.{post}
use apus.Rc.Adjust.{is_other, is_reachable, has_acked, start_round, next_ssn, each, log_adjustment}
use apus.Rc.Replicate.{update_remote_logs}

unfoldable pub find_completions : Bool → Rc → Run Rc
find_completions wait_for_commit rc =
    if wait_for_commit
    then (do (none_posted, rc) ← empty_completion_queue 0 log_qp false none rc; done rc)
    else done rc

-- Without DEBUG no result is looked at.
unfoldable pub replicate_round : Device → Bool → Rc → Run Rc
replicate_round dev wait_for_commit rc = do
  rc ← find_completions wait_for_commit rc
  rc ← ignore_error (log_adjustment dev rc)
  ignore_error (update_remote_logs dev rc)

-- The rounds that are left.
unfoldable pub replicate_rounds : ℕ → Device → Bool → Rc → Run Rc
replicate_rounds zero dev wait_for_commit rc = done rc
replicate_rounds (suc n) dev wait_for_commit rc = do
  rc ← replicate_round dev wait_for_commit rc
  elim (wait_for_commit && not rc.committed) [
    | true ↦ replicate_rounds n dev wait_for_commit rc
    | false ↦ done rc
  ]

abbrev pub max_rounds : ℕ
max_rounds = 1000

unfoldable pub rc_write_remote_logs : Device → Bool → Rc → Run Rc
rc_write_remote_logs dev wait_for_commit rc =
    let rc = (if wait_for_commit then record rc { committed = false } else rc) in
    replicate_rounds max_rounds dev wait_for_commit rc

-- The reply byte of this server in the last entry that it has received.
unfoldable pub reply_address : Rc → ℕ
reply_address rc = rc.server.log.old_end + 28 + rc.server.config.idx

unfoldable pub rc_send_entries_reply : Device → ℕ → Rc → Run Rc
rc_send_entries_reply dev idx rc =
    let log = rc.server.log in
    let a = reply_address rc in
    let rc = next_ssn (set_log (record log { mem = poke log.mem a 1 }) rc) in
    if (ep_at rc idx).rc_connected then post dev idx log_qp (write_reply a) false rc else done rc

unfoldable pub get_apply_offset : Device → ℕ → Bool × Rc → Run (Bool × Rc)
get_apply_offset dev i (init, rc) =
    if not (is_other rc i)
    then (let s = rc.server in
        done (
          init,
          record rc {
            server = record s {
              ctrl = record s.ctrl { apply_offsets = set s.ctrl.apply_offsets i s.log.apply };
            };
          },
        ))
    else if is_reachable rc i && has_acked rc i && (server_at rc i).last_get_read_ssn == 0
    then (do
      let rc = start_round init rc
      let rc = set_server i (record (server_at rc i) { last_get_read_ssn = rc.ssn }) rc
      rc ← post dev i log_qp read_apply false rc
      done (true, rc))
    else done (init, rc)

unfoldable pub rc_get_remote_apply_offsets : Device → Rc → Run Rc
rc_get_remote_apply_offsets dev rc = do
  (init, rc) ←
      each (get_extended_group_size rc.server.config.cid) (get_apply_offset dev) (false, rc)
  done rc
