-- ===== src/Rc/Completion.antt =====
-- src/dare/dare_ibv_rc.c: handle_work_completion, handle_lr_work_completion and
-- empty_completion_queue.
use apus.Base.{
  ℕ, ◌+◌, ◌%◌, Bool, true, false, not, ◌&&◌, none, some, List, [], ◌∷◌, ◌==◌, leb, if◌then◌else◌,
  set, get_or, ℤ, pos, negsuc, decrement,
}
use apus.Server.State.{ServerInfo, lr_update_log, lr_update_end}
use apus.Rc.Wrid.{wrid_get_conn, wrid_get_ssn, wrid_unset_tag, wrid_unset_wa}
use apus.Rc.State.{
  Rc, Qp, QpId, is_log_qp, ctrl_qp, rc_qp_blocked, rc_qp_error, Wc, WcStatus, Posted, Poll,
  poll_error, polled, qp_at, set_qp, server_at, set_server, set_polls, land_all, Run, done, failed,
  endless,
}
use apus.Rc.State

pub data WcResult : Type 0 where
  wc_success : WcResult
  wc_failure : WcResult
  wc_error : WcResult
  wc_software_bug : WcResult

unfoldable pub handle_work_completion : WcStatus → WcResult
handle_work_completion State.success = wc_success
handle_work_completion State.loc_len_err = wc_software_bug
handle_work_completion State.loc_qp_op_err = wc_software_bug
handle_work_completion State.loc_eec_op_err = wc_software_bug
handle_work_completion State.loc_prot_err = wc_software_bug
handle_work_completion State.mw_bind_err = wc_software_bug
handle_work_completion State.loc_access_err = wc_software_bug
handle_work_completion State.rem_access_err = wc_software_bug
handle_work_completion State.rnr_retry_exc_err = wc_software_bug
handle_work_completion State.loc_rdd_viol_err = wc_software_bug
handle_work_completion State.rem_inv_rd_req_err = wc_software_bug
handle_work_completion State.rem_abort_err = wc_software_bug
handle_work_completion State.inv_eecn_err = wc_software_bug
handle_work_completion State.inv_eec_state_err = wc_software_bug
handle_work_completion State.wr_flush_err = wc_failure
handle_work_completion State.bad_resp_err = wc_error
handle_work_completion State.rem_inv_req_err = wc_error
handle_work_completion State.rem_op_err = wc_error
handle_work_completion State.retry_exc_err = wc_failure
handle_work_completion State.fatal_err = wc_error
handle_work_completion State.resp_timeout_err = wc_error
handle_work_completion State.general_err = wc_error

abbrev pub succeeds : WcResult → Bool
succeeds wc_success = true
succeeds _ = false

-- The step of the replication to a server, once the request that it waits for has succeeded.
unfoldable pub lr_success : ServerInfo → ServerInfo
lr_success x =
    if x.next_lr_step == lr_update_log
    then (if x.send_count == 0
        then record x { send_flag = 1 }
        else if x.send_count == 1
        then record x { next_lr_step = lr_update_end; send_flag = 1 }
        else if x.send_count == 2
        then record x { send_count = 1 }
        else x)
    else if not (x.next_lr_step == lr_update_end)
    then record x { next_lr_step = (x.next_lr_step + 1) % 256; send_flag = 1 }
    else record x { next_lr_step = lr_update_log; send_flag = 1 }

-- ... or has failed.
unfoldable pub lr_failure : ServerInfo → ServerInfo
lr_failure x =
    if x.next_lr_step == lr_update_log
    then (if x.send_count == 0
        then record x { send_flag = 1 }
        else if x.send_count == 1
        then record x { send_flag = 1 }
        else if x.send_count == 2
        then record x { send_count = 0 }
        else x)
    else record x { send_flag = 1 }

abbrev pub lr_result : WcResult → ServerInfo → ServerInfo
lr_result r x = if succeeds r then lr_success x else lr_failure x

unfoldable pub handle_lr_work_completion : ℕ → WcResult → Rc → Rc
handle_lr_work_completion wr_id r rc =
    let wr_id = wrid_unset_wa (wrid_unset_tag wr_id) in
    let idx = wrid_get_conn wr_id in
    if wr_id == (server_at rc idx).next_wr_id
    then set_server idx (lr_result r (server_at rc idx)) rc
    else rc

-- Whether the queue pair can be restarted, whether the completion is the marked one, and the queue
-- pair.
unfoldable pub check_signaled : ℕ → Qp → Bool × Bool × Qp
check_signaled wr_id qp =
    if qp.signaled_wr_id == 0
    then (true, false, qp)
    else if wr_id == qp.signaled_wr_id
    then (
      true,
      true,
      record {
        signaled_wr_id = wrid_unset_tag qp.signaled_wr_id;
        send_count = qp.send_count;
        state = (if qp.state == rc_qp_blocked then rc_qp_error else qp.state);
      },
    )
    else (false, false, qp)

unfoldable pub fail_qp : Bool → Qp → Qp
fail_qp can_restart qp =
    if can_restart
    then record qp { state = rc_qp_error }
    else if qp.state == rc_qp_error
    then qp
    else record qp { state = rc_qp_blocked }

-- A completion with the sequence number of the last request, or a later one, ends the wait for the
-- read.
unfoldable pub check_last_read : QpId → ℕ → ℕ → Rc → Rc
check_last_read q wr_id conn rc =
    let x = server_at rc conn in
    if is_log_qp q && leb x.last_get_read_ssn (wrid_get_ssn wr_id)
    then set_server conn (record x { last_get_read_ssn = 0 }) rc
    else rc

unfoldable pub mark : (ℤ → ℤ) → ℕ → ℕ → Posted → Rc → Posted
mark f wr_id conn none rc = none
mark f wr_id conn (some xs) rc =
    some (if wrid_get_ssn wr_id == rc.ssn then set xs conn (f (get_or xs conn (pos 0))) else xs)

unfoldable pub count_failure : QpId → ℕ → Rc → Rc
count_failure q conn rc =
    if is_log_qp q
    then rc
    else (let x = server_at rc conn in
        set_server conn (record x { fail_count = (x.fail_count + 1) % 256 }) rc)

-- The array of posted sends, and the state.
unfoldable pub count_completion : WcResult → Bool → QpId → ℕ → ℕ → Posted → Rc → Posted × Rc
count_completion wc_success can_restart q wr_id conn ps rc = (
  mark decrement wr_id conn ps rc,
  set_server conn (record (server_at rc conn) { fail_count = 0 }) rc,
)
count_completion wc_failure can_restart q wr_id conn ps rc =
    let rc = set_qp conn q (fail_qp can_restart (qp_at rc conn q)) rc in
    (mark (λ x. negsuc 0) wr_id conn ps rc, count_failure q conn rc)
count_completion wc_error can_restart q wr_id conn ps rc = (ps, rc)
count_completion wc_software_bug can_restart q wr_id conn ps rc = (ps, rc)

-- Whether the marked request is still waited for, the array of posted sends, and the state.
abbrev pub Sweep : Type 0
Sweep = Bool × Posted × Rc

unfoldable pub complete : ℕ → QpId → Wc → Sweep → Sweep
complete server_id q wc (waits, ps, rc) =
    let conn = wrid_get_conn wc.wr_id in
    let rc = check_last_read q wc.wr_id conn rc in
    let (can_restart, marked, qp) = check_signaled wc.wr_id (qp_at rc conn q) in
    let rc = set_qp conn q qp rc in
    let r = handle_work_completion wc.status in
    let rc = handle_lr_work_completion wc.wr_id r rc in
    let (ps, rc) = count_completion r can_restart q wc.wr_id conn ps rc in
    (waits && not (marked && conn == server_id), ps, rc)

unfoldable pub complete_all : ℕ → QpId → List Wc → Sweep → Sweep
complete_all server_id q [] t = t
complete_all server_id q (w ∷ ws) t = complete_all server_id q ws (complete server_id q w t)

-- Once the list of answers ends the queue stays empty. An error of ibv_poll_cq brings no completion,
-- and is not looked at.
unfoldable pub drain : ℕ → QpId → List Poll → Sweep → Run (Posted × Rc)
drain server_id q [] (true, ps, rc) = endless
drain server_id q [] (false, ps, rc) = done (ps, set_polls [] rc)
drain server_id q (poll_error ls ∷ polls) (waits, ps, rc) =
    drain server_id q polls (waits, ps, land_all ls (set_polls polls rc))
drain server_id q (polled ls [] ∷ polls) (true, ps, rc) =
    drain server_id q polls (true, ps, land_all ls (set_polls polls rc))
drain server_id q (polled ls [] ∷ polls) (false, ps, rc) =
    done (ps, land_all ls (set_polls polls rc))
drain server_id q (polled ls (w ∷ ws) ∷ polls) (waits, ps, rc) =
    drain server_id q polls
      (complete_all server_id q (w ∷ ws) (waits, ps, land_all ls (set_polls polls rc)))

unfoldable pub empty_completion_queue : ℕ → QpId → Bool → Posted → Rc → Run (Posted × Rc)
empty_completion_queue server_id q waits ps rc = drain server_id q rc.polls (waits, ps, rc)
