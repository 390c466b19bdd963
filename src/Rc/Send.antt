-- ===== src/Rc/Send.antt =====
-- src/dare/dare_ibv_rc.c: post_send.
use apus.Base.{
  ℕ, ◌*◌, ◌/◌, Bool, true, false, not, ◌&&◌, ◌||◌, none, [], ◌∷◌, ◌++◌, ◌==◌, add32, if◌then◌else◌,
}
use apus.Rc.Wrid.{new_wrid, wrid_get_tag}
use apus.Rc.State.{
  Rc, Qp, QpId, rc_qp_active, rc_qp_blocked, rc_qp_error, Device, Post, Posted, Work, qp_at, set_qp,
  Run, done, failed, ◌>>=◌,
}
use apus.Rc.Completion.{empty_completion_queue}

-- A blocked queue pair waits for its marked request; the array of posted sends is not passed on.
unfoldable pub unblock : ℕ → QpId → Rc → Run Rc
unblock i q rc =
    if (qp_at rc i q).state == rc_qp_blocked
    then (do (none_posted, rc) ← empty_completion_queue i q true none rc; done rc)
    else done rc

-- A queue pair in the error state is restarted.
unfoldable pub restart : Qp → Qp
restart qp =
    if qp.state == rc_qp_error then record qp { state = rc_qp_active; send_count = 0 } else qp

-- A request that was marked, and whose completion was found, is forgotten.
unfoldable pub forget_signaled : Qp → Qp
forget_signaled qp =
    if not (qp.signaled_wr_id == 0) && not (wrid_get_tag qp.signaled_wr_id)
    then record qp { signaled_wr_id = 0 }
    else qp

-- Whether a quarter of the send queue is full, with no request marked.
unfoldable pub must_mark : Device → Qp → Bool
must_mark dev qp = qp.send_count == dev.rc_max_send_wr / 4 && qp.signaled_wr_id == 0

unfoldable pub must_wait : Device → Qp → Bool
must_wait dev qp = qp.send_count == 3 * dev.rc_max_send_wr / 4 && not (qp.signaled_wr_id == 0)

unfoldable pub next_qp : Device → ℕ → Qp → Qp
next_qp dev marked_wr_id qp =
    if must_mark dev qp then record qp { signaled_wr_id = marked_wr_id; send_count = 0 } else qp

unfoldable pub counted_qp : Qp → Qp
counted_qp qp =
    let qp = restart qp in forget_signaled (record qp { send_count = add32 qp.send_count 1 })

-- The work request, marked or not, once the queue pair has counted it.
unfoldable pub new_post : ℕ → QpId → Work → Bool → Bool → Rc → Post
new_post i q work signaled marks rc = record {
  server_id = i;
  qp_id = q;
  wr_id = new_wrid rc.ssn i rc.wa_flag marks;
  signaled = signaled || marks;
  work = work;
}

unfoldable pub put_post : Device → Post → Qp → Rc → Rc
put_post dev p qp rc =
    let rc = set_qp p.server_id p.qp_id (next_qp dev p.wr_id qp) rc in
    record rc { wa_flag = false; posts = rc.posts ++ (p ∷ []) }

unfoldable pub post_send : Device → ℕ → QpId → Work → Bool → Posted → Rc → Run (Posted × Rc)
post_send dev i q work signaled ps rc = do
  rc ← unblock i q rc
  let qp = counted_qp (qp_at rc i q)
  let marks = must_mark dev qp
  let p = new_post i q work signaled marks rc
  let result = dev.post_rc rc.posts p
  let rc = put_post dev p qp rc
  if result == 0
      then empty_completion_queue i q (not marks && must_wait dev qp) ps rc
      else failed rc

-- post_send(…, NULL)
unfoldable pub post : Device → ℕ → QpId → Work → Bool → Rc → Run Rc
post dev i q work signaled rc = do
  (none_posted, rc) ← post_send dev i q work signaled none rc
  done rc
