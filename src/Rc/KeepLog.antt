-- ===== src/Rc/KeepLog.antt =====
-- src/dare/dare_ibv_rc.c: the sends leave the offsets of the log alone.
use apus.Base.{none, ℕ, Bool, true, false, List, [], ◌∷◌}
use apus.Server.Gives.{if-holds}
use apus.Rc.State.{
  Rc, QpId, Wc, Landed, reply_byte, nc_buf_words, vote_ack_word, apply_word, rsid_word,
  vote_sid_word, land, land_all, Poll, poll_error, polled, Posted, done, failed, Device, Work,
  set_polls, qp_at, set_qp,
}
use apus.Rc.Wrid.{wrid_get_conn}
use apus.Rc.Completion.{
  WcResult, wc_success, wc_failure, wc_error, wc_software_bug, handle_work_completion,
  handle_lr_work_completion, check_signaled, check_last_read, count_failure, count_completion,
  Sweep, complete, complete_all, drain, empty_completion_queue,
}
use apus.Rc.Send.{unblock, put_post, post_send, post}
use apus.Rc.Ends.{Ends, self, state_of, bind-Ends, if-Ends}

-- The offsets of a log and its length, with the flag that an entry has been committed.
pub record Offsets : Type 0 where
  pub head : ℕ
  pub apply : ℕ
  pub end : ℕ
  pub len : ℕ
  pub commit : ℕ
  pub tail : ℕ
  pub old_end : ℕ
  pub old_commit : ℕ
  pub committed : Bool

abbrev pub offsets_of : Rc → Offsets
offsets_of rc =
    let log = rc.server.log in
    record {
      head = log.head;
      apply = log.apply;
      end = log.end;
      len = log.len;
      commit = log.commit;
      tail = log.tail;
      old_end = log.old_end;
      old_commit = log.old_commit;
      committed = rc.committed;
    }

module _ (Q : Offsets → Type 0) where
  -- A property of the offsets.
  abbrev pub Keep : Rc → Type 0
  Keep rc = Q (offsets_of rc)

  land-Keep : (l : Landed) (rc : Rc) → Keep rc → Keep (land l rc)
  unfolding land
  land-Keep (reply_byte a) rc h = h
  land-Keep (nc_buf_words i ds) rc h = h
  land-Keep (vote_ack_word i v) rc h = h
  land-Keep (apply_word i v) rc h = h
  land-Keep (rsid_word i v) rc h = h
  land-Keep (vote_sid_word i v) rc h = h

  land_all-Keep : (ls : List Landed) (rc : Rc) → Keep rc → Keep (land_all ls rc)
  unfolding land_all
  land_all-Keep [] rc h = h
  land_all-Keep (l ∷ ls) rc h = land_all-Keep ls (land l rc) (land-Keep l rc h)

  count-Keep :
      (r : WcResult) (can_restart : Bool) (q : QpId) (wr_id conn : ℕ) (ps : Posted) (rc : Rc)
      → Keep rc
      → Keep (count_completion r can_restart q wr_id conn ps rc).1
  unfolding count_completion count_failure
  count-Keep wc_success c q w conn ps rc h = h
  count-Keep wc_failure c q w conn ps rc h = if-holds Keep _ _ _ h h
  count-Keep wc_error c q w conn ps rc h = h
  count-Keep wc_software_bug c q w conn ps rc h = h

  last_read-Keep :
      (q : QpId) (wr_id conn : ℕ) (rc : Rc) → Keep rc → Keep (check_last_read q wr_id conn rc)
  unfolding check_last_read
  last_read-Keep q wr_id conn rc h = if-holds Keep _ _ _ h h

  handle_lr-Keep :
      (wr_id : ℕ) (r : WcResult) (rc : Rc) → Keep rc → Keep (handle_lr_work_completion wr_id r rc)
  unfolding handle_lr_work_completion
  handle_lr-Keep wr_id r rc h = if-holds Keep _ _ _ h h

  complete-Keep :
      (i : ℕ) (q : QpId) (w : Wc) (waits : Bool) (ps : Posted) (rc : Rc)
      → Keep rc
      → Keep (complete i q w (waits, ps, rc)).2
  unfolding complete
  complete-Keep i q w waits ps rc h =
      let conn = wrid_get_conn w.wr_id in
      let t = check_last_read q w.wr_id conn rc in
      let c = check_signaled w.wr_id (qp_at t conn q) in
      let u = set_qp conn q c.2 t in
      let r = handle_work_completion w.status in
      count-Keep r c.0 q w.wr_id conn ps (handle_lr_work_completion w.wr_id r u)
        (handle_lr-Keep w.wr_id r u (last_read-Keep q w.wr_id conn rc h))

  complete_all-Keep :
      (i : ℕ) (q : QpId) (ws : List Wc) (t : Sweep) → Keep t.2 → Keep (complete_all i q ws t).2
  unfolding complete_all
  complete_all-Keep i q [] t h = h
  complete_all-Keep i q (w ∷ ws) (waits, ps, rc) h =
      complete_all-Keep i q ws (complete i q w (waits, ps, rc)) (complete-Keep i q w waits ps rc h)

  drain-Keep :
      (i : ℕ) (q : QpId) (polls : List Poll) (t : Sweep)
      → Keep t.2
      → Ends state_of Keep (drain i q polls t)
  unfolding drain
  drain-Keep i q [] (true, ps, rc) h = tt
  drain-Keep i q [] (false, ps, rc) h = h
  drain-Keep i q (poll_error ls ∷ polls) (waits, ps, rc) h =
      drain-Keep i q polls (waits, ps, land_all ls (set_polls polls rc))
        (land_all-Keep ls (set_polls polls rc) h)
  drain-Keep i q (polled ls [] ∷ polls) (true, ps, rc) h =
      drain-Keep i q polls (true, ps, land_all ls (set_polls polls rc))
        (land_all-Keep ls (set_polls polls rc) h)
  drain-Keep i q (polled ls [] ∷ polls) (false, ps, rc) h = land_all-Keep ls (set_polls polls rc) h
  drain-Keep i q (polled ls (w ∷ ws) ∷ polls) (waits, ps, rc) h =
      let t : Sweep = (waits, ps, land_all ls (set_polls polls rc)) in
      drain-Keep i q polls (complete_all i q (w ∷ ws) t)
        (complete_all-Keep i q (w ∷ ws) t (land_all-Keep ls (set_polls polls rc) h))

  pub empty-Keep :
      (i : ℕ) (q : QpId) (waits : Bool) (ps : Posted) (rc : Rc)
      → Keep rc
      → Ends state_of Keep (empty_completion_queue i q waits ps rc)
  unfolding empty_completion_queue
  empty-Keep i q waits ps rc h = drain-Keep i q rc.polls (waits, ps, rc) h

  unblock-Keep : (i : ℕ) (q : QpId) (rc : Rc) → Keep rc → Ends self Keep (unblock i q rc)
  unfolding unblock
  unblock-Keep i q rc h =
      if-Ends self Keep _ _ (done rc)
        (bind-Ends state_of self Keep _ _ (empty-Keep i q true none rc h) (λ r k. k)) h

  post_send-Keep :
      (dev : Device) (i : ℕ) (q : QpId) (work : Work) (signaled : Bool) (ps : Posted) (rc : Rc)
      → Keep rc
      → Ends state_of Keep (post_send dev i q work signaled ps rc)
  unfolding post_send put_post
  post_send-Keep dev i q work signaled ps rc h =
      bind-Ends self state_of Keep (unblock i q rc) _ (unblock-Keep i q rc h)
        (λ rc k. if-Ends state_of Keep _ _ (failed _) (empty-Keep i q _ ps _ k) k)

  pub post-Keep :
      (dev : Device) (i : ℕ) (q : QpId) (work : Work) (signaled : Bool) (rc : Rc)
      → Keep rc
      → Ends self Keep (post dev i q work signaled rc)
  unfolding post
  post-Keep dev i q work signaled rc h =
      bind-Ends state_of self Keep _ _ (post_send-Keep dev i q work signaled none rc h) (λ r k. k)
