-- ===== src/Rc/WriteForward.antt =====
-- src/dare/dare_ibv_rc.c: rc_write_remote_logs moves the commit offset forward only, in all its
-- rounds.
use apus.Base.{ℕ, zero, suc, inl, refl, arith, Bool, true, false, not, ◌&&◌, none, ◌==◌}
use apus.Config.Cid.{get_extended_group_size}
use apus.Log.State.{Log}
use apus.Log.Offsets.{log_offset_end_distance}
use apus.Server.State.{lr_update_log, lr_update_end}
use apus.Rc.State.{server_at, Rc, Device, done, log_qp}
use apus.Rc.Adjust.{can_send, offsets_at, start_round, expect, each}
use apus.Rc.Replicate.{
  update_server, update_log, update_end, start_update, post_rest, counted_size, update_commit,
  update_remote_logs,
}
use apus.Rc.WriteLogs.{
  find_completions, replicate_round, replicate_rounds, rc_write_remote_logs, max_rounds,
}
use apus.Rc.Ends.{Ends, self, state_of, bind-Ends, ignore-Ends, if-Ends, each-Ends}
use apus.Rc.KeepLog.{offsets_of, empty-Keep}
use apus.Rc.Forward.{IsForward, Fwd, advance-Fwd, start_round-Fwd, post-Fwd, log_adjustment-Fwd}

module _ (log : Log) where
  rest-Fwd :
      (dev : Device) (i : ℕ) (part : ℕ × ℕ) (rc : Rc)
      → (Fwd log) rc
      → Ends self (Fwd log) (post_rest dev i part rc)
  unfolding post_rest
  rest-Fwd dev i (offset, n) rc h =
      if-Ends self (Fwd log) _ _ (done rc) (post-Fwd log dev i _ true _ h) h

  update_log-Fwd :
      (dev : Device) (i : ℕ) (rc : Rc) → (Fwd log) rc → Ends self (Fwd log) (update_log dev i rc)
  unfolding update_log start_update expect
  update_log-Fwd dev i rc h =
      bind-Ends self self (Fwd log) _ _ (ignore-Ends (Fwd log) _ (post-Fwd log dev i _ true _ h))
        (λ t k. rest-Fwd dev i _ t k)

  update_end-Fwd :
      (dev : Device) (i : ℕ) (rc : Rc) → (Fwd log) rc → Ends self (Fwd log) (update_end dev i rc)
  unfolding update_end expect
  update_end-Fwd dev i rc h = ignore-Ends (Fwd log) _ (post-Fwd log dev i _ true _ h)

  update-Fwd :
      (dev : Device) (i : ℕ) (r : Bool × Rc)
      → (Fwd log) r.1
      → Ends state_of (Fwd log) (update_server dev i r)
  unfolding update_server
  update-Fwd dev i (init, rc) h =
      let skip = done (init, rc) in
      let started = start_round-Fwd log init rc h in
      let step = (server_at rc i).next_lr_step in
      let left = log_offset_end_distance rc.server.log (offsets_at rc i).end in
      if-Ends state_of (Fwd log) (not (can_send rc i)) skip _ h (
        if-Ends state_of (Fwd log) (step == lr_update_log) _ _
          (if-Ends state_of (Fwd log) (left == 0) skip _ h (
            bind-Ends self state_of (Fwd log) (update_log dev i (start_round init rc)) _
              (update_log-Fwd dev i _ started) (λ t k. k)))
          (if-Ends state_of (Fwd log) (step == lr_update_end) _ skip
            (bind-Ends self state_of (Fwd log) (update_end dev i (start_round init rc)) _
              (update_end-Fwd dev i _ started) (λ t k. k))
            h))

  update_commit-Fwd :
      (dev : Device) (i : ℕ) (r : Bool × Rc)
      → (Fwd log) r.1
      → Ends state_of (Fwd log) (update_commit dev i r)
  unfolding update_commit
  update_commit-Fwd dev i (init, rc) h =
      if-Ends state_of (Fwd log) _ _ (done (init, rc))
        (bind-Ends self state_of (Fwd log) _ _
          (ignore-Ends (Fwd log) _ (post-Fwd log dev i _ false _ (start_round-Fwd log init _ h)))
          (λ t k. k))
        h

  update_remote_logs-Fwd :
      (dev : Device) (rc : Rc) → (Fwd log) rc → Ends self (Fwd log) (update_remote_logs dev rc)
  unfolding update_remote_logs
  update_remote_logs-Fwd dev rc h =
      let n = get_extended_group_size rc.server.config.cid in
      bind-Ends state_of self (Fwd log) (each n (update_server dev) (false, rc)) _
        (each-Ends state_of (Fwd log) n (update_server dev) (false, rc) h (update-Fwd dev))
        (λ r k. bind-Ends self self (Fwd log) _ _ (advance-Fwd log r.1 k) (λ t l.
          let m = counted_size r.1.server.config.cid in
          bind-Ends state_of self (Fwd log) (each m (update_commit dev) (false, t)) _
            (each-Ends state_of (Fwd log) m (update_commit dev) (false, t) l
              (update_commit-Fwd dev))
            (λ u m. m)))

  round-Fwd :
      (dev : Device) (wait : Bool) (rc : Rc)
      → (Fwd log) rc
      → Ends self (Fwd log) (replicate_round dev wait rc)
  unfolding replicate_round find_completions
  round-Fwd dev wait rc h =
      bind-Ends self self (Fwd log) _ _
        (if-Ends self (Fwd log) wait _ (done rc)
          (bind-Ends state_of self (Fwd log) _ _
            (empty-Keep (IsForward log) 0 log_qp false none rc h) (λ r k. k))
          h)
        (λ t k.
          bind-Ends self self (Fwd log) _ _
            (ignore-Ends (Fwd log) _ (log_adjustment-Fwd log dev t k))
            (λ u l. ignore-Ends (Fwd log) _ (update_remote_logs-Fwd dev u l)))

  rounds-Fwd :
      (n : ℕ) (dev : Device) (wait : Bool) (rc : Rc)
      → (Fwd log) rc
      → Ends self (Fwd log) (replicate_rounds n dev wait rc)
  unfolding replicate_rounds
  rounds-Fwd zero dev wait rc h = h
  rounds-Fwd (suc n) dev wait rc h =
      bind-Ends self self (Fwd log) _ _ (round-Fwd dev wait rc h)
        (λ t k. next (wait && not t.committed) t k (rounds-Fwd n dev wait t k))
    where
      next :
          (b : Bool) (t : Rc)
          → (Fwd log) t
          → Ends self (Fwd log) (replicate_rounds n dev wait t)
          → Ends self (Fwd log) (elim b [ true ↦ replicate_rounds n dev wait t | false ↦ done t ])
      next true t k l = l
      next false t k l = k

-- rc_write_remote_logs, called to wait for a commit, leaves the log as it was but for its commit
-- offset, its bytes and its buffers of determinants. The commit offset is not further from the end than before, and where the flag says that an entry has been
-- committed it is closer to the end.
pub rc_write_remote_logs-IsForward :
    (dev : Device) (rc : Rc)
    → Ends self (λ t. IsForward rc.server.log (offsets_of t)) (rc_write_remote_logs dev true rc)
unfolding rc_write_remote_logs
rc_write_remote_logs-IsForward dev rc =
    rounds-Fwd rc.server.log max_rounds dev true (record rc { committed = false })
      (record {
        same_head = refl;
        same_apply = refl;
        same_end = refl;
        same_len = refl;
        same_tail = refl;
        same_old_end = refl;
        same_old_commit = refl;
        not_back = omega arith;
        moved = inl refl;
      })
