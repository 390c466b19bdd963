-- ===== src/Rc/Forward.antt =====
-- src/dare/dare_ibv_rc.c: the commit offset only moves forward, and where the flag `committed` is set
-- it has moved.
use apus.Base.{
  ℕ, zero, suc, ◌-◌, ◌≤◌, ◌<◌, ◌≡◌, ◌⊎◌, inl, inr, refl, arith, Bool, true, false, not, ◌&&◌,
  Option, none, some, ◌==◌, length, add64, leb, if◌then◌else◌, sub64, Bool-cases, ltb→lt, subst,
}
use apus.Config.Cid.{get_extended_group_size}
use apus.Log.State.{Log}
use apus.Log.Offsets.{log_offset_end_distance, log_is_offset_larger, log_get_entry, log_fit_entry}
use apus.Log.Entry.{log_entry_len}
use apus.Server.Reconfig.{round_fuel}
use apus.Server.Gives.{if-holds}
use apus.Server.State.{LogOffsets, lr_get_write, lr_get_nce_len, lr_get_nce, lr_set_end}
use apus.Rc.State.{crash, server_at, Rc, Device, done, log_qp, Work}
use apus.Rc.Send.{post}
use apus.Rc.Adjust.{
  adjust_step, nc_buf_at, set_offsets, adjust_server, log_adjustment, raise_commit, take_commit,
  skip_adjustment, send_step, start_round, next_ssn, expect, each,
}
use apus.Rc.Replicate.{
  advance_commit, commit_replicated, set_commit, find_replicated, is_replicated, counted_size,
}
use apus.Rc.Ends.{Ends, self, state_of, bind-Ends, if-Ends, each-Ends}
use apus.Rc.KeepLog.{Offsets, offsets_of, post-Keep}

-- The distance of an offset from the end.
abbrev to_end : ℕ → ℕ → ℕ → ℕ
to_end end len offset =
    if end == len then 0 else if leb offset end then end - offset else sub64 len (offset - end)

distance_to_end :
    (log : Log) (offset : ℕ) → log_offset_end_distance log offset ≡ to_end log.end log.len offset
unfolding log_offset_end_distance
distance_to_end log offset = refl

-- Only the commit offset of the log has moved, and not back; where the flag is set, it has moved.
pub record IsForward (log : Log) (o : Offsets) : Type 0 where
  pub same_head : o.head ≡ log.head
  pub same_apply : o.apply ≡ log.apply
  pub same_end : o.end ≡ log.end
  pub same_len : o.len ≡ log.len
  pub same_tail : o.tail ≡ log.tail
  pub same_old_end : o.old_end ≡ log.old_end
  pub same_old_commit : o.old_commit ≡ log.old_commit
  pub not_back : to_end log.end log.len o.commit ≤ to_end log.end log.len log.commit
  pub moved :
      (o.committed ≡ false) ⊎ (to_end log.end log.len o.commit < to_end log.end log.len log.commit)

-- The search has no state of its own.
search-Ends :
    (P : Rc → Type 0) (rc : Rc) (fuel : ℕ) (log : Log) (idx size offset : ℕ)
    → P rc
    → Ends (λ c. rc) P (find_replicated fuel log idx size offset)
unfolding find_replicated
search-Ends P rc zero log idx size offset h = tt
search-Ends P rc (suc fuel) log idx size offset h =
    if-Ends (λ c. rc) P _ (done offset) _ h
      (met (log_get_entry log offset) (λ next. search-Ends P rc fuel log idx size next h))
  where
    met :
        (o : Option ℕ)
        → ((next : ℕ) → Ends (λ c. rc) P (find_replicated fuel log idx size next))
        → Ends
            (λ c. rc)
            P
            (elim o [
              | none ↦ crash
              | some entry ↦
                  let fits = log_fit_entry log entry entry in
                  let next = (if fits then add64 entry (log_entry_len log.mem entry) else 0) in
                  let rest = find_replicated fuel log idx size next in
                  if fits && not (is_replicated log.mem idx size entry) then done entry else rest
            ])
    met none k = tt
    met (some entry) k = if-Ends (λ c. rc) P _ (done entry) _ h (k _)

-- The states that a step of the adjustment leaves.
adjust_step-cases :
    (P : Option Work × Rc → Type 0) (i : ℕ) (rc : Rc)
    → ((w : Option Work) (c : ℕ) → P (w, raise_commit c (take_commit i rc)))
    → ((w : Option Work) (c : ℕ) → P (w, raise_commit c rc))
    → ((w : Option Work) → P (w, skip_adjustment i rc))
    → ((w : Option Work) (x : LogOffsets) → P (w, set_offsets i x rc))
    → ((w : Option Work) → P (w, rc))
    → P (adjust_step i rc)
unfolding adjust_step
adjust_step-cases P i rc f g h k m =
    let step = (server_at rc i).next_lr_step in
    if-holds P (step == lr_get_write) _ _ (f _ _) (
      if-holds P (step == lr_get_nce_len) _ _ (g _ _) (
        if-holds P (step == lr_get_nce) _ _
          (if-holds P (length (nc_buf_at rc i) == 0) _ _ (h _) (m _))
          (if-holds P (step == lr_set_end) _ _ (k _ _) (m _))))

module _ (log : Log) where
  abbrev pub Fwd : Rc → Type 0
  Fwd rc = IsForward log (offsets_of rc)

  -- An offset that is larger than the commit offset takes its place.
  larger :
      (rc : Rc) (c : ℕ)
      → log_is_offset_larger rc.server.log c rc.server.log.commit ≡ true
      → Fwd rc
      → to_end log.end log.len c < to_end log.end log.len log.commit
  unfolding log_is_offset_larger log_offset_end_distance
  larger rc c e h =
      let r = rc.server.log in
      let k = ltb→lt (to_end r.end r.len c) (to_end r.end r.len r.commit) e in
      let k = subst (λ x. to_end x r.len c < to_end x r.len r.commit) h.same_end k in
      let k = subst (λ x. to_end log.end x c < to_end log.end x r.commit) h.same_len k in
      omega (arith, k, h.not_back)

  raise-Fwd : (c : ℕ) (rc : Rc) → Fwd rc → Fwd (raise_commit c rc)
  unfolding raise_commit
  raise-Fwd c rc h = elim (Bool-cases (log_is_offset_larger rc.server.log c rc.server.log.commit)) [
    | inr e ↦ rw e h
    | inl e ↦ rw e (record {
      same_head = h.same_head;
      same_apply = h.same_apply;
      same_end = h.same_end;
      same_len = h.same_len;
      same_tail = h.same_tail;
      same_old_end = h.same_old_end;
      same_old_commit = h.same_old_commit;
      not_back = omega (arith, larger rc c e h);
      moved = inr (larger rc c e h);
    })
  ]

  set_commit-Fwd :
      (c : ℕ) (rc : Rc)
      → to_end log.end log.len c < to_end log.end log.len log.commit
      → Fwd rc
      → Fwd (set_commit c rc)
  unfolding set_commit
  set_commit-Fwd c rc k h = record {
    same_head = h.same_head;
    same_apply = h.same_apply;
    same_end = h.same_end;
    same_len = h.same_len;
    same_tail = h.same_tail;
    same_old_end = h.same_old_end;
    same_old_commit = h.same_old_commit;
    not_back = omega (arith, k);
    moved = inr k;
  }

  commit-Fwd : (c : ℕ) (rc : Rc) → Fwd rc → Fwd (commit_replicated c rc)
  unfolding commit_replicated
  commit-Fwd c rc h =
      elim (Bool-cases (log_is_offset_larger rc.server.log c rc.server.log.commit)) [
        | inr e ↦ rw e h
        | inl e ↦ rw e (set_commit-Fwd c rc (larger rc c e h) h)
      ]

  pub advance-Fwd : (rc : Rc) → Fwd rc → Ends self Fwd (advance_commit rc)
  unfolding advance_commit
  advance-Fwd rc h =
      let r = rc.server in
      bind-Ends (λ c. rc) self Fwd _ _
        (search-Ends Fwd rc (round_fuel r.log) r.log r.config.idx (counted_size r.config.cid)
          r.log.commit h)
        (λ c k. commit-Fwd c rc k)

  pub post-Fwd :
      (dev : Device) (i : ℕ) (work : Work) (signaled : Bool) (rc : Rc)
      → Fwd rc
      → Ends self Fwd (post dev i log_qp work signaled rc)
  post-Fwd dev i work signaled rc h = post-Keep (IsForward log) dev i log_qp work signaled rc h

  pub start_round-Fwd : (init : Bool) (rc : Rc) → Fwd rc → Fwd (start_round init rc)
  unfolding start_round next_ssn
  start_round-Fwd init rc h = if-holds Fwd init rc _ h h

  step-Fwd : (i : ℕ) (rc : Rc) → Fwd rc → Fwd (adjust_step i rc).1
  unfolding take_commit skip_adjustment
  step-Fwd i rc h =
      adjust_step-cases (λ r. Fwd r.1) i rc (λ w c. raise-Fwd c (take_commit i rc) h)
        (λ w c. raise-Fwd c rc h) (λ w. h) (λ w x. h) (λ w. h)

  send-Fwd :
      (dev : Device) (i : ℕ) (r : Option Work × Rc) → Fwd r.1 → Ends self Fwd (send_step dev i r)
  unfolding send_step expect
  send-Fwd dev i (none, rc) h = h
  send-Fwd dev i (some work, rc) h = post-Fwd dev i work true _ h

  adjust-Fwd :
      (dev : Device) (i : ℕ) (r : Bool × Rc) → Fwd r.1 → Ends state_of Fwd (adjust_server dev i r)
  unfolding adjust_server
  adjust-Fwd dev i (init, rc) h =
      if-Ends state_of Fwd _ _ (done (init, rc))
        (bind-Ends self state_of Fwd _ _
          (send-Fwd dev i _ (step-Fwd i _ (if-holds Fwd _ _ _ (start_round-Fwd init rc h) h)))
          (λ t k. k))
        h

  pub log_adjustment-Fwd : (dev : Device) (rc : Rc) → Fwd rc → Ends self Fwd (log_adjustment dev rc)
  unfolding log_adjustment
  log_adjustment-Fwd dev rc h =
      let n = get_extended_group_size rc.server.config.cid in
      bind-Ends state_of self Fwd (each n (adjust_server dev) (false, rc)) _
        (each-Ends state_of Fwd n (adjust_server dev) (false, rc) h (adjust-Fwd dev)) (λ t k. k)
