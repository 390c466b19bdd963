-- ===== src/Rc/LrStep.antt =====
-- src/dare/dare_ibv_rc.c: the replication to a server as steps, by the requests that are posted and
-- by their completions.
use apus.Base.{
  ℕ, zero, suc, ◌≤◌, ◌<◌, ◌≡◌, ◌≢◌, ◌⊎◌, inl, inr, refl, Bool, true, false, not, ◌||◌, ◌∙◌,
  if◌then◌else◌, arith,
}
use apus.Server.State.{ServerInfo, lr_update_log, lr_update_end}
use apus.Log.State.{Log}
use apus.Rc.Adjust.{expected}
use apus.Rc.Replicate.{update_started, send_count_of}
use apus.Rc.Completion.{WcResult, succeeds, lr_result, lr_success, lr_failure}

-- A server, the number of the requests that it waits for, and whether one of them has failed.
pub record Link : Type 0 where
  pub info : ServerInfo
  pub pending : ℕ
  pub lost : Bool

abbrev pub waiting : ℕ → ServerInfo → Link
waiting n x = record { info = x; pending = n; lost = false }

abbrev pub answered : WcResult → ℕ → Link → Link
answered r n l = record {
  info = lr_result r l.info;
  pending = n;
  lost = l.lost || not (succeeds r);
}

-- While no election starts the replication anew, no step is skipped, and every request is posted: the
-- posting of a step, or of the one or two parts of a log update, or a completion of one of them.
pub data LrStep : Link → Link → Type 0 where
  post_step :
      {l : Link} (wr_id : ℕ)
      → l.info.send_flag ≡ 1
      → l.info.next_lr_step ≢ lr_update_log
      → LrStep l (waiting 1 (expected wr_id l.info))
  post_log :
      {l : Link} (wr_id : ℕ) (log : Log) (remote_end : ℕ)
      → l.info.send_flag ≡ 1
      → l.info.next_lr_step ≡ lr_update_log
      → LrStep l (
          waiting
            (send_count_of log remote_end)
            (expected wr_id (update_started log remote_end l.info)))
  completed : {l : Link} (n : ℕ) (r : WcResult) → l.pending ≡ suc n → LrStep l (answered r n l)

pub data LrReach (l : Link) : Link → Type 0 where
  start : LrReach l l
  next : {m n : Link} → LrReach l m → LrStep m n → LrReach l n

-- The requests of a log update are counted, until the first of two is lost.
abbrev Counted : Link → Type 0
Counted l =
    ((l.lost ≡ false) × (l.info.send_count ≡ l.pending) × (l.pending ≤ 2))
    ⊎ ((l.lost ≡ true) × (l.info.send_count ≡ 0) × (l.pending ≡ 1))

-- Nothing is waited for and the next request can be posted, or the other way round.
pub data IsLink (l : Link) : Type 0 where
  idle : l.info.send_flag ≡ 1 → l.pending ≡ 0 → IsLink l
  busy_log :
      l.info.send_flag ≡ 0
      → 0 < l.pending
      → l.info.next_lr_step ≡ lr_update_log
      → Counted l
      → IsLink l
  busy :
      l.info.send_flag ≡ 0
      → l.pending ≡ 1
      → l.info.next_lr_step ≢ lr_update_log
      → l.lost ≡ false
      → IsLink l

parts-bounds :
    (log : Log) (remote_end : ℕ)
    → (0 < send_count_of log remote_end) × (send_count_of log remote_end ≤ 2)
unfolding send_count_of
parts-bounds log remote_end = (ground arith, ground arith)

-- A completion of anything but the first of two parts lets the next request be posted.
completed-last :
    (r : WcResult) (x : ServerInfo)
    → (x.next_lr_step ≢ lr_update_log) ⊎ (x.send_count ≤ 1)
    → (lr_result r x).send_flag ≡ 1
unfolding lr_success lr_failure
completed-last r x h = ground (arith, h)

-- The completion of the first of two parts leaves the other one to wait for.
completed-first :
    (r : WcResult) (x : ServerInfo)
    → x.next_lr_step ≡ lr_update_log
    → x.send_count ≡ 2
    → ((lr_result r x).send_flag ≡ x.send_flag)
      × ((lr_result r x).next_lr_step ≡ lr_update_log)
      × ((lr_result r x).send_count ≡ (if succeeds r then 1 else 0))
unfolding lr_success lr_failure
completed-first r x e h = (ground (arith, e, h), ground (arith, e, h), ground (arith, e, h))

-- One part is left: it is counted, unless the first one has failed.
one_left :
    (l : Link) (r : WcResult)
    → l.lost ≡ false
    → (lr_result r l.info).send_count ≡ (if succeeds r then 1 else 0)
    → Counted (answered r 1 l)
one_left l WcResult.wc_success lost h = inl (rw lost refl, h, omega arith)
one_left l WcResult.wc_failure lost h = inr (rw lost refl, h, refl)
one_left l WcResult.wc_error lost h = inr (rw lost refl, h, refl)
one_left l WcResult.wc_software_bug lost h = inr (rw lost refl, h, refl)

completed-IsLink :
    (l : Link) (n : ℕ) (r : WcResult) → l.pending ≡ suc n → IsLink l → IsLink (answered r n l)
completed-IsLink l n r e (idle f p) = absurd (omega (arith, e, p))
completed-IsLink l n r e (busy f p s lost) =
    idle (completed-last r l.info (inl s)) (omega (arith, e, p))
completed-IsLink l n r e (busy_log f p s (inr (lost, c, q))) =
    idle (completed-last r l.info (inr (omega (arith, c)))) (omega (arith, e, q))
completed-IsLink l zero r e (busy_log f p s (inl (lost, c, q))) =
    idle (completed-last r l.info (inr (omega (arith, c, e)))) refl
completed-IsLink l (suc zero) r e (busy_log f p s (inl (lost, c, q))) =
    let two = completed-first r l.info s (omega (arith, c, e)) in
    busy_log (two.0 ∙ f) (omega arith) two.1 (one_left l r lost two.2)
completed-IsLink l (suc (suc n)) r e (busy_log f p s (inl (lost, c, q))) =
    absurd (omega (arith, e, q))

LrStep-IsLink : {l m : Link} → LrStep l m → IsLink l → IsLink m
unfolding expected update_started
LrStep-IsLink {l} (post_step wr_id f n) h = busy refl refl n refl
LrStep-IsLink {l} (post_log wr_id log o f e) h =
    busy_log refl (parts-bounds log o).0 e (inl (refl, refl, (parts-bounds log o).1))
LrStep-IsLink {l} (completed n r e) h = completed-IsLink l n r e h

LrReach-IsLink : {l m : Link} → IsLink l → LrReach l m → IsLink m
LrReach-IsLink h start = h
LrReach-IsLink h (next r s) = LrStep-IsLink s (LrReach-IsLink h r)

completed-end :
    (r : WcResult) (x : ServerInfo)
    → x.next_lr_step ≡ lr_update_log
    → (lr_result r x).next_lr_step ≡ lr_update_end
    → (x.send_count ≡ 1) × (succeeds r ≡ true)
unfolding lr_success lr_failure
completed-end r x e h = (ground (arith, e, h), ground (arith, e, h))

whole_update :
    {m n : Link}
    → IsLink m
    → LrStep m n
    → m.info.next_lr_step ≡ lr_update_log
    → n.info.next_lr_step ≡ lr_update_end
    → (n.pending ≡ 0) × (n.lost ≡ false)
unfolding expected update_started
whole_update h (post_step wr_id f n) e g = absurd (n e)
whole_update h (post_log wr_id log o f e') e g = absurd (omega (arith, e, g))
whole_update (idle f p) (completed n r q) e g = absurd (omega (arith, p, q))
whole_update (busy f p s lost) (completed n r q) e g = absurd (s e)
whole_update {m} (busy_log f p s (inr (lost, c, p'))) (completed n r q) e g =
    absurd (omega (arith, c, (completed-end r m.info e g).0))
whole_update {m} (busy_log f p s (inl (lost, c, p'))) (completed n r q) e g =
    let last = completed-end r m.info e g in (omega (arith, c, q, last.0), rw (lost, last.1) refl)

-- From a state in which nothing is waited for, as long as every request is posted and the replication
-- to the server is not started anew: whenever the step that writes the log is followed by
-- the step that writes the end offset, all parts of the log have been written, and none has failed.
pub update_end-whole :
    {l m n : Link}
    → l.info.send_flag ≡ 1
    → l.pending ≡ 0
    → LrReach l m
    → LrStep m n
    → m.info.next_lr_step ≡ lr_update_log
    → n.info.next_lr_step ≡ lr_update_end
    → (n.pending ≡ 0) × (n.lost ≡ false)
update_end-whole f p r s e g = whole_update (LrReach-IsLink (idle f p) r) s e g
