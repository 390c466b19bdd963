-- ===== src/Rc/WaitMajority.antt =====
-- src/dare/dare_ibv_rc.c: what a success of wait_for_majority means.
use apus.Base.{
  ℕ, ◌+◌, ◌*◌, ◌/◌, ◌≤◌, ◌<◌, ◌≡◌, refl, subst, arith, Bool, true, false, ◌&&◌, List, [], ◌∷◌,
  if◌then◌else◌, ◌==◌, ltb→lt, ℤ,
}
use native.Mathlib.Nat.{mod-le}
use apus.Server.Gives.{if-holds, if-cases}
use apus.Config.Cid.{Cid, cid_stable}
use apus.Rc.Wrid.{wrid_get_conn}
use apus.Rc.State.{Rc, QpId, Wc, WcStatus, Poll, poll_error, polled, done, ◌>>=◌, qp_at, set_qp}
use apus.Rc.Completion.{
  check_signaled, check_last_read, handle_work_completion, WcResult, wc_success, wc_failure,
  wc_error, wc_software_bug,
}
use apus.Rc.Ends.{Returns, bind-Returns}
use apus.Rc.Wait.{
  Wait, posted_at, count_send, take_result, end_send, wait_complete, wait_complete_all, take_poll,
  wait_loop, smaller_ssn, wait_pass, new_wait, Waited, has_majority, wait_for_majority, set_rc,
}
use apus.Rc.Finished.{
  is_negative, count_finished, Lets, less_one, less_one_keeps, decrement-IsNegative,
  count_finished_mono, count_finished_more, count_zeros-finished,
}

and-true : (a b : Bool) → (a && b) ≡ true → (a ≡ true) × (b ≡ true)
and-true true b h = (refl, h)
and-true false b h = absurd (ground (arith, h))

module _ (ps : List ℤ) where
  -- Where nothing was posted nothing is, now.
  abbrev IsUnposted : List ℤ → Type 0
  IsUnposted qs = (i : ℕ) → Lets (is_negative (posted_at ps i)) (is_negative (posted_at qs i))

  less_one-IsUnposted : (qs : List ℤ) (c : ℕ) → IsUnposted qs → IsUnposted (less_one qs c)
  less_one-IsUnposted qs c h i n = less_one_keeps is_negative decrement-IsNegative qs c i (h i n)

  module _ (size : ℕ) where
    -- The successes are no more than the servers that are finished.
    abbrev Counts : Wait → Type 0
    Counts w = (w.success_count ≤ count_finished ps w.posted_sends size) × IsUnposted w.posted_sends

    count_send-Counts : (c : ℕ) (w : Wait) → Counts w → Counts (count_send size c w)
    unfolding count_send
    count_send-Counts c w (l, h) =
        let n = w.success_count in
        let more = count_finished_mono ps w.posted_sends c size in
        (
          if-cases (λ k. k ≤ count_finished ps (less_one w.posted_sends c) size) _ _ _
              (λ e.
                let (z, b) = and-true _ _ e in
                let next = count_finished_more ps w.posted_sends c size z (h c) (ltb→lt c size b) in
                omega (arith, l, next, mod-le (n + 1) 256))
              (λ e. omega (arith, l, more)),
          less_one-IsUnposted w.posted_sends c h,
        )

    take_result-Counts :
        (r : WcResult) (can_restart : Bool) (q : QpId) (wr_id : ℕ) (w : Wait)
        → Counts w
        → Counts (take_result (count_send size) smaller_ssn r can_restart q wr_id w)
    unfolding take_result
    take_result-Counts wc_success c q wr_id w h =
        if-holds Counts _ _ _ h (count_send-Counts (wrid_get_conn wr_id) _ h)
    take_result-Counts wc_failure c q wr_id w h = h
    take_result-Counts wc_error c q wr_id w h = h
    take_result-Counts wc_software_bug c q wr_id w h = h

    end_send-Counts : (wr_id : ℕ) (w : Wait) → Counts w → Counts (end_send wr_id w)
    unfolding end_send
    end_send-Counts wr_id w h = if-holds Counts _ _ _ h h

    complete-Counts :
        (q : QpId) (first : WcStatus) (wc : Wc) (w : Wait)
        → Counts w
        → Counts (wait_complete (count_send size) smaller_ssn q first wc w)
    unfolding wait_complete
    complete-Counts q first wc w h =
        let conn = wrid_get_conn wc.wr_id in
        let rc = check_last_read q wc.wr_id conn w.rc in
        let c = check_signaled wc.wr_id (qp_at rc conn q) in
        let k = end_send-Counts wc.wr_id (set_rc (set_qp conn q c.2 rc) w) h in
        let r = handle_work_completion first in
        if-holds Counts _ _ _ (take_result-Counts r c.0 q wc.wr_id _ k) k

    complete_all-Counts :
        (q : QpId) (first : WcStatus) (wcs : List Wc) (w : Wait)
        → Counts w
        → Counts (wait_complete_all (count_send size) smaller_ssn q first wcs w)
    unfolding wait_complete_all
    complete_all-Counts q first [] w h = h
    complete_all-Counts q first (wc ∷ wcs) w h =
        complete_all-Counts q first wcs (wait_complete (count_send size) smaller_ssn q first wc w)
          (complete-Counts q first wc w h)

    take_poll-Counts :
        (q : QpId) (wcs : List Wc) (w : Wait)
        → Counts w
        → Counts (take_poll (count_send size) smaller_ssn q wcs w)
    unfolding take_poll
    take_poll-Counts q [] w h = h
    take_poll-Counts q (wc ∷ wcs) w h = complete_all-Counts q wc.status (wc ∷ wcs) w h

    loop-Counts :
        (enough : ℕ) (q : QpId) (polls : List Poll) (goes : Bool) (w : Wait)
        → Counts w
        → Returns Counts (wait_loop enough (count_send size) smaller_ssn q polls goes w)
    unfolding wait_loop
    loop-Counts n q polls false w h = h
    loop-Counts n q [] true w h = tt
    loop-Counts n q (poll_error ls ∷ polls) true w h = tt
    loop-Counts n q (polled ls wcs ∷ polls) true w h =
        loop-Counts n q polls _ _ (take_poll-Counts q wcs _ h)

    pass-Counts :
        (q : QpId) (w : Wait) → IsUnposted w.posted_sends → Returns Counts (wait_pass size q w)
    unfolding wait_pass
    pass-Counts q w h =
        loop-Counts (size / 2) q w.rc.polls _ _ (count_zeros-finished ps w.posted_sends h size, h)

  -- If there is a majority it is one of finished servers.
  abbrev IsTrue : ℕ → Waited → Type 0
  IsTrue size w = w.0 ≡ true → size < 2 * count_finished ps w.1 size

  majority-IsTrue : (size : ℕ) (w : Wait) → Counts size w → IsTrue size (has_majority size w)
  unfolding has_majority
  majority-IsTrue size w h e = omega (arith, ltb→lt _ _ e, h.0)

  -- The end of the wait, when the configuration is stable and when it is not.
  last-IsTrue :
      (stable : Bool) (cid : Cid) (q : QpId) (w : Wait)
      → Counts cid.size w
      → Returns (IsTrue (if stable then cid.size else cid.new_size)) (
          if stable
          then done (has_majority cid.size w)
          else (wait_pass cid.new_size q w >>= λ t. done (has_majority cid.new_size t)))
  last-IsTrue true cid q w k = majority-IsTrue cid.size w k
  last-IsTrue false cid q w k =
      bind-Returns (Counts cid.new_size) (IsTrue cid.new_size) (wait_pass cid.new_size q w) _
        (pass-Counts cid.new_size q w k.1) (majority-IsTrue cid.new_size)

-- The size of the group whose successes wait_for_majority counts last.
abbrev pub judged_size : Cid → ℕ
judged_size cid = if cid.state == cid_stable then cid.size else cid.new_size

-- If wait_for_majority returns RC_SUCCESS, with whatever the completion queue answers, then more than
-- half of the servers of the group are finished: their entry of `posted_sends` was not negative, and
-- is not positive any more. The group is the old one in a stable configuration, and the new one in
-- the others.
pub wait_for_majority-IsFinished :
    (q : QpId) (ps qs : List ℤ) (rc u : Rc)
    → wait_for_majority q ps rc ≡ done (true, qs, u)
    → judged_size rc.server.config.cid < 2 * count_finished ps qs (judged_size rc.server.config.cid)
unfolding wait_for_majority
wait_for_majority-IsFinished q ps qs rc u e =
    let cid = rc.server.config.cid in
    let holds : Returns (IsTrue ps (judged_size cid)) (wait_for_majority q ps rc) =
      bind-Returns (Counts ps cid.size) (IsTrue ps (judged_size cid))
        (wait_pass cid.size q (new_wait ps rc)) _
        (pass-Counts ps cid.size q (new_wait ps rc) (λ i n. n))
        (last-IsTrue ps (cid.state == cid_stable) cid q) in
    subst (Returns (IsTrue ps (judged_size cid))) e holds refl
