-- ===== src/Rc/Wait.antt =====
-- src/dare/dare_ibv_rc.c: wait_for_majority and wait_for_one.
use apus.Base.{
  ℕ, ◌+◌, ◌/◌, ◌%◌, Bool, true, false, not, ◌&&◌, List, [], ◌∷◌, ◌==◌, ltb, leb, if◌then◌else◌, set,
  get_or, for_range, ℤ, pos, decrement, is_zero, positive,
}
use apus.Config.Cid.{cid_stable, get_group_size}
use apus.Rc.Wrid.{wrid_get_conn, wrid_get_ssn}
use apus.Rc.State.{
  Rc, QpId, Wc, WcStatus, Poll, poll_error, polled, qp_at, set_qp, ep_at, server_at, set_server,
  set_polls, land_all, Run, done, failed, endless, ◌>>=◌,
}
use apus.Rc.Completion.{
  WcResult, wc_success, wc_failure, wc_error, wc_software_bug, handle_work_completion,
  handle_lr_work_completion, check_signaled, fail_qp, check_last_read, count_failure,
}

-- `posted_sends`, `posted_send_count`, `success_count` and the state.
pub record Wait : Type 0 where
  pub posted_sends : List ℤ
  pub posted_send_count : ℕ
  pub success_count : ℕ
  pub rc : Rc

abbrev pub posted_at : List ℤ → ℕ → ℤ
posted_at ps i = get_or ps i (pos 0)

unfoldable pub count_posted : List ℤ → ℕ → ℕ
count_posted ps size = for_range size (λ i n. (n + positive (posted_at ps i)) % 256) 0

-- The sends that are complete.
unfoldable pub count_zeros : List ℤ → ℕ → ℕ
count_zeros ps size = for_range size (λ i n. if is_zero (posted_at ps i) then n + 1 else n) 0

-- A success of the last request: its server counts once all its sends are complete.
unfoldable pub count_send : ℕ → ℕ → Wait → Wait
count_send size conn w =
    let left = decrement (posted_at w.posted_sends conn) in
    record w {
      posted_sends = set w.posted_sends conn left;
      success_count =
          (if is_zero left && ltb conn size then (w.success_count + 1) % 256 else w.success_count);
    }

-- With wait_for_one each success counts.
unfoldable pub count_any : ℕ → Wait → Wait
count_any conn w = record w {
  posted_sends = set w.posted_sends conn (decrement (posted_at w.posted_sends conn));
  success_count = (w.success_count + 1) % 256;
}

abbrev pub set_rc : Rc → Wait → Wait
set_rc rc w = record w { rc = rc }

-- What the result of a completion does; `count` counts the success of a request. Whether the request
-- is an old one is for `is_old` to say.
unfoldable pub take_result :
    (ℕ → Wait → Wait) → (ℕ → ℕ → Bool) → WcResult → Bool → QpId → ℕ → Wait → Wait
take_result count is_old wc_success can_restart q wr_id w =
    let conn = wrid_get_conn wr_id in
    let w = set_rc (set_server conn (record (server_at w.rc conn) { fail_count = 0 }) w.rc) w in
    if is_old w.rc.ssn (wrid_get_ssn wr_id) then w else count conn w
take_result count is_old wc_failure can_restart q wr_id w =
    let conn = wrid_get_conn wr_id in
    let rc = set_qp conn q (fail_qp can_restart (qp_at w.rc conn q)) w.rc in
    set_rc (count_failure q conn rc) w
take_result count is_old wc_error can_restart q wr_id w = w
take_result count is_old wc_software_bug can_restart q wr_id w = w

-- The end of a posted send, whatever its result.
unfoldable pub end_send : ℕ → Wait → Wait
end_send wr_id w =
    if wrid_get_ssn wr_id == w.rc.ssn
    then record w { posted_send_count = (w.posted_send_count + 255) % 256 }
    else w

-- A completion. `first` is the status of the first completion of the poll, which the code looks at for
-- each of them.
unfoldable pub wait_complete :
    (ℕ → Wait → Wait) → (ℕ → ℕ → Bool) → QpId → WcStatus → Wc → Wait → Wait
wait_complete count is_old q first wc w =
    let conn = wrid_get_conn wc.wr_id in
    let rc = check_last_read q wc.wr_id conn w.rc in
    let (can_restart, marked, qp) = check_signaled wc.wr_id (qp_at rc conn q) in
    let w = end_send wc.wr_id (set_rc (set_qp conn q qp rc) w) in
    let r = handle_work_completion first in
    let handled = set_rc (handle_lr_work_completion wc.wr_id r w.rc) w in
    if (ep_at w.rc conn).rc_connected
    then take_result count is_old r can_restart q wc.wr_id handled
    else w

unfoldable pub wait_complete_all :
    (ℕ → Wait → Wait) → (ℕ → ℕ → Bool) → QpId → WcStatus → List Wc → Wait → Wait
wait_complete_all count is_old q first [] w = w
wait_complete_all count is_old q first (wc ∷ wcs) w =
    wait_complete_all count is_old q first wcs (wait_complete count is_old q first wc w)

unfoldable pub take_poll : (ℕ → Wait → Wait) → (ℕ → ℕ → Bool) → QpId → List Wc → Wait → Wait
take_poll count is_old q [] w = w
take_poll count is_old q (wc ∷ wcs) w = wait_complete_all count is_old q wc.status (wc ∷ wcs) w

-- The loop goes on while there are fewer successes than wanted, and sends to wait for.
unfoldable pub waits_on : ℕ → Wait → Bool
waits_on enough w = leb w.success_count enough && not (w.posted_send_count == 0)

-- No answer comes once the list of answers ends.
unfoldable pub wait_loop :
    ℕ → (ℕ → Wait → Wait) → (ℕ → ℕ → Bool) → QpId → List Poll → Bool → Wait → Run Wait
wait_loop enough count is_old q polls false w = done w
wait_loop enough count is_old q [] true w = endless
wait_loop enough count is_old q (poll_error ls ∷ polls) true w =
    failed (land_all ls (set_polls polls w.rc))
wait_loop enough count is_old q (polled ls wcs ∷ polls) true w =
    let t = take_poll count is_old q wcs (set_rc (land_all ls (set_polls polls w.rc)) w) in
    wait_loop enough count is_old q polls (waits_on enough t) t

-- A request is old when its number is smaller.
abbrev pub smaller_ssn : ℕ → ℕ → Bool
smaller_ssn ssn n = ltb n ssn

-- ... or when it is another one.
abbrev pub other_ssn : ℕ → ℕ → Bool
other_ssn ssn n = not (n == ssn)

-- A pass of wait_for_majority, for a group of `size` servers.
unfoldable pub wait_pass : ℕ → QpId → Wait → Run Wait
wait_pass size q w =
    let w = record w { success_count = count_zeros w.posted_sends size } in
    wait_loop (size / 2) (count_send size) smaller_ssn q w.rc.polls (waits_on (size / 2) w) w

abbrev pub new_wait : List ℤ → Rc → Wait
new_wait ps rc = record {
  posted_sends = ps;
  posted_send_count = count_posted ps (get_group_size rc.server.config.cid);
  success_count = 0;
  rc = rc;
}

-- Whether there is a majority, `posted_sends` and the state.
abbrev pub Waited : Type 0
Waited = Bool × List ℤ × Rc

unfoldable pub has_majority : ℕ → Wait → Waited
has_majority size w = (ltb (size / 2) w.success_count, w.posted_sends, w.rc)

-- The wait does not change the configuration.
unfoldable pub wait_for_majority : QpId → List ℤ → Rc → Run Waited
wait_for_majority q ps rc = do
  let cid = rc.server.config.cid
  w ← wait_pass cid.size q (new_wait ps rc)
  if cid.state == cid_stable
      then done (has_majority cid.size w)
      else (do w ← wait_pass cid.new_size q w; done (has_majority cid.new_size w))

unfoldable pub wait_for_one : QpId → List ℤ → Rc → Run Waited
wait_for_one q ps rc = do
  let size = get_group_size rc.server.config.cid
  let w = record (new_wait ps rc) { success_count = count_zeros ps size }
  w ← wait_loop 0 count_any other_ssn q rc.polls (waits_on 0 w) w
  done (not (w.success_count == 0), w.posted_sends, w.rc)
