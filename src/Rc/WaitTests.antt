-- ===== src/Rc/WaitTests.antt =====
-- Runs of the waits of src/dare/dare_ibv_rc.c, and of rc_get_replicated_vote, and the theorems there.
use apus.Base.{
  Bool, sym, ◌≡◌, refl, true, false, [], ◌∷◌, test_bit, ◌<◌, ◌*◌, pos, negsuc, set_bit, clear_bit,
}
use apus.Config.Cid.{is_server_on, get_group_size}
use apus.Rc.Wrid.{
  wrid_set_conn, wrid_set_ssn, wrid_set_tag, wrid_set_wa, wrid_unset_tag, wrid_unset_wa,
  wrid_get_ssn, wrid_get_conn, wrid_get_tag, new_wrid,
}
use apus.Rc.State.{Rc, Ep, Device, no_qp, Run}
use apus.Rc.State
use apus.Rc.Adjust.{next_ssn, is_other}
use apus.Rc.Completion.{
  empty_completion_queue, drain, complete_all, check_last_read, check_signaled,
  handle_lr_work_completion, handle_work_completion,
}
use apus.Rc.Wait.{
  wait_for_majority, wait_pass, wait_loop, waits_on, count_zeros, count_posted, take_poll,
  wait_complete_all, wait_complete, end_send, count_send, has_majority, take_result,
}
use apus.Rc.Send.{
  unblock, counted_qp, restart, forget_signaled, must_mark, must_wait, next_qp, new_post, put_post,
  post_send,
}
use apus.Rc.Vote.{rc_get_replicated_vote, send_signaled, adopt_sids, adopt_sid}
use apus.Rc.ReplicatedVote.{IsRaised, rc_get_replicated_vote-IsLargest}
use mathlib.Core.Bool.{true≢false}
use apus.Rc.Finished.{count_finished}
use apus.Rc.WaitMajority.{wait_for_majority-IsFinished}
use apus.Rc.Tests.{group_of_three, device}

-- Server 1 has written to the two others; both writes complete at once.
abbrev two_sends : Rc
two_sends = record group_of_three {
  ssn = 1;
  polls =
      State.polled [] (
        record { wr_id = new_wrid 1 0 false false; status = State.success }
        ∷ record { wr_id = new_wrid 1 2 false false; status = State.success }
        ∷ [])
      ∷ [];
}

two_sends-runs :
    wait_for_majority State.ctrl_qp (pos 1 ∷ negsuc 0 ∷ pos 1 ∷ []) two_sends
    ≡ State.done (true, pos 0 ∷ negsuc 0 ∷ pos 0 ∷ [], record two_sends { polls = [] })
unfolding wait_for_majority wait_pass wait_loop waits_on count_zeros count_posted get_group_size
    take_poll wait_complete_all wait_complete end_send wrid_get_ssn new_wrid wrid_set_conn
    wrid_set_ssn check_last_read State.land_all wrid_get_conn check_signaled
    handle_lr_work_completion handle_work_completion count_send has_majority take_result
    wrid_set_tag wrid_set_wa wrid_unset_tag wrid_unset_wa test_bit set_bit clear_bit
two_sends-runs = refl

wait_for_majority-IsFinished_example :
    3 < 2 * count_finished (pos 1 ∷ negsuc 0 ∷ pos 1 ∷ []) (pos 0 ∷ negsuc 0 ∷ pos 0 ∷ []) 3
wait_for_majority-IsFinished_example =
    wait_for_majority-IsFinished State.ctrl_qp (pos 1 ∷ negsuc 0 ∷ pos 1 ∷ [])
      (pos 0 ∷ negsuc 0 ∷ pos 0 ∷ []) two_sends (record two_sends { polls = [] }) two_sends-runs

-- Server 1 reads the votes that servers 0 and 2 have replicated for it; the one of server 2 is larger
-- than its SID.
abbrev two_reads : Rc
two_reads = record group_of_three {
  polls =
      State.polled [] []
      ∷ State.polled [] []
      ∷ State.polled (State.rsid_word 0 3 ∷ State.rsid_word 2 5000 ∷ []) (
          record { wr_id = new_wrid 1 0 false false; status = State.success }
          ∷ record { wr_id = new_wrid 1 2 false false; status = State.success }
          ∷ [])
      ∷ [];
}

abbrev returns_zero : Run (Bool × Rc) → Bool
returns_zero (State.done r) = r.0
returns_zero _ = false

abbrev state_after : Run (Bool × Rc) → Rc
state_after (State.done r) = r.1
state_after _ = group_of_three

returns_zero-lem :
    (m : Run (Bool × Rc)) → returns_zero m ≡ true → m ≡ State.done (true, state_after m)
returns_zero-lem (State.done (true, u)) e = refl
returns_zero-lem (State.done (false, u)) e = absurd (true≢false (sym e))
returns_zero-lem (State.failed u) e = absurd (true≢false (sym e))
returns_zero-lem State.endless e = absurd (true≢false (sym e))
returns_zero-lem State.crash e = absurd (true≢false (sym e))

abbrev raised : Rc
raised = state_after (rc_get_replicated_vote device two_reads)

two_reads-runs :
    (returns_zero (rc_get_replicated_vote device two_reads) ≡ true)
    × (raised.server.ctrl.sid ≡ 5000)
unfolding rc_get_replicated_vote send_signaled adopt_sids adopt_sid post_send unblock counted_qp
    restart forget_signaled must_mark must_wait next_qp new_post put_post next_ssn is_other
    is_server_on empty_completion_queue drain complete_all wait_for_majority wait_pass wait_loop
    waits_on count_zeros count_posted get_group_size take_poll wait_complete_all wait_complete
    end_send wrid_get_ssn new_wrid wrid_set_conn wrid_set_ssn check_last_read State.land
    State.land_all wrid_get_conn check_signaled handle_lr_work_completion handle_work_completion
    count_send has_majority take_result wrid_set_tag wrid_set_wa wrid_unset_tag wrid_unset_wa
    wrid_get_tag test_bit set_bit clear_bit
two_reads-runs = (refl, refl)

rc_get_replicated_vote-IsLargest_example : IsRaised device two_reads raised
rc_get_replicated_vote-IsLargest_example =
    rc_get_replicated_vote-IsLargest device two_reads raised
      (returns_zero-lem (rc_get_replicated_vote device two_reads) two_reads-runs.0)
