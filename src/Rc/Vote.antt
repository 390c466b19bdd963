-- ===== src/Rc/Vote.antt =====
-- src/dare/dare_ibv_rc.c: rc_send_vote_request, rc_get_replicated_vote, rc_replicate_vote and
-- rc_send_vote_ack.
use apus.Base.{
  ℕ, Bool, true, false, not, ◌&&◌, ◌||◌, none, some, List, [], ◌==◌, ltb, if◌then◌else◌, set,
  get_or, for_range, replicate, ℤ, pos, negsuc, is_zero,
}
use apus.Config.Cid.{get_group_size, is_server_on}
use apus.Log.State.{max_server_count, Log}
use apus.Log.Entry.{entry_idx, entry_term}
use apus.Log.Offsets.{is_log_empty, log_get_entry}
use apus.Log.Scan.{log_get_tail}
use apus.Server.Sid.{sid_get_idx}
use apus.Server.State.{VoteReq, CtrlData}
use apus.Rc.State.{
  Rc, Device, Posted, ctrl_qp, Work, read_vote_sid, write_vote_req, write_vote_sid, write_vote_ack,
  ep_at, Run, done, endless, crash, ◌>>=◌,
}
use apus.Rc.Send.{post_send, post}
use apus.Rc.Adjust.{is_other, next_ssn, each}
use apus.Rc.Wait.{posted_at, wait_for_majority, wait_for_one}

abbrev pub set_ctrl : CtrlData → Rc → Rc
set_ctrl ctrl rc = let s = rc.server in record rc { server = record s { ctrl = ctrl } }

-- Another server, which is on and connected.
abbrev can_post : Rc → ℕ → Bool
can_post rc i = is_other rc i && (ep_at rc i).rc_connected

abbrev set_posted : ℕ → ℤ → Posted → Posted
set_posted i z none = none
set_posted i z (some ps) = some (set ps i z)

abbrev pub posted_sends_of : Posted → List ℤ
posted_sends_of none = []
posted_sends_of (some ps) = ps

abbrev pub no_posted : List ℤ
no_posted = replicate max_server_count (pos 0)

-- Index and term of the last entry.
unfoldable pub last_of_log : Log → Run (ℕ × ℕ)
last_of_log log = if is_log_empty log then done (0, 0) else elim (log_get_tail log) [
  | none ↦ endless
  | some tail ↦ elim (log_get_entry log tail) [
    | none ↦ crash
    | some entry ↦ done (entry_idx log.mem entry, entry_term log.mem entry)
  ]
]

unfoldable pub send_request : Device → VoteReq → ℕ → Rc → Run Rc
send_request dev req i rc =
    if can_post rc i then post dev i ctrl_qp (write_vote_req req) false rc else done rc

unfoldable pub rc_send_vote_request : Device → Rc → Run Rc
rc_send_vote_request dev rc = do
  last ← last_of_log rc.server.log
  let ctrl = rc.server.ctrl
  let req : VoteReq = record {
    sid = ctrl.sid;
    index = last.0;
    term = last.1;
    cid = rc.server.config.cid;
  }
  let rc = set_ctrl (record ctrl { vote_req = set ctrl.vote_req rc.server.config.idx req }) rc
  each (get_group_size rc.server.config.cid) (send_request dev req) (next_ssn rc)

-- A signaled request to a server, or -1 for a server to which none can be posted; `own` is the entry of
-- the server itself.
unfoldable pub send_signaled : Device → Work → ℤ → ℕ → Posted × Rc → Run (Posted × Rc)
send_signaled dev work own i (ps, rc) =
    if i == rc.server.config.idx
    then done (set_posted i own ps, rc)
    else if can_post rc i
    then post_send dev i ctrl_qp work true (set_posted i (pos 1) ps) rc
    else done (set_posted i (negsuc 0) ps, rc)

-- A larger SID that was read is taken over.
unfoldable pub adopt_sid : List ℤ → ℕ → CtrlData → CtrlData
adopt_sid ps i ctrl =
    let rsid = get_or ctrl.rsid i 0 in
    if is_zero (posted_at ps i)
    then record ctrl {
      sid = (if ltb ctrl.sid rsid then rsid else ctrl.sid);
      rsid = set ctrl.rsid i 0;
    }
    else ctrl

unfoldable pub adopt_sids : List ℤ → ℕ → Rc → Rc
adopt_sids ps size rc = set_ctrl (for_range size (adopt_sid ps) rc.server.ctrl) rc

-- Whether it returns 0 or -1.
unfoldable pub rc_get_replicated_vote : Device → Rc → Run (Bool × Rc)
rc_get_replicated_vote dev rc = do
  let size = get_group_size rc.server.config.cid
  (ps, rc) ← each size (send_signaled dev read_vote_sid (negsuc 0)) (some no_posted, next_ssn rc)
  (majority, ps, rc) ← wait_for_majority ctrl_qp (posted_sends_of ps) rc
  done (majority, if majority then adopt_sids ps size rc else rc)

-- It returns 0 whether there was a majority or not.
unfoldable pub rc_replicate_vote : Device → Rc → Run Rc
rc_replicate_vote dev rc = do
  let ctrl = rc.server.ctrl
  let rc =
      set_ctrl (record ctrl { vote_sids = set ctrl.vote_sids rc.server.config.idx ctrl.sid }) rc
  let size = get_group_size rc.server.config.cid
  (ps, rc) ←
      each size (send_signaled dev (write_vote_sid ctrl.sid) (pos 0)) (some no_posted, next_ssn rc)
  (majority, ps, rc) ← wait_for_majority ctrl_qp (posted_sends_of ps) rc
  done rc

-- Whether it returns 0 or -1. Nothing is sent to a candidate that is off or not connected.
unfoldable pub rc_send_vote_ack : Device → Rc → Run (Bool × Rc)
rc_send_vote_ack dev rc =
    let candidate = sid_get_idx rc.server.ctrl.sid in
    let ps = set (replicate max_server_count (negsuc 0)) candidate (pos 1) in
    let work = write_vote_ack rc.server.log.commit in
    if not (is_server_on rc.server.config.cid candidate) || not (ep_at rc candidate).rc_connected
    then done (true, rc)
    else (do
      (ps, rc) ← post_send dev candidate ctrl_qp work true (some ps) (next_ssn rc)
      (sent, ps, rc) ← wait_for_one ctrl_qp (posted_sends_of ps) rc
      done (sent, rc))
