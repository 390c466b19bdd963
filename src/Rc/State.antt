-- ===== src/Rc/State.antt =====
-- src/dare/dare_ibv_rc.c: the endpoints of the other servers, the work requests that are posted, and
-- what the completion queues answer.
use apus.Base.{ℕ, Bool, true, false, Option, List, [], ◌∷◌, get_or, set, ℤ}
use apus.Log.Mem.{poke}
use apus.Log.State.{Log, Det}
use apus.Server.State.{VoteReq, Server, ServerInfo}
use apus.Server.Step

abbrev pub rc_qp_active : ℕ
rc_qp_active = 0

abbrev pub rc_qp_blocked : ℕ
rc_qp_blocked = 1

abbrev pub rc_qp_error : ℕ
rc_qp_error = 2

-- The two queue pairs of an endpoint.
pub data QpId : Type 0 where
  ctrl_qp : QpId
  log_qp : QpId

abbrev pub is_log_qp : QpId → Bool
is_log_qp ctrl_qp = false
is_log_qp log_qp = true

-- `rc_qp_t`, without the handle and the remote number.
pub record Qp : Type 0 where
  pub signaled_wr_id : ℕ
  pub send_count : ℕ
  pub state : ℕ

-- `dare_ib_ep_t`, without the addresses.
pub record Ep : Type 0 where
  pub rc_connected : Bool
  pub log_access : Bool
  pub ctrl : Qp
  pub log : Qp

-- The `status` of a completion.
pub data WcStatus : Type 0 where
  success : WcStatus
  loc_len_err : WcStatus
  loc_qp_op_err : WcStatus
  loc_eec_op_err : WcStatus
  loc_prot_err : WcStatus
  mw_bind_err : WcStatus
  loc_access_err : WcStatus
  rem_access_err : WcStatus
  rnr_retry_exc_err : WcStatus
  loc_rdd_viol_err : WcStatus
  rem_inv_rd_req_err : WcStatus
  rem_abort_err : WcStatus
  inv_eecn_err : WcStatus
  inv_eec_state_err : WcStatus
  wr_flush_err : WcStatus
  bad_resp_err : WcStatus
  rem_inv_req_err : WcStatus
  rem_op_err : WcStatus
  retry_exc_err : WcStatus
  fatal_err : WcStatus
  resp_timeout_err : WcStatus
  general_err : WcStatus

-- `struct ibv_wc`
pub record Wc : Type 0 where
  pub wr_id : ℕ
  pub status : WcStatus

-- What the device has put into the memory of the server: the answer to a read, or the write of
-- another server. The length of a buffer of determinants is that of the list.
pub data Landed : Type 0 where
  reply_byte : ℕ → Landed
  nc_buf_words : ℕ → List Det → Landed
  vote_ack_word : ℕ → ℕ → Landed
  apply_word : ℕ → ℕ → Landed
  rsid_word : ℕ → ℕ → Landed
  vote_sid_word : ℕ → ℕ → Landed

-- An answer of ibv_poll_cq, with what has landed since the last one: an error, or completions.
pub data Poll : Type 0 where
  poll_error : List Landed → Poll
  polled : List Landed → List Wc → Poll

-- What a work request moves. `write_log` has the offset, which is the same here and there, and the
-- number of the bytes.
pub data Work : Type 0 where
  read_nc_len : Work
  read_nc_entries : ℕ → Work
  write_end : ℕ → Work
  write_commit : ℕ → Work
  write_log : ℕ → ℕ → Work
  write_reply : ℕ → Work
  read_apply : Work
  read_vote_sid : Work
  write_vote_req : VoteReq → Work
  write_vote_sid : ℕ → Work
  write_vote_ack : ℕ → Work

pub record Post : Type 0 where
  pub server_id : ℕ
  pub qp_id : QpId
  pub wr_id : ℕ
  pub signaled : Bool
  pub work : Work

-- The server, its connections, the globals `ssn`, `wa_flag` and `committed`, the answers to come of
-- ibv_poll_cq, and the work requests posted so far.
pub record Rc : Type 0 where
  pub server : Server
  pub eps : List Ep
  pub ssn : ℕ
  pub wa_flag : Bool
  pub committed : Bool
  pub polls : List Poll
  pub posts : List Post

-- The device: the size of its send queues, and the results of ibv_post_send and of the functions that
-- move a queue pair from state to state with ibv_modify_qp.
pub record Device : Type 0 where
  pub rc_max_send_wr : ℕ
  pub modify_rc : ℕ → QpId → ℕ
  pub post_rc : List Post → Post → ℕ

-- `posted_sends`, which may be NULL.
abbrev pub Posted : Type 0
Posted = Option (List ℤ)

abbrev pub no_qp : Qp
no_qp = record { signaled_wr_id = 0; send_count = 0; state = rc_qp_active }

abbrev pub no_ep : Ep
no_ep = record { rc_connected = false; log_access = false; ctrl = no_qp; log = no_qp }

abbrev pub ep_at : Rc → ℕ → Ep
ep_at rc i = get_or rc.eps i no_ep

abbrev pub set_ep : ℕ → Ep → Rc → Rc
set_ep i ep rc = record rc { eps = set rc.eps i ep }

abbrev pub qp_of : QpId → Ep → Qp
qp_of ctrl_qp ep = ep.ctrl
qp_of log_qp ep = ep.log

abbrev pub set_qp_of : QpId → Qp → Ep → Ep
set_qp_of ctrl_qp qp ep = record ep { ctrl = qp }
set_qp_of log_qp qp ep = record ep { log = qp }

abbrev pub qp_at : Rc → ℕ → QpId → Qp
qp_at rc i q = qp_of q (ep_at rc i)

abbrev pub set_qp : ℕ → QpId → Qp → Rc → Rc
set_qp i q qp rc = set_ep i (set_qp_of q qp (ep_at rc i)) rc

abbrev pub server_at : Rc → ℕ → ServerInfo
server_at rc i = Step.server_at rc.server i

abbrev pub set_server : ℕ → ServerInfo → Rc → Rc
set_server i x rc = record rc { server = Step.set_server i x rc.server }

abbrev pub set_polls : List Poll → Rc → Rc
set_polls polls rc = record rc { polls = polls }

abbrev pub set_log : Log → Rc → Rc
set_log log rc = record rc { server = Step.set_log log rc.server }

-- What has landed is in the memory of the server.
unfoldable pub land : Landed → Rc → Rc
land (reply_byte a) rc =
    let log = rc.server.log in set_log (record log { mem = poke log.mem a 1 }) rc
land (nc_buf_words i ds) rc =
    let log = rc.server.log in set_log (record log { nc_buf = set log.nc_buf i ds }) rc
land (vote_ack_word i v) rc =
    let s = rc.server in
    record rc { server = record s { ctrl = record s.ctrl { vote_ack = set s.ctrl.vote_ack i v } } }
land (apply_word i v) rc =
    let s = rc.server in
    record rc {
      server = record s { ctrl = record s.ctrl { apply_offsets = set s.ctrl.apply_offsets i v } };
    }
land (rsid_word i v) rc =
    let s = rc.server in
    record rc { server = record s { ctrl = record s.ctrl { rsid = set s.ctrl.rsid i v } } }
land (vote_sid_word i v) rc =
    let s = rc.server in
    record rc {
      server = record s { ctrl = record s.ctrl { vote_sids = set s.ctrl.vote_sids i v } };
    }

unfoldable pub land_all : List Landed → Rc → Rc
land_all [] rc = rc
land_all (l ∷ ls) rc = land_all ls (land l rc)

-- A function returns, or it returns an error code, or it waits for a completion that does not come,
-- or it reads a NULL pointer.
pub data Run {ℓ} (A : Type ℓ) : Type ℓ where
  done : A → Run A
  failed : Rc → Run A
  endless : Run A
  crash : Run A

infixl 5 ◌>>=◌
abbrev pub ◌>>=◌ {ℓ κ} : {A : Type ℓ} {B : Type κ} → Run A → (A → Run B) → Run B
done a >>= f = f a
failed rc >>= f = failed rc
endless >>= f = endless
crash >>= f = crash

-- A call whose result code is not looked at.
abbrev pub ignore_error : Run Rc → Run Rc
ignore_error (done rc) = done rc
ignore_error (failed rc) = done rc
ignore_error endless = endless
ignore_error crash = crash
