-- ===== src/Server/Step.antt =====
-- How the handlers of src/dare/dare_server.c end, and the assignments that they share.
use apus.Base.{ℕ, Option, none, some, Bool, List, [], ◌∷◌, ◌++◌, ◌==◌, if◌then◌else◌, set, get_or}
use apus.Config.Cid.{Cid}
use apus.Log.State.{Log}
use apus.Server.State.{Server, ServerInfo, Callback, Delay, off, Call, VoteReq}
use apus.Server.Sid.{is_leader}

-- A handler returns, or it ends the process by error_exit or dare_server_shutdown, or it uses a
-- pointer that is NULL or was not initialised. `no_fuel` is a search in the log that does not end.
pub data Result {ℓ} (A : Type ℓ) : Type ℓ where
  ok : A → Result A
  shutdown : Result A
  crash : Result A
  no_fuel : Result A

infixl 5 ◌>>=◌
abbrev pub ◌>>=◌ {ℓ κ} : {A : Type ℓ} {B : Type κ} → Result A → (A → Result B) → Result B
ok a >>= f = f a
shutdown >>= f = shutdown
crash >>= f = crash
no_fuel >>= f = no_fuel

abbrev pub in_fuel {ℓ} : {A : Type ℓ} → Option A → Result A
in_fuel none = no_fuel
in_fuel (some a) = ok a

-- if (0 != rc) error_exit(…)
abbrev pub exit_unless_zero : ℕ → Server → Result Server
exit_unless_zero rc s = if rc == 0 then ok s else shutdown

abbrev pub set_sid : ℕ → Server → Server
set_sid sid s = record s { ctrl = record s.ctrl { sid = sid } }

abbrev pub set_log : Log → Server → Server
set_log log s = record s { log = log }

abbrev pub set_cid : Cid → Server → Server
set_cid cid s = record s { config = record s.config { cid = cid } }

abbrev pub set_owner : ℕ → ℕ → Server → Server
set_owner req_id clt_id s = record s {
  config = record s.config { req_id = req_id; clt_id = clt_id };
}

abbrev pub set_hb : ℕ → ℕ → Server → Server
set_hb i hb s = record s { ctrl = record s.ctrl { hb = set s.ctrl.hb i hb } }

abbrev pub set_hb_event : Callback → Delay → Server → Server
set_hb_event cb d s = record s {
  timers = record s.timers { hb_event = record { cb = cb; repeat = d } };
}

abbrev pub stop_hb_event : Server → Server
stop_hb_event s = set_hb_event s.timers.hb_event.cb off s

abbrev pub set_prune_event : Delay → Server → Server
set_prune_event d s = record s {
  timers = record s.timers { prune_event = record s.timers.prune_event { repeat = d } };
}

abbrev pub set_to_adjust_event : Delay → Server → Server
set_to_adjust_event d s = record s {
  timers = record s.timers { to_adjust_event = record s.timers.to_adjust_event { repeat = d } };
}

abbrev pub set_timer_event : Callback → Delay → Server → Server
set_timer_event cb d s = record s {
  timers = record s.timers { timer_event = record { cb = cb; repeat = d } };
}

abbrev pub call : Call → Server → Server
call c s = record s { calls = s.calls ++ (c ∷ []) }

-- The macro IS_LEADER.
abbrev pub leads : Server → Bool
leads s = is_leader s.ctrl.sid s.config.idx

abbrev pub no_server : ServerInfo
no_server = record {
  next_wr_id = 0;
  cached_end_offset = 0;
  last_get_read_ssn = 0;
  fail_count = 0;
  next_lr_step = 0;
  send_flag = 0;
  send_count = 0;
}

abbrev pub server_at : Server → ℕ → ServerInfo
server_at s i = get_or s.config.servers i no_server

abbrev pub set_server : ℕ → ServerInfo → Server → Server
set_server i x s = record s { config = record s.config { servers = set s.config.servers i x } }

abbrev pub no_cid : Cid
no_cid = record { epoch = 0; size = 0; new_size = 0; state = 0; pad = 0; bitmask = 0 }

abbrev pub no_request : VoteReq
no_request = record { sid = 0; index = 0; term = 0; cid = no_cid }

abbrev pub request_at : List VoteReq → ℕ → VoteReq
request_at reqs i = get_or reqs i no_request

-- What the network layer (the files dare_ibv*.c) answers. A call that only sends has a result code;
-- a call that also changes the server's memory gives the new state.
pub data AckResult : Type 0 where
  sent : AckResult
  ack_failed : AckResult
  ack_error : AckResult

-- What dare_ib_poll_ud_queue reports, after dare_ib_poll_tailq; the other types have no effect in
-- poll_ud.
pub data UdMessage : Type 0 where
  msg_error : UdMessage
  cfg_reply : UdMessage
  rc_synack : UdMessage
  rc_ack : UdMessage
  other_message : UdMessage

pub record Net : Type 0 where
  pub revoke_rc : Server → ℕ
  pub restore_rc : Server → ℕ
  pub vote_request_rc : Server → ℕ
  pub replicate_vote_rc : Server → ℕ
  pub vote_ack_rc : Server → AckResult
  pub hb_rc : Server → ℕ
  pub get_remote_apply_offsets : Server → ℕ × Server
  pub write_remote_logs : Bool → Server → ℕ × Server
  pub db_size : Server → ℕ
  pub sm_reply_rc : ℕ → Server → ℕ
  pub recover_sm : ℕ → Server → ℕ × Server
  pub recover_log : Server → ℕ × Server
  pub poll_ud_queue : Server → UdMessage × Server
