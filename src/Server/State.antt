-- ===== src/Server/State.antt =====
-- The state of a server: `data`, the other globals and the timers of src/dare/dare_server.c.
-- Delays stand for doubles: `recomputed_hb_timeout` counts tenths of `hb_period`.
use apus.Base.{ℕ, Bool, List}
use apus.Config.Cid.{Cid}
use apus.Log.State.{Log, Det}

abbrev pub lr_get_write : ℕ
lr_get_write = 1

abbrev pub lr_get_nce_len : ℕ
lr_get_nce_len = 2

abbrev pub lr_get_nce : ℕ
lr_get_nce = 3

abbrev pub lr_set_end : ℕ
lr_set_end = 4

abbrev pub lr_update_log : ℕ
lr_update_log = 5

abbrev pub lr_update_end : ℕ
lr_update_end = 6

abbrev pub permanent_failure : ℕ
permanent_failure = 2

-- `server_t`, without the pointer to the endpoint.
pub record ServerInfo : Type 0 where
  pub next_wr_id : ℕ
  pub cached_end_offset : ℕ
  pub last_get_read_ssn : ℕ
  pub fail_count : ℕ
  pub next_lr_step : ℕ
  pub send_flag : ℕ
  pub send_count : ℕ

-- `vote_req_t`
pub record VoteReq : Type 0 where
  pub sid : ℕ
  pub index : ℕ
  pub term : ℕ
  pub cid : Cid

-- `sm_rep_t`
pub record SmRep : Type 0 where
  pub sid : ℕ
  pub raddr : ℕ
  pub rkey : ℕ
  pub len : ℕ

-- `log_offsets_t`
pub record LogOffsets : Type 0 where
  pub commit : ℕ
  pub end : ℕ

-- `server_config_t`
pub record ServerConfig : Type 0 where
  pub cid : Cid
  pub cid_offset : ℕ
  pub cid_idx : ℕ
  pub req_id : ℕ
  pub servers : List ServerInfo
  pub clt_id : ℕ
  pub idx : ℕ

-- `ctrl_data_t`, which the other servers write to. `vote_sids` are the fields of `prv_data`.
pub record CtrlData : Type 0 where
  pub sid : ℕ
  pub vote_req : List VoteReq
  pub log_offsets : List LogOffsets
  pub sm_rep : List SmRep
  pub sm_req : List ℕ
  pub hb : List ℕ
  pub vote_ack : List ℕ
  pub apply_offsets : List ℕ
  pub rsid : List ℕ
  pub vote_sids : List ℕ

-- What a timer calls, and when it does next.
pub data Callback : Type 0 where
  init_network_cb : Callback
  exchange_rc_info_cb : Callback
  update_rc_info_cb : Callback
  get_replicated_vote_cb : Callback
  recover_log_cb : Callback
  to_adjust_cb : Callback
  hb_receive_cb : Callback
  hb_send_cb : Callback
  prune_log_cb : Callback

-- A delay of `off` stops the timer.
pub data Delay : Type 0 where
  off : Delay
  now : Delay
  hb_period : Delay
  hb_timeout : ℕ → Delay
  election_timeout : Delay
  rc_info_period : Delay
  retransmit_period : Delay
  log_pruning_period : Delay

pub record Timer : Type 0 where
  pub cb : Callback
  pub repeat : Delay

pub record Timers : Type 0 where
  pub timer_event : Timer
  pub hb_event : Timer
  pub to_adjust_event : Timer
  pub prune_event : Timer

-- The bits of `dare_state`.
pub record DareState : Type 0 where
  pub terminate : Bool
  pub joined : Bool
  pub rc_established : Bool
  pub sm_recovered : Bool
  pub log_recovered : Bool
  pub snapshot : Bool
  pub die_af_commit : Bool

-- The other globals, with the counters of to_adjust_cb.
pub record Vars : Type 0 where
  pub recomputed_hb_timeout : ℕ
  pub leader_failed : Bool
  pub hb_timeout_flag : Bool
  pub latest_hb_received : ℕ
  pub total_count : ℕ
  pub fp_count : ℕ
  pub prev_log_entry_head : Bool
  pub last_applied_entry : Det
  pub last_write_csm_idx : ℕ
  pub last_cmt_write_csm_idx : ℕ

-- A call of the network layer (`dare_ib_…`) or of the proxy, in the order of the calls.
pub data Call : Type 0 where
  revoke_log_access : Call
  restore_log_access : Call
  send_vote_request : Call
  replicate_vote : Call
  send_vote_ack : Call
  send_hb : Call
  send_hb_reply : ℕ → Call
  disconnect_server : ℕ → Call
  send_clt_reply : ℕ → ℕ → Call
  send_entries_reply : ℕ → Call
  send_sm_reply : ℕ → Call
  create_db_snapshot : Call
  store_cmd : ℕ → Call
  do_action : ℕ → ℕ → List ℕ → Call
  update_state : Call
  reset_wait_idx : Call
  reply_read_req : ℕ → Call

pub record Server : Type 0 where
  pub config : ServerConfig
  pub ctrl : CtrlData
  pub log : Log
  pub state : DareState
  pub vars : Vars
  pub timers : Timers
  pub calls : List Call
