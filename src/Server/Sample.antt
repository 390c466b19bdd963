-- ===== src/Server/Sample.antt =====
-- A group of three servers, for runs of src/dare/dare_server.c.
use apus.Base.{ℕ, Bool, true, false, List, [], ◌∷◌, replicate}
use apus.Config.Cid.{Cid, cid_stable}
use apus.Log.State.{log_new}
use apus.Server.State.{Server, Timer, VoteReq, hb_receive_cb, off}
use apus.Server.Step.{Net, Result, ok, crash, shutdown, no_fuel, sent, no_server, other_message}

-- A network on which all calls succeed.
abbrev pub net : Net
net = record {
  revoke_rc = λ s. 0;
  restore_rc = λ s. 0;
  vote_request_rc = λ s. 0;
  replicate_vote_rc = λ s. 0;
  vote_ack_rc = λ s. sent;
  hb_rc = λ s. 0;
  get_remote_apply_offsets = λ s. (0, s);
  write_remote_logs = λ b s. (0, s);
  db_size = λ s. 100;
  sm_reply_rc = λ i s. 0;
  recover_sm = λ i s. (0, s);
  recover_log = λ s. (0, s);
  poll_ud_queue = λ s. (other_message, s);
}

abbrev pub group : Cid
group = record { epoch = 0; size = 3; new_size = 0; state = cid_stable; pad = 0; bitmask = 7 }

abbrev pub timer : Timer
timer = record { cb = hb_receive_cb; repeat = off }

-- Server 1 in term 2, with the SID, the requests, the heartbeats and the votes that are given.
abbrev pub server : ℕ → List VoteReq → List ℕ → List ℕ → Bool → Server
server sid reqs hb acks snapshot = record {
  config = record {
    cid = group;
    cid_offset = 0;
    cid_idx = 0;
    req_id = 0;
    servers = replicate 13 no_server;
    clt_id = 0;
    idx = 1;
  };
  ctrl = record {
    sid = sid;
    vote_req = reqs;
    log_offsets = [];
    sm_rep = [];
    sm_req = 0 ∷ 0 ∷ 1 ∷ [];
    hb = hb;
    vote_ack = acks;
    apply_offsets = 0 ∷ 0 ∷ 0 ∷ [];
    rsid = 0 ∷ 0 ∷ 0 ∷ [];
    vote_sids = 0 ∷ 0 ∷ 0 ∷ [];
  };
  log = log_new;
  state = record {
    terminate = false;
    joined = false;
    rc_established = true;
    sm_recovered = true;
    log_recovered = true;
    snapshot = snapshot;
    die_af_commit = false;
  };
  vars = record {
    recomputed_hb_timeout = 20;
    leader_failed = false;
    hb_timeout_flag = false;
    latest_hb_received = 0;
    total_count = 0;
    fp_count = 0;
    prev_log_entry_head = false;
    last_applied_entry = record { idx = 0; term = 0; offset = 0 };
    last_write_csm_idx = 0;
    last_cmt_write_csm_idx = 0;
  };
  timers = record {
    timer_event = timer;
    hb_event = timer;
    to_adjust_event = timer;
    prune_event = timer;
  };
  calls = [];
}

-- What a handler returns, or else the state before.
abbrev pub returned : Result Server → Server → Server
returned (ok t) s = t
returned shutdown s = s
returned crash s = s
returned no_fuel s = s
