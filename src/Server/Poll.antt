-- ===== src/Server/Poll.antt =====
-- src/dare/dare_server.c: polling and poll_ud, which drive a server.
use apus.Base.{Bool, true, not, ◌&&◌, if◌then◌else◌}
use apus.Server.Sid.{is_candidate}
use apus.Server.State.{
  Server, now, rc_info_period, exchange_rc_info_cb, update_rc_info_cb, get_replicated_vote_cb,
}
use apus.Server.Step.{
  Result, ok, shutdown, ◌>>=◌, set_timer_event, leads, Net, UdMessage, msg_error, cfg_reply,
  rc_synack, rc_ack, other_message,
}
use apus.Server.Election.{start_election}
use apus.Server.Vote.{poll_vote_requests}
use apus.Server.Reconfig.{poll_config_entries, check_failure_count}
use apus.Server.Apply.{commit_new_entries, persist_new_entries, apply_committed_entries}
use apus.Server.Count.{poll_vote_count}
use apus.Server.Prune.{force_log_pruning}
use apus.Server.Recover.{poll_sm_requests, poll_sm_reply}

-- A majority of connections: a server that joins recovers, one of the initial group stands for
-- election.
unfoldable pub establish : Net → Server → Result Server
establish net s =
    if s.state.rc_established
    then ok s
    else let s = record s { state = record s.state { rc_established = true } } in
      if s.state.joined
      then ok (set_timer_event get_replicated_vote_cb now s)
      else start_election net (
          set_timer_event update_rc_info_cb rc_info_period
            (record s { state = record s.state { log_recovered = true; sm_recovered = true } }))

unfoldable pub handle_ud : Net → UdMessage → Server → Result Server
handle_ud net msg_error s = shutdown
handle_ud net cfg_reply s = ok (
    set_timer_event exchange_rc_info_cb now (record s { state = record s.state { joined = true } }))
handle_ud net rc_synack s = establish net s
handle_ud net rc_ack s = establish net s
handle_ud net other_message s = ok s

unfoldable pub poll_ud : Net → Server → Result Server
poll_ud net s = let r = net.poll_ud_queue s in handle_ud net r.0 r.1

abbrev pub when : Bool → (Server → Result Server) → Server → Result Server
when b f s = if b then f s else ok s

abbrev pub is_standing : Server → Bool
is_standing s = is_candidate s.ctrl.sid s.config.idx

-- What a recovered server does in a round.
unfoldable pub serve : Net → Server → Result Server
serve net s = do
  s ← when (not (leads s)) (poll_sm_requests net) s
  s ← check_failure_count s
  s ← persist_new_entries s
  s ← if leads s then ok (commit_new_entries net s) else poll_config_entries s
  s ← apply_committed_entries s
  s ← when (is_standing s) (poll_vote_count net) s
  s ← poll_vote_requests net s
  when (leads s) (force_log_pruning net) s

unfoldable pub polling : Net → Server → Result Server
polling net s = if s.state.terminate then shutdown else (do
  s ← poll_ud net s
  s ← when (s.state.rc_established && not s.state.sm_recovered) (poll_sm_reply net) s
  when s.state.log_recovered (serve net) s)
