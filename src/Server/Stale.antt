-- ===== src/Server/Stale.antt =====
-- src/dare/dare_server.c: the replies to heartbeats that hb_send_cb reads.
use apus.Base.{ℕ, ◌≡◌, refl, false, ◌==◌, for_range, for_range-ind}
use apus.Config.Cid.{get_group_size}
use apus.Server.Sid.{sid_get_l}
use apus.Server.State.{Server, revoke_log_access, restore_log_access}
use apus.Server.Step.{ok, shutdown, Net, sent, call, stop_hb_event}
use apus.Server.Gives.{Gives, bind-Gives, of-Gives, if-Gives, if-holds}
use apus.Server.KeepSid.{
  HasSid, server_update_sid-HasSid, fill_nc_buf-HasSid, stop_leading-HasSid, after_vote_ack-HasSid,
}
use apus.Server.Election.{
  server_update_sid, server_to_follower, fill_nc_buf, stop_leading, after_vote_ack,
}
use apus.Server.Heartbeat.{hb_send, check_reply, SendPoll}

pub server_to_follower-HasSid :
    (net : Net) (s : Server) (sid : ℕ)
    → ((u : Server) → net.vote_ack_rc u ≡ sent)
    → HasSid sid s
    → Gives (HasSid sid) (server_to_follower net s)
unfolding server_to_follower
server_to_follower-HasSid net s sid ack h =
    let P = HasSid sid in
    bind-Gives P P (fill_nc_buf (call revoke_log_access (stop_leading (stop_hb_event s)))) _
      (fill_nc_buf-HasSid sid _ (stop_leading-HasSid sid (stop_hb_event s) h))
      (λ t k.
        if-Gives P (sid_get_l t.ctrl.sid) (after_vote_ack net (call restore_log_access t)) _
          (λ e. after_vote_ack-HasSid sid net (call restore_log_access t) (ack _) k) (λ e. k))

check_reply-HasSid :
    (sid i : ℕ) (p : SendPoll) → HasSid sid p.server → HasSid sid (check_reply i p).server
unfolding check_reply
check_reply-HasSid sid i p h = if-holds (λ q. HasSid sid q.server) _ p _ h h

-- Provided that the vote ACK can be sent, hb_send_cb, where it returns, keeps the state identifier,
-- also when a server has replied with a larger one and the leader turns to a follower for it.
pub hb_send-HasSid :
    (net : Net) (s t : Server)
    → ((u : Server) → net.vote_ack_rc u ≡ sent)
    → hb_send net s ≡ ok t
    → t.ctrl.sid ≡ s.ctrl.sid
unfolding hb_send
hb_send-HasSid net s t ack e =
    let P = HasSid s.ctrl.sid in
    let p =
      for_range (get_group_size s.config.cid) check_reply (record { stop = false; server = s }) in
    let k =
      for_range-ind (λ i q. P q.server) (get_group_size s.config.cid) check_reply
        (record { stop = false; server = s }) refl
        (λ i q l h. check_reply-HasSid s.ctrl.sid i q h) in
    of-Gives P (hb_send net s) t
      (if-Gives P p.stop _ _
        (λ h.
          bind-Gives P P (server_update_sid s.ctrl.sid p.server.ctrl.sid p.server)
            (server_to_follower net)
            (server_update_sid-HasSid s.ctrl.sid p.server.ctrl.sid p.server)
            (λ u q. server_to_follower-HasSid net u s.ctrl.sid ack q))
        (λ h. if-Gives P (net.hb_rc p.server == 0) _ shutdown (λ e. k) (λ e. tt)))
      e
