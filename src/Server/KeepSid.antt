-- ===== src/Server/KeepSid.antt =====
-- src/dare/dare_server.c: what leaves the state identifier alone.
use apus.Base.{ℕ, ◌≡◌, refl, sym, subst, false, not, ◌&&◌, ◌==◌, ltb, if◌then◌else◌, for_range-ind}
use apus.Config.Cid.{Cid, is_server_on, equal_cid}
use apus.Log.Scan.{log_entries_to_nc_buf}
use apus.Server.State.{Server, disconnect_server, send_vote_ack}
use apus.Server.Step.{Result, ok, crash, shutdown, Net, set_sid, call, sent}
use apus.Server.Gives.{Gives, bind-Gives, in_fuel-Gives, if-Gives, if-holds}
use apus.Server.Election.{
  server_update_sid, fill_nc_buf, stop_leading, after_vote_ack, on_ack, drop_server, update_cid,
}

-- The state has this SID, and the server this index.
abbrev pub HasSid : ℕ → Server → Type 0
HasSid sid s = s.ctrl.sid ≡ sid

pub server_update_sid-HasSid :
    (new old : ℕ) (s : Server) → Gives (HasSid new) (server_update_sid new old s)
unfolding server_update_sid
server_update_sid-HasSid new old s =
    if-Gives (HasSid new) (s.ctrl.sid == old) (ok (set_sid new s)) shutdown (λ e. refl) (λ e. tt)

pub fill_nc_buf-HasSid : (sid : ℕ) (s : Server) → HasSid sid s → Gives (HasSid sid) (fill_nc_buf s)
unfolding fill_nc_buf
fill_nc_buf-HasSid sid s h =
    in_fuel-Gives (HasSid sid) (log_entries_to_nc_buf s.log) _
      (λ ds e. if-Gives (HasSid sid) _ crash (ok _) (λ e. tt) (λ e. h))

pub stop_leading-HasSid : (sid : ℕ) (s : Server) → HasSid sid s → HasSid sid (stop_leading s)
unfolding stop_leading
stop_leading-HasSid sid s h = if-holds (HasSid sid) s.vars.hb_timeout_flag _ _ h h

drop_server-HasSid :
    (sid : ℕ) (cid : Cid) (i : ℕ) (r : Result Server)
    → Gives (HasSid sid) r
    → Gives (HasSid sid) (drop_server cid i r)
unfolding drop_server
drop_server-HasSid sid cid i r h = bind-Gives (HasSid sid) (HasSid sid) r _ h (λ s k.
    if-Gives (HasSid sid) (not (is_server_on cid i) && is_server_on s.config.cid i)
      (if i == s.config.idx then shutdown else ok (call (disconnect_server i) s)) (ok s)
      (λ e. if-Gives (HasSid sid) (i == s.config.idx) shutdown _ (λ e. tt) (λ e. k)) (λ e. k))

-- The configuration of the candidate does not change the SID.
pub update_cid-HasSid :
    (sid : ℕ) (cid : Cid) (s : Server)
    → HasSid sid s
    → Gives (λ r. HasSid sid r.1) (update_cid cid s)
unfolding update_cid
update_cid-HasSid sid cid s h =
    if-Gives (λ r. HasSid sid r.1) (equal_cid s.config.cid cid) (ok (false, s)) _ (λ e. h)
      (λ e.
        bind-Gives (HasSid sid) (λ r. HasSid sid r.1) _ _
          (for_range-ind (λ i r. Gives (HasSid sid) r)
            (if ltb cid.size cid.new_size then cid.new_size else cid.size) (drop_server cid) (ok s)
            h (λ i r l k. drop_server-HasSid sid cid i r k))
          (λ t k. k))

-- Unless the vote ACK fails, which starts an election.
pub after_vote_ack-HasSid :
    (sid : ℕ) (net : Net) (s : Server)
    → net.vote_ack_rc s ≡ sent
    → HasSid sid s
    → Gives (HasSid sid) (after_vote_ack net s)
unfolding after_vote_ack
after_vote_ack-HasSid sid net s e h =
    subst (λ r. Gives (HasSid sid) (on_ack net (call send_vote_ack s) r)) (sym e) h
