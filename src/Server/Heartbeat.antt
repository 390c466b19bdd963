-- ===== src/Server/Heartbeat.antt =====
-- src/dare/dare_server.c: the heartbeats, to_adjust_cb, hb_receive_cb and hb_send_cb.
use apus.Base.{
  ℕ, ◌+◌, ◌*◌, Bool, true, false, not, ◌&&◌, ◌||◌, ◌==◌, ltb, leb, if◌then◌else◌, get_or, for_range,
}
use apus.Config.Cid.{get_group_size, is_server_on}
use apus.Server.Sid.{sid_get_idx, sid_get_l, sid_get_term}
use apus.Server.State.{Server, hb_timeout, hb_period, off, Delay, send_hb_reply, send_hb}
use apus.Server.Step.{Result, ok, shutdown, ◌>>=◌, set_hb, set_log, set_to_adjust_event, call, Net}
use apus.Server.Election.{server_update_sid, start_election, server_to_follower, hb_timeout_value}

-- Whether server `i` is another member.
unfoldable pub is_peer : Server → ℕ → Bool
is_peer s i = not (i == s.config.idx) && is_server_on s.config.cid i

abbrev pub hb_at : Server → ℕ → ℕ
hb_at s i = get_or s.ctrl.hb i 0

abbrev pub set_latest : ℕ → Server → Server
set_latest hb s = record s { vars = record s.vars { latest_hb_received = hb } }

-- A heartbeat after a suspicion was a false positive, and lengthens the timeout.
unfoldable pub note_hb : ℕ → Server → Server
note_hb hb s =
    if hb == 0
    then record s { vars = record s.vars { leader_failed = true } }
    else if s.vars.leader_failed
    then record s {
      vars = record s.vars {
        latest_hb_received = hb;
        fp_count = s.vars.fp_count + 1;
        leader_failed = false;
        recomputed_hb_timeout = s.vars.recomputed_hb_timeout + 10;
      };
    }
    else set_latest hb s

unfoldable pub to_adjust : Server → Server
to_adjust s =
    if s.vars.hb_timeout_flag
    then set_to_adjust_event off s
    else let leader = sid_get_idx s.ctrl.sid in
      let hb = hb_at s leader in
      let s = record s { vars = record s.vars { total_count = s.vars.total_count + 1 } } in
      let s = note_hb hb (set_hb leader 0 s) in
      if ltb 100000 s.vars.total_count && ltb (s.vars.fp_count * 10000) s.vars.total_count
      then set_to_adjust_event off (record s { vars = record s.vars { hb_timeout_flag = true } })
      else set_to_adjust_event (hb_timeout s.vars.recomputed_hb_timeout) s

-- The local variables of hb_receive_cb.
pub record HbPoll : Type 0 where
  pub timeout : Bool
  pub new_sid : ℕ
  pub server : Server

-- The heartbeat of a server, and the state after it has been read.
unfoldable pub read_hb : ℕ → ℕ → Server → ℕ × Server
read_hb leader i s =
    if i == leader
    then (if s.vars.latest_hb_received == 0
        then (hb_at s i, set_latest 0 (set_hb i 0 s))
        else (s.vars.latest_hb_received, set_latest 0 s))
    else (hb_at s i, set_hb i 0 s)

unfoldable pub receive_hb : ℕ → ℕ → HbPoll → HbPoll
receive_hb leader i p =
    let r = read_hb leader i p.server in
    if not (is_peer p.server i)
    then p
    else if r.0 == 0
    then record p { server = r.1 }
    else if ltb r.0 p.new_sid
    then (if sid_get_l r.0
        then record p {
          server = call (send_hb_reply i) (record r.1 {
            vars = record r.1.vars { recomputed_hb_timeout = r.1.vars.recomputed_hb_timeout + 1 };
          });
        }
        else record p { server = r.1 })
    else record {
      timeout = false;
      new_sid = (if sid_get_l r.0 then r.0 else p.new_sid);
      server = r.1;
    }

abbrev pub rearm_hb : Delay → Server → Server
rearm_hb d s = record s {
  timers = record s.timers { hb_event = record s.timers.hb_event { repeat = d } };
}

unfoldable pub hb_receive : Net → Server → Result Server
hb_receive net s =
    let size = get_group_size s.config.cid in
    if leb size s.config.idx
    then ok (rearm_hb (hb_timeout_value s) s)
    else let s = set_log (record s.log { tail = s.log.len }) s in
      let p =
        for_range size (receive_hb (sid_get_idx s.ctrl.sid))
          (record { timeout = true; new_sid = s.ctrl.sid; server = s }) in
      let old_sid = p.server.ctrl.sid in
      if p.timeout
      then start_election net (rearm_hb off p.server)
      else if p.new_sid == old_sid
      then ok (rearm_hb (hb_timeout_value p.server) p.server)
      else (do
        t ← server_update_sid p.new_sid old_sid p.server
        if sid_get_term old_sid == sid_get_term t.ctrl.sid then ok t else server_to_follower net t)

-- The loop of hb_send_cb: it stops at the first peer whose heartbeat is not below the own SID.
pub record SendPoll : Type 0 where
  pub stop : Bool
  pub server : Server

unfoldable pub check_reply : ℕ → SendPoll → SendPoll
check_reply i p =
    if p.stop || not (is_peer p.server i)
    then p
    else record { stop = leb p.server.ctrl.sid (hb_at p.server i); server = set_hb i 0 p.server }

unfoldable pub hb_send : Net → Server → Result Server
hb_send net s =
    let p =
      for_range (get_group_size s.config.cid) check_reply (record { stop = false; server = s }) in
    let t = p.server in
    if p.stop
    then server_update_sid s.ctrl.sid t.ctrl.sid t >>= server_to_follower net
    else if net.hb_rc t == 0
    then ok (rearm_hb hb_period (call send_hb t))
    else shutdown
