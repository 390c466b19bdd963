-- ===== src/Server/Recover.antt =====
-- src/dare/dare_server.c: poll_sm_requests, poll_sm_reply and recover_log_cb.
use apus.Base.{
  ℕ, ◌*◌, Bool, true, not, ◌&&◌, ◌||◌, Option, none, some, ◌==◌, ltb, leb, if◌then◌else◌, set,
  get_or, for_range, replicate,
}
use apus.Config.Cid.{get_group_size}
use apus.Log.State.{max_server_count, page_size}
use apus.Server.Sid.{sid_get_term}
use apus.Server.State.{
  Server, SmRep, now, rc_info_period, retransmit_period, recover_log_cb, update_rc_info_cb,
  create_db_snapshot, send_sm_reply,
}
use apus.Server.Step.{Result, ok, shutdown, crash, ◌>>=◌, set_sid, set_timer_event, call, Net}
use apus.Server.Election.{start_election, server_to_follower}

abbrev pub prereg_snapshot_size : ℕ
prereg_snapshot_size = 128 * page_size

-- What the local `snapshot` points to: the preregistered buffer or a new one.
pub data Buffer : Type 0 where
  prereg : Buffer
  allocated : Buffer

-- The local variable `snapshot`, which is not initialised, and the state.
abbrev pub SmPoll : Type 0
SmPoll = Option Buffer × Server

unfoldable pub make_snapshot : Net → SmPoll → SmPoll
make_snapshot net (buffer, s) = if s.state.snapshot then (buffer, s) else (
  some (if leb (net.db_size s) prereg_snapshot_size then prereg else allocated),
  call create_db_snapshot (record s { state = record s.state { snapshot = true } }),
)

unfoldable pub answer_request : Net → ℕ → SmPoll → Result SmPoll
answer_request net i (buffer, s) =
    let (pointer, t) =
      make_snapshot net
        (buffer, record s { ctrl = record s.ctrl { sm_req = set s.ctrl.sm_req i 0 } }) in
    elim pointer [
      | none ↦ crash
      | some b ↦
          if net.sm_reply_rc i t == 0 then ok (some b, call (send_sm_reply i) t) else shutdown
    ]

unfoldable pub sm_request_round : Net → ℕ → Result SmPoll → Result SmPoll
sm_request_round net i r = do
  p ← r
  if i == p.1.config.idx || get_or p.1.ctrl.sm_req i 0 == 0 then ok p else answer_request net i p

unfoldable pub poll_sm_requests : Net → Server → Result Server
poll_sm_requests net s =
    for_range (get_group_size s.config.cid) (sm_request_round net) (ok (none, s)) >>= λ p. ok p.1

abbrev pub no_reply : SmRep
no_reply = record { sid = 0; raddr = 0; rkey = 0; len = 0 }

unfoldable pub is_reply : Server → ℕ → Bool
is_reply s i =
    let reply = get_or s.ctrl.sm_rep i no_reply in
    not (i == s.config.idx)
    && ltb s.ctrl.sid reply.sid
    && not (reply.raddr == 0)
    && not (reply.rkey == 0)
    && not (reply.len == 0)

-- The first server with a reply.
unfoldable pub find_reply : Server → Option ℕ
find_reply s =
    for_range (get_group_size s.config.cid)
      (λ i found. elim found [ some j ↦ some j | none ↦ if is_reply s i then some i else none ])
      none

unfoldable pub recover_sm_from : Net → ℕ → Server → Result Server
recover_sm_from net target s =
    let r = net.recover_sm target (set_sid (get_or s.ctrl.sm_rep target no_reply).sid s) in
    let t = r.1 in
    if ltb 1 r.0
    then shutdown
    else if r.0 == 1
    then ok t
    else ok (
        set_timer_event recover_log_cb now (record t {
          ctrl = record t.ctrl { sm_rep = replicate max_server_count no_reply };
          state = record t.state { sm_recovered = true };
        }))

unfoldable pub poll_sm_reply : Net → Server → Result Server
poll_sm_reply net s = elim (find_reply s) [
  | none ↦ ok s
  | some target ↦ recover_sm_from net target s
]

unfoldable pub recover_log : Net → Server → Result Server
recover_log net s =
    let r = net.recover_log s in
    if ltb 1 r.0
    then shutdown
    else if r.0 == 1
    then ok (set_timer_event recover_log_cb retransmit_period r.1)
    else let t =
        set_timer_event update_rc_info_cb rc_info_period
          (record r.1 { state = record r.1.state { log_recovered = true } }) in
      if sid_get_term t.ctrl.sid == 0 then start_election net t else server_to_follower net t
