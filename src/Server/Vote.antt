-- ===== src/Server/Vote.antt =====
-- src/dare/dare_server.c: poll_vote_requests.
use apus.Base.{
  ℕ, Bool, not, ◌&&◌, ◌||◌, none, some, List, [], ◌∷◌, ◌==◌, ltb, leb, if◌then◌else◌, set, get_or,
  for_range,
}
use apus.Config.Cid.{get_group_size}
use apus.Log.State.{Log, Det, NcBuf}
use apus.Log.Entry.{entry_idx, entry_term}
use apus.Log.Offsets.{log_get_entry}
use apus.Log.Scan.{log_get_tail}
use apus.Server.Sid.{sid_get_idx, sid_get_l, sid_get_term, sid_set_l, sid_set_idx, sid_set_term}
use apus.Server.State.{Server, VoteReq, revoke_log_access, restore_log_access, replicate_vote}
use apus.Server.Step.{
  Result, ok, crash, ◌>>=◌, in_fuel, exit_unless_zero, stop_hb_event, call, Net, request_at,
}
use apus.Server.Election.{server_update_sid, fill_nc_buf, stop_leading, after_vote_ack, update_cid}

-- Requests, and the best SID among them: the first loop.
abbrev pub Look : Type 0
Look = ℕ × List VoteReq

abbrev pub drop : ℕ → List VoteReq → List VoteReq
drop i reqs = set reqs i (record (request_at reqs i) { sid = 0 })

unfoldable pub look_at : ℕ → ℕ → Look → Look
look_at idx i (best, reqs) =
    if i == idx
    then (best, reqs)
    else if leb (request_at reqs i).sid best
    then (best, drop i reqs)
    else ((request_at reqs i).sid, reqs)

-- The local variables of the second loop: the best request, the highest term, and the requests.
pub record Choice : Type 0 where
  pub best : VoteReq
  pub highest_term : ℕ
  pub reqs : List VoteReq

-- The last entry of the request is before that of the best one.
unfoldable pub is_outdated : VoteReq → VoteReq → Bool
is_outdated best req = ltb req.term best.term || best.term == req.term && ltb req.index best.index

unfoldable pub choose : ℕ → Choice → Choice
choose i c =
    let req = request_at c.reqs i in
    if ltb req.sid c.best.sid
    then record c { reqs = drop i c.reqs }
    else let t =
        (if ltb c.highest_term (sid_get_term req.sid)
          then sid_get_term req.sid
          else c.highest_term) in
      if is_outdated c.best req
      then record c { highest_term = t; reqs = drop i c.reqs }
      else record { best = req; highest_term = t; reqs = drop i c.reqs }

abbrev pub last_det : Det → NcBuf → Det
last_det d [] = d
last_det d (e ∷ ds) = last_det e ds

-- Index and term of the last entry that is not committed, or else of the tail.
unfoldable pub last_entry : Log → NcBuf → Result (ℕ × ℕ)
last_entry log (d ∷ ds) = ok ((last_det d ds).idx, (last_det d ds).term)
last_entry log [] = do
  tail ← in_fuel (log_get_tail log)
  if tail == log.len then ok (0, 0) else elim (log_get_entry log tail) [
    | none ↦ crash
    | some entry ↦ ok (entry_idx log.mem entry, entry_term log.mem entry)
  ]

abbrev pub set_requests : List VoteReq → Server → Server
set_requests reqs s = record s { ctrl = record s.ctrl { vote_req = reqs } }

-- The local log is better than those of the candidates: take the highest term, and vote for nobody.
unfoldable pub raise_term : ℕ → Server → Result Server
raise_term term s =
    server_update_sid (sid_set_idx (sid_set_term s.ctrl.sid term) s.config.idx) s.ctrl.sid s

unfoldable pub vote_for : Net → VoteReq → Server → Result Server
vote_for net best s = do
  s ← server_update_sid best.sid s.ctrl.sid (stop_hb_event s)
  r ← update_cid best.cid s
  let s = r.1
  s ← exit_unless_zero (net.replicate_vote_rc s) (call replicate_vote s)
  let s = stop_leading s
  s ← exit_unless_zero (net.restore_rc s) (call restore_log_access s)
  after_vote_ack net s

-- The local variables before the second loop. The configuration is not read before a request is
-- chosen.
abbrev pub start_choice : ℕ → ℕ × ℕ → ℕ → Server → Choice
start_choice old_sid last best_sid s = record {
  best = record { sid = old_sid; index = last.0; term = last.1; cid = s.config.cid };
  highest_term = sid_get_term best_sid;
  reqs = s.ctrl.vote_req;
}

unfoldable pub decide_vote : Net → ℕ → ℕ → ℕ × ℕ → Server → Result Server
decide_vote net old_sid best_sid last s =
    let c = for_range (get_group_size s.config.cid) choose (start_choice old_sid last best_sid s) in
    let s = set_requests c.reqs s in
    if c.best.sid == old_sid then raise_term c.highest_term s else vote_for net c.best s

-- The up-to-date test on the requests, with exclusive access to the log.
unfoldable pub examine : Net → ℕ → ℕ → Server → Result Server
examine net old_sid best_sid s = do
  s ← exit_unless_zero (net.revoke_rc s) (call revoke_log_access s)
  s ← fill_nc_buf s
  last ← last_entry s.log (get_or s.log.nc_buf s.config.idx [])
  decide_vote net old_sid best_sid last s

unfoldable pub poll_vote_requests : Net → Server → Result Server
poll_vote_requests net s =
    let sid = s.ctrl.sid in
    let hb = get_or s.ctrl.hb (sid_get_idx sid) 0 in
    if sid_get_l sid
    then ok s
    else if not (hb == 0) && sid_get_term hb == sid_get_term sid
    then server_update_sid hb sid s
    else let old_sid = sid_set_l sid in
      let look =
        for_range (get_group_size s.config.cid) (look_at s.config.idx) (old_sid, s.ctrl.vote_req) in
      let s = set_requests look.1 s in
      if look.0 == old_sid then ok s else examine net old_sid look.0 s
