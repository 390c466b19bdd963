-- ===== src/Server/HbReceive.antt =====
-- src/dare/dare_server.c: the state identifier after hb_receive_cb.
use apus.Base.{
  ℕ, ◌≡◌, ◌≤◌, ◌⊎◌, inl, inr, refl, sym, ◌∙◌, ap, subst, true, false, not, ◌==◌, ltb, leb,
  if◌then◌else◌, for_range, for_range-ind, arith, Bool-cases,
}
use apus.Config.Cid.{get_group_size}
use apus.Server.Sid.{sid_get_idx, sid_get_l, sid_get_term}
use apus.Server.State.{
  Server, off, hb_receive_cb, election_timeout, send_vote_request, revoke_log_access,
}
use apus.Server.Step.{ok, Net, sent, set_log, ◌>>=◌, exit_unless_zero, call, set_hb_event}
use apus.Server.Gives.{
  Gives, bind-Gives, of-Gives, map-Gives, if-Gives, if-holds, if-cases, exit_unless_zero-Gives,
}
use apus.Server.KeepSid.{HasSid, server_update_sid-HasSid}
use apus.Server.Election.{
  server_update_sid, start_election, clear_vote, next_sid, server_to_follower,
}
use apus.Server.Heartbeat.{hb_receive, receive_hb, read_hb, HbPoll, is_peer, rearm_hb}
use apus.Server.Stale.{server_to_follower-HasSid}

-- Nothing but the SID matters for what follows: the state has the SID and the index of `s`.
abbrev IsLike : Server → Server → Type 0
IsLike s t = (t.ctrl.sid ≡ s.ctrl.sid) × (t.config.idx ≡ s.config.idx)

-- The own SID, or a larger one of a leader.
abbrev IsBetter : ℕ → ℕ → Type 0
IsBetter sid new = (new ≡ sid) ⊎ ((sid ≤ new) × (sid_get_l new ≡ true))

abbrev IsPoll : Server → HbPoll → Type 0
IsPoll s p = IsLike s p.server × IsBetter s.ctrl.sid p.new_sid

read_hb-IsLike : (s t : Server) (leader i : ℕ) → IsLike s t → IsLike s (read_hb leader i t).1
unfolding read_hb
read_hb-IsLike s t leader i h =
    if-holds (λ (r : ℕ × Server). IsLike s r.1) (i == leader) _ _
      (if-holds (λ (r : ℕ × Server). IsLike s r.1) (t.vars.latest_hb_received == 0) _ _ h h) h

better :
    (sid new hb : ℕ)
    → IsBetter sid new
    → ltb hb new ≡ false
    → IsBetter sid (if sid_get_l hb then hb else new)
better sid new hb (inl e) l = elim (Bool-cases (sid_get_l hb)) [
  | inl k ↦
      subst (IsBetter sid) (sym (ap (λ b. if b then hb else new) k)) (inr (ground (arith, e, l), k))
  | inr k ↦ subst (IsBetter sid) (sym (ap (λ b. if b then hb else new) k)) (inl e)
]
better sid new hb (inr (e, m)) l = elim (Bool-cases (sid_get_l hb)) [
  | inl k ↦
      subst (IsBetter sid) (sym (ap (λ b. if b then hb else new) k)) (inr (ground (arith, e, l), k))
  | inr k ↦ subst (IsBetter sid) (sym (ap (λ b. if b then hb else new) k)) (inr (e, m))
]

receive_hb-IsPoll :
    (s : Server) (leader i : ℕ) (p : HbPoll) → IsPoll s p → IsPoll s (receive_hb leader i p)
unfolding receive_hb
receive_hb-IsPoll s leader i p (h, b) =
    let q = read_hb-IsLike s p.server leader i h in
    let hb = (read_hb leader i p.server).0 in
    if-holds (IsPoll s) (not (is_peer p.server i)) _ _ (h, b)
      (if-holds (IsPoll s) (hb == 0) _ _ (q, b)
        (if-cases (IsPoll s) (ltb hb p.new_sid) _ _
          (λ e. if-holds (IsPoll s) (sid_get_l hb) _ _ (q, b) (q, b))
          (λ e. (q, better s.ctrl.sid p.new_sid hb b e))))

-- The SID after hb_receive_cb: kept, that of an own election, or a larger one of a leader.
abbrev pub IsHeard : Server → Server → Type 0
IsHeard s t =
    (t.ctrl.sid ≡ s.ctrl.sid)
    ⊎ (t.ctrl.sid ≡ next_sid s)
    ⊎ ((s.ctrl.sid ≤ t.ctrl.sid) × (sid_get_l t.ctrl.sid ≡ true))

heard_lem : (s t : Server) → IsBetter s.ctrl.sid t.ctrl.sid → IsHeard s t
heard_lem s t (inl e) = inl e
heard_lem s t (inr h) = inr (inr h)

start_election-HasSid :
    (net : Net) (s : Server) → Gives (HasSid (next_sid s)) (start_election net s)
unfolding start_election clear_vote
start_election-HasSid net s =
    let P = HasSid (next_sid s) in
    let loop = (λ (u : Server).
      set_hb_event hb_receive_cb election_timeout
        (for_range (get_group_size u.config.cid) clear_vote u)) in
    let end = (λ (u : Server).
      exit_unless_zero (net.vote_request_rc (loop u)) (call send_vote_request (loop u))) in
    let mid = (λ (t : Server). exit_unless_zero (net.revoke_rc t) (call revoke_log_access t)) in
    bind-Gives P P (server_update_sid (next_sid s) s.ctrl.sid s) (λ t. mid t >>= end)
      (server_update_sid-HasSid (next_sid s) s.ctrl.sid s)
      (λ t h.
        bind-Gives P P (mid t) end
          (exit_unless_zero-Gives P (net.revoke_rc t) (call revoke_log_access t) h)
          (λ u k.
            exit_unless_zero-Gives P (net.vote_request_rc (loop u))
              (call send_vote_request (loop u))
              (for_range-ind (λ i v. P v) (get_group_size u.config.cid) clear_vote u k
                (λ i v l q. q))))

next_sid-IsLike : (s t : Server) → IsLike s t → next_sid t ≡ next_sid s
unfolding next_sid
next_sid-IsLike s t h = cc (h.0, h.1)

abbrev listening : Server → HbPoll
listening s = record {
  timeout = true;
  new_sid = s.ctrl.sid;
  server = set_log (record s.log { tail = s.log.len }) s;
}

hb_receive-Gives :
    (net : Net) (s : Server)
    → ((u : Server) → net.vote_ack_rc u ≡ sent)
    → Gives (IsHeard s) (hb_receive net s)
unfolding hb_receive
hb_receive-Gives net s ack =
    let Q = IsHeard s in
    let n = get_group_size s.config.cid in
    let leader = sid_get_idx s.ctrl.sid in
    let start = listening s in
    let p = for_range n (receive_hb leader) start in
    let k =
      for_range-ind (λ i q. IsPoll s q) n (receive_hb leader) start ((refl, refl), inl refl)
        (λ i q l h. receive_hb-IsPoll s leader i q h) in
    if-Gives Q (leb n s.config.idx) (ok _) _ (λ e. inl refl)
      (λ e.
        if-Gives Q p.timeout (start_election net (rearm_hb off p.server)) _
          (λ o.
            map-Gives (HasSid (next_sid (rearm_hb off p.server))) Q _
              (λ t h. inr (inl (h ∙ next_sid-IsLike s (rearm_hb off p.server) k.0)))
              (start_election-HasSid net (rearm_hb off p.server)))
          (λ o.
            if-Gives Q (p.new_sid == p.server.ctrl.sid) (ok _) _ (λ e. inl k.0.0)
              (λ e.
                bind-Gives (HasSid p.new_sid) Q
                  (server_update_sid p.new_sid p.server.ctrl.sid p.server)
                  (λ t.
                    if sid_get_term p.server.ctrl.sid == sid_get_term t.ctrl.sid
                    then ok t
                    else server_to_follower net t)
                  (server_update_sid-HasSid p.new_sid p.server.ctrl.sid p.server)
                  (λ t h.
                    map-Gives (HasSid p.new_sid) Q _
                      (λ u q. heard_lem s u (subst (IsBetter s.ctrl.sid) (sym q) k.1))
                      (if-Gives (HasSid p.new_sid)
                        (sid_get_term p.server.ctrl.sid == sid_get_term t.ctrl.sid) (ok t)
                        (server_to_follower net t) (λ x. h)
                        (λ x. server_to_follower-HasSid net t p.new_sid ack h))))))

-- Provided that the vote ACK can be sent, hb_receive_cb, where it returns, keeps the state
-- identifier, starts an election, or takes up one that is not smaller and has the flag of a leader.
pub hb_receive-IsHeard :
    (net : Net) (s t : Server)
    → ((u : Server) → net.vote_ack_rc u ≡ sent)
    → hb_receive net s ≡ ok t
    → IsHeard s t
hb_receive-IsHeard net s t ack e =
    of-Gives (IsHeard s) (hb_receive net s) t (hb_receive-Gives net s ack) e
