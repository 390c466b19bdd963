-- ===== src/Server/VoteRequests.antt =====
-- src/dare/dare_server.c: whom poll_vote_requests votes for.
use apus.Base.{
  ℕ, ◌≡◌, ◌<◌, ◌≤◌, inl, inr, refl, sym, ◌∙◌, ap, subst, false, not, ◌&&◌, ◌==◌, for_range,
  for_range-ind, some, List, [], get_or, arith,
}
use apus.Config.Cid.{get_group_size}
use apus.Log.State.{NcBuf}
use apus.Log.Scan.{log_entries_to_nc_buf}
use apus.Server.Sid.{sid_get_idx, sid_get_l, sid_get_term, sid_set_l, sid_set_idx, sid_set_term}
use apus.Server.State.{Server, VoteReq, revoke_log_access, restore_log_access, replicate_vote}
use apus.Server.Step.{crash, ok, Net, sent, call, request_at, ◌>>=◌, set_log, stop_hb_event}
use apus.Server.Gives.{
  Gives, bind-Gives, map-Gives, self-Gives, of-Gives, in_fuel-Gives, if-Gives,
  exit_unless_zero-Gives,
}
use apus.Server.Election.{fill_nc_buf, stop_leading, filled}
use apus.Server.Vote.{
  look_at, choose, Choice, last_entry, raise_term, vote_for, decide_vote, examine,
  poll_vote_requests, set_requests, Look,
}
use apus.Server.HighestTerm.{IsKept, look_at-IsKept, IsHighest, look-IsHighest, choices-IsHighest}
use apus.Server.VoteSafety.{IsRecent, Found, chosen_lem}
use apus.Server.KeepSid.{
  HasSid, server_update_sid-HasSid, stop_leading-HasSid, update_cid-HasSid, after_vote_ack-HasSid,
}

-- What poll_vote_requests does with the state identifier. The term is raised to the highest one of
-- the requests. A vote goes to a request whose SID is
-- not smaller than the own one with its flag set, and whose log is as recent as the local one.
pub data Outcome (s : Server) (sid : ℕ) : Type 0 where
  kept : sid ≡ s.ctrl.sid → Outcome s sid
  followed :
      sid ≡ get_or s.ctrl.hb (sid_get_idx s.ctrl.sid) 0
      → sid_get_term sid ≡ sid_get_term s.ctrl.sid
      → Outcome s sid
  raised :
      (t : ℕ)
      → sid ≡ sid_set_idx (sid_set_term s.ctrl.sid t) s.config.idx
      → IsHighest s t
      → Outcome s sid
  voted :
      (i : ℕ) (ds : NcBuf) (last : ℕ × ℕ)
      → i < get_group_size s.config.cid
      → sid ≡ (request_at s.ctrl.vote_req i).sid
      → sid_set_l s.ctrl.sid ≤ sid
      → log_entries_to_nc_buf s.log ≡ some ds
      → last_entry (filled s ds) (get_or (filled s ds).nc_buf s.config.idx []) ≡ ok last
      → IsRecent
          (request_at s.ctrl.vote_req i)
          (record { sid = 0; index = last.0; term = last.1; cid = s.config.cid })
      → Outcome s sid

abbrev HasOutcome : Server → Server → Type 0
HasOutcome s t = Outcome s t.ctrl.sid

vote_for-HasSid :
    (net : Net) (best : VoteReq) (s : Server)
    → ((t : Server) → net.vote_ack_rc t ≡ sent)
    → Gives (HasSid best.sid) (vote_for net best s)
unfolding vote_for
vote_for-HasSid net best s ack =
    let P = HasSid best.sid in
    bind-Gives P P _ _ (server_update_sid-HasSid best.sid s.ctrl.sid (stop_hb_event s)) (λ s1 h1.
      bind-Gives (λ r. P r.1) P _ _ (update_cid-HasSid best.sid best.cid s1 h1)
        (λ r h2.
          bind-Gives P P _ _
            (exit_unless_zero-Gives P (net.replicate_vote_rc r.1) (call replicate_vote r.1) h2)
            (λ s2 h3.
              bind-Gives P P _ _
                (exit_unless_zero-Gives P (net.restore_rc (stop_leading s2))
                  (call restore_log_access (stop_leading s2)) (stop_leading-HasSid best.sid s2 h3))
                (λ s3 h4. after_vote_ack-HasSid best.sid net s3 (ack s3) h4))))

set_l-pos : (sid : ℕ) → 0 < sid_set_l sid
unfolding sid_set_l
set_l-pos sid = ground arith

-- The state at the decision.
abbrev examined : List VoteReq → NcBuf → Server → Server
examined reqs ds s = set_log (filled s ds) (call revoke_log_access (set_requests reqs s))

module _ (net : Net) (s : Server) (reqs : List VoteReq) (ds : NcBuf) (last : ℕ × ℕ) (b : ℕ)
    (highest : IsHighest s (sid_get_term b)) (ack : (t : Server) → net.vote_ack_rc t ≡ sent)
    (kept_reqs : IsKept s.ctrl.vote_req (b, reqs)) (buf : log_entries_to_nc_buf s.log ≡ some ds)
    (tail : last_entry (filled s ds) (get_or (filled s ds).nc_buf s.config.idx []) ≡ ok last) where
  abbrev own : VoteReq
  own = record { sid = sid_set_l s.ctrl.sid; index = last.0; term = last.1; cid = s.config.cid }

  choice-voted :
      (c : Choice)
      → Found reqs own (get_group_size s.config.cid) c
      → (c.best.sid == sid_set_l s.ctrl.sid) ≡ false
      → Outcome s c.best.sid
  choice-voted c f ne = elim f.chosen [
    | inl e ↦ absurd (ground (arith, ne, ap (λ (r : VoteReq). r.sid) e))
    | inr (i, l, e) ↦ elim (kept_reqs i) [
      | inl k ↦
          voted i ds last l (ap (λ (r : VoteReq). r.sid) (e ∙ k)) f.larger buf tail
            (subst (λ r. IsRecent r own) (e ∙ k) f.recent)
      | inr z ↦
          absurd (omega (arith, z, ap (λ (r : VoteReq). r.sid) e, f.larger, set_l-pos s.ctrl.sid))
    ]
  ]

  decide_vote-Outcome :
      Gives (HasOutcome s) (decide_vote net (sid_set_l s.ctrl.sid) b last (examined reqs ds s))
  unfolding decide_vote raise_term
  decide_vote-Outcome =
      let n = get_group_size s.config.cid in
      let c =
        for_range n choose (record { best = own; highest_term = sid_get_term b; reqs = reqs }) in
      let t = set_requests c.reqs (examined reqs ds s) in
      if-Gives (HasOutcome s) (c.best.sid == sid_set_l s.ctrl.sid) _ _
        (λ e.
          map-Gives (HasSid _) (HasOutcome s) _
            (λ u h. raised c.highest_term h (choices-IsHighest s _ highest kept_reqs))
            (server_update_sid-HasSid
              (sid_set_idx (sid_set_term s.ctrl.sid c.highest_term) s.config.idx) s.ctrl.sid t))
        (λ e.
          map-Gives (HasSid c.best.sid) (HasOutcome s) _
            (λ u h.
              subst (Outcome s) (sym h) (choice-voted c (chosen_lem reqs own n (sid_get_term b)) e))
            (vote_for-HasSid net c.best t ack))

module _ (net : Net) (s : Server) (ack : (t : Server) → net.vote_ack_rc t ≡ sent) where
  examine-Outcome :
      (l : Look)
      → IsKept s.ctrl.vote_req l
      → IsHighest s (sid_get_term l.0)
      → Gives (HasOutcome s) (examine net (sid_set_l s.ctrl.sid) l.0 (set_requests l.1 s))
  unfolding examine fill_nc_buf
  examine-Outcome l k top =
      let Q = HasOutcome s in
      let start = call revoke_log_access (set_requests l.1 s) in
      let P = (λ (t : Server).
        (ds : NcBuf) × (log_entries_to_nc_buf s.log ≡ some ds) × (t ≡ examined l.1 ds s)) in
      bind-Gives (λ t. t ≡ start) Q _ _
        (exit_unless_zero-Gives (λ t. t ≡ start) (net.revoke_rc (set_requests l.1 s)) start refl)
        (λ t e.
          subst
            (λ u. Gives Q (
              fill_nc_buf u >>= λ v.
              last_entry v.log (get_or v.log.nc_buf v.config.idx []) >>= λ last.
              decide_vote net (sid_set_l s.ctrl.sid) l.0 last v))
            (sym e)
            (bind-Gives P Q _ _
              (in_fuel-Gives P (log_entries_to_nc_buf s.log) _
                (λ ds h. if-Gives P _ crash (ok _) (λ e. tt) (λ e. (ds, h, refl))))
              (λ u (ds, h, e).
                subst
                  (λ v. Gives Q (
                    last_entry v.log (get_or v.log.nc_buf v.config.idx []) >>= λ last.
                    decide_vote net (sid_set_l s.ctrl.sid) l.0 last v))
                  (sym e)
                  (bind-Gives _ Q _ _
                    (self-Gives
                      (last_entry (filled s ds) (get_or (filled s ds).nc_buf s.config.idx [])))
                    (λ last q. decide_vote-Outcome net s l.1 ds last l.0 top ack k h q)))))

  poll_vote_requests-Gives : Gives (HasOutcome s) (poll_vote_requests net s)
  unfolding poll_vote_requests
  poll_vote_requests-Gives =
      let hb = get_or s.ctrl.hb (sid_get_idx s.ctrl.sid) 0 in
      let n = get_group_size s.config.cid in
      let look = for_range n (look_at s.config.idx) (sid_set_l s.ctrl.sid, s.ctrl.vote_req) in
      if-Gives (HasOutcome s) (sid_get_l s.ctrl.sid) (ok s) _ (λ e. kept refl)
        (λ e.
          if-Gives (HasOutcome s) (not (hb == 0) && sid_get_term hb == sid_get_term s.ctrl.sid) _ _
            (λ k.
              map-Gives (HasSid hb) (HasOutcome s) _
                (λ t h. followed h (
                  subst (λ x. sid_get_term x ≡ sid_get_term s.ctrl.sid) (sym h)
                    (ground (arith, k))))
                (server_update_sid-HasSid hb s.ctrl.sid s))
            (λ k.
              if-Gives (HasOutcome s) (look.0 == sid_set_l s.ctrl.sid) _ _ (λ o. kept refl)
                (λ o.
                  examine-Outcome look
                    (for_range-ind (λ i l. IsKept s.ctrl.vote_req l) n (look_at s.config.idx)
                      (sid_set_l s.ctrl.sid, s.ctrl.vote_req) (λ i. inl refl)
                      (λ i l h q. look_at-IsKept s.ctrl.vote_req s.config.idx i l q))
                    (look-IsHighest (sid_set_l s.ctrl.sid) s
                      (λ e. absurd (ground (arith, o, e)))))))

-- Provided that the vote ACK can be sent, poll_vote_requests, where it returns, keeps the state
-- identifier, follows a server of the same term, takes the term of a request for its own index, which
-- no request of another server exceeds, or votes: then for a request whose SID is not smaller than
-- the own one with its flag set, and whose log is as recent as the local one.
pub poll_vote_requests-Outcome :
    (net : Net) (s t : Server)
    → ((u : Server) → net.vote_ack_rc u ≡ sent)
    → poll_vote_requests net s ≡ ok t
    → Outcome s t.ctrl.sid
poll_vote_requests-Outcome net s t ack e =
    of-Gives (HasOutcome s) (poll_vote_requests net s) t (poll_vote_requests-Gives net s ack) e
