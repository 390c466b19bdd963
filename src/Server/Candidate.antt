-- ===== src/Server/Candidate.antt =====
-- src/dare/dare_server.c: the state that start_election leaves.
use apus.Base.{
  ℕ, zero, suc, ◌+◌, ◌^◌, ◌≡◌, ◌<◌, ◌≤◌, inl, inr, refl, sym, ◌∙◌, ap, subst, true, false, not,
  ◌&&◌, ◌==◌, ltb, for_range, for_range-ind, get_or, set, get_or-set_self, get_or-set_ne, arith,
  length, length-set, Bool-cases, List,
}
use apus.Config.Cid.{get_group_size}
use apus.Server.Sid.{sid_get_term, is_candidate, flag}
use apus.Server.State.{
  Server, revoke_log_access, hb_receive_cb, election_timeout, send_vote_request,
}
use apus.Server.Step.{ok, exit_unless_zero, ◌>>=◌, Net, set_sid, call, set_hb_event, shutdown}
use apus.Server.Gives.{Gives, bind-Gives, of-Gives, if-Gives, exit_unless_zero-Gives}
use apus.Server.Election.{start_election, next_sid, clear_vote, server_update_sid}
use apus.Server.Count.{has_voted}
use apus.Server.Majority.{tally, old_votes, new_votes, next_sid_eq, candidate_at}

-- The votes of the first `n` servers are cleared; the rest is that of `s`.
record Cleared (s : Server) (n : ℕ) (t : Server) : Type 0 where
  sid : t.ctrl.sid ≡ next_sid s
  len : t.log.len ≡ s.log.len
  idx : t.config.idx ≡ s.config.idx
  cid : t.config.cid ≡ s.config.cid
  count : length t.ctrl.vote_ack ≡ length s.ctrl.vote_ack
  cleared : (i : ℕ) → i < n → get_or t.ctrl.vote_ack i 0 ≡ s.log.len

cleared_next :
    (xs : List ℕ) (n i v : ℕ)
    → n < length xs
    → ((j : ℕ) → j < n → get_or xs j 0 ≡ v)
    → i < suc n
    → get_or (set xs n v) i 0 ≡ v
cleared_next xs n i v h k l = elim (Bool-cases (n == i)) [
  | inl e ↦
      subst (λ j. get_or (set xs n v) j 0 ≡ v) (ground (arith, e)) (get_or-set_self xs n v 0 h)
  | inr e ↦ get_or-set_ne xs n i v 0 (ground (arith, e)) ∙ k i (ground (arith, e, l))
]

clear_vote-Cleared :
    (s : Server) (n : ℕ) (t : Server)
    → n < length s.ctrl.vote_ack
    → Cleared s n t
    → Cleared s (suc n) (clear_vote n t)
unfolding clear_vote
clear_vote-Cleared s n t h c = record {
  sid = c.sid;
  len = c.len;
  idx = c.idx;
  cid = c.cid;
  count = length-set t.ctrl.vote_ack n t.log.len ∙ c.count;
  cleared = λ i l.
      subst (λ v. get_or (set t.ctrl.vote_ack n v) i 0 ≡ s.log.len) (sym c.len)
        (cleared_next t.ctrl.vote_ack n i s.log.len (omega (arith, h, c.count)) c.cleared l);
}

-- The loop, with the size of the group that it finds.
clear_votes-Cleared :
    (s u : Server)
    → get_group_size s.config.cid ≤ length s.ctrl.vote_ack
    → Cleared s 0 u
    → Cleared s (get_group_size s.config.cid) (for_range (get_group_size u.config.cid) clear_vote u)
clear_votes-Cleared s u h c =
    subst (λ x. Cleared s (get_group_size s.config.cid) (for_range (get_group_size x) clear_vote u))
      (sym c.cid)
      (for_range-ind (Cleared s) (get_group_size s.config.cid) clear_vote u c
        (λ i t l k. clear_vote-Cleared s i t (omega (arith, l, h)) k))

start-Cleared : (s : Server) → Cleared s 0 (call revoke_log_access (set_sid (next_sid s) s))
start-Cleared s = record {
  sid = refl;
  len = refl;
  idx = refl;
  cid = refl;
  count = refl;
  cleared = λ i l. absurd (omega (arith, l));
}

send-Cleared :
    (s u : Server) (n : ℕ)
    → Cleared s n u
    → Cleared s n (call send_vote_request (set_hb_event hb_receive_cb election_timeout u))
send-Cleared s u n c = record {
  sid = c.sid;
  len = c.len;
  idx = c.idx;
  cid = c.cid;
  count = c.count;
  cleared = c.cleared;
}

start_election-Cleared :
    (net : Net) (s : Server)
    → get_group_size s.config.cid ≤ length s.ctrl.vote_ack
    → Gives (Cleared s (get_group_size s.config.cid)) (start_election net s)
unfolding start_election server_update_sid
start_election-Cleared net s h =
    let n = get_group_size s.config.cid in
    let P = Cleared s n in
    let start = set_sid (next_sid s) s in
    let loop = (λ (u : Server).
      set_hb_event hb_receive_cb election_timeout
        (for_range (get_group_size u.config.cid) clear_vote u)) in
    let end = (λ (u : Server).
      exit_unless_zero (net.vote_request_rc (loop u)) (call send_vote_request (loop u))) in
    let mid = (λ (t : Server). exit_unless_zero (net.revoke_rc t) (call revoke_log_access t)) in
    bind-Gives (λ t. t ≡ start) P _ (λ t. mid t >>= end)
      (if-Gives (λ t. t ≡ start) (s.ctrl.sid == s.ctrl.sid) (ok start) shutdown (λ e. refl)
        (λ e. tt))
      (λ t e.
        bind-Gives (Cleared s 0) P (mid t) end
          (exit_unless_zero-Gives (Cleared s 0) (net.revoke_rc t) (call revoke_log_access t)
            (subst (λ u. Cleared s 0 (call revoke_log_access u)) (sym e) (start-Cleared s)))
          (λ u c.
            exit_unless_zero-Gives P (net.vote_request_rc (loop u))
              (call send_vote_request (loop u)) (send-Cleared s _ n (clear_votes-Cleared s u h c))))

not_voted : (idx i len ack : ℕ) → ack ≡ len → (not (i == idx) && not (len == ack)) ≡ false
not_voted idx i len ack h = ground (arith, h)

no_votes :
    (size : ℕ) (s t : Server) (n m : ℕ)
    → m ≤ n
    → Cleared s n t
    → tally (λ i. has_voted t i && ltb i size) m ≡ 0
unfolding has_voted
no_votes size s t n zero h c = refl
no_votes size s t n (suc m) h c =
    let e =
      not_voted t.config.idx m t.log.len (get_or t.ctrl.vote_ack m 0)
        (c.cleared m (omega (arith, h)) ∙ sym c.len) in
    let votes = tally (λ i. has_voted t i && ltb i size) m in
    ap (λ b. votes + flag (b && ltb m size)) e
    ∙ omega (arith, no_votes size s t n m (omega (arith, h)) c)

-- Where start_election returns, the term is one larger. The server then is the candidate of a
-- larger SID, and no vote of an earlier election is counted for it, neither in the old group nor in
-- the new one.
pub start_election-Candidate :
    (net : Net) (s t : Server)
    → get_group_size s.config.cid ≤ length s.ctrl.vote_ack
    → sid_get_term s.ctrl.sid + 1 < 2 ^ 55
    → s.config.idx < 256
    → start_election net s ≡ ok t
    → (sid_get_term t.ctrl.sid ≡ sid_get_term s.ctrl.sid + 1)
      × (s.ctrl.sid < t.ctrl.sid)
      × (is_candidate t.ctrl.sid t.config.idx ≡ true)
      × (old_votes t (get_group_size s.config.cid) ≡ 0)
      × (new_votes t (get_group_size s.config.cid) ≡ 0)
unfolding sid_get_term
start_election-Candidate net s t h l k e =
    let n = get_group_size s.config.cid in
    let c = of-Gives (Cleared s n) (start_election net s) t (start_election-Cleared net s h) e in
    let q = c.sid ∙ next_sid_eq s l k in
    (
      omega (arith, q, k),
      omega (arith, q, k),
      subst (λ x. is_candidate t.ctrl.sid x ≡ true) (sym c.idx)
          (subst (λ x. is_candidate x s.config.idx ≡ true) (sym q) (candidate_at _ s.config.idx k)),
      no_votes t.config.cid.size s t n n (omega arith) c,
      no_votes t.config.cid.new_size s t n n (omega arith) c,
    )
