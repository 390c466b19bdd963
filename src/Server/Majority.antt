-- ===== src/Server/Majority.antt =====
-- src/dare/dare_server.c: the votes that poll_vote_count counts, and that start_election clears.
use apus.Base.{
  ℕ, zero, suc, ◌+◌, ◌/◌, ◌*◌, ◌^◌, ◌≡◌, ◌<◌, ◌⊎◌, ◌≢◌, inl, inr, refl, sym, ◌∙◌, ap, subst, Bool,
  true, false, ◌&&◌, ◌||◌, ◌==◌, ltb, leb, if◌then◌else◌, for_range-ind, get_or, arith, Bool-cases,
}
use apus.Config.Cid.{Cid, get_group_size, cid_stable}
use apus.Server.Sid.{
  sid_get_term, sid_get_idx, sid_get_l, sid_set_idx, sid_set_term, sid_unset_l, is_candidate,
  is_none, flag,
}
use apus.Server.State.{Server}
use apus.Server.Step.{ok, Net}
use apus.Server.Gives.{of-Gives, const-Gives, if-Gives, if-holds}
use apus.Server.Election.{next_sid}
use apus.Server.Count.{
  Count, count_vote, add_vote, count_votes, take_vote, has_voted, is_elected, poll_vote_count,
}

-- How many of the numbers below `n` pass the test.
abbrev pub tally : (ℕ → Bool) → ℕ → ℕ
tally p zero = 0
tally p (suc n) = tally p n + flag (p n)

-- What the count of the votes leaves alone.
abbrev IsSame : Server → Server → Type 0
IsSame s t =
    (t.ctrl.sid ≡ s.ctrl.sid)
    × (t.ctrl.vote_ack ≡ s.ctrl.vote_ack)
    × (t.log.len ≡ s.log.len)
    × (t.config.idx ≡ s.config.idx)
    × (t.config.cid ≡ s.config.cid)

take_vote-IsSame : (s t : Server) (i c : ℕ) → IsSame s t → IsSame s (take_vote i c t)
unfolding take_vote
take_vote-IsSame s t i c h = if-holds (IsSame s) _ _ _ h h

-- The servers of the old and of the new group whose votes are in.
abbrev pub old_votes : Server → ℕ → ℕ
old_votes s n = tally (λ i. has_voted s i && ltb i s.config.cid.size) n

abbrev pub new_votes : Server → ℕ → ℕ
new_votes s n = tally (λ i. has_voted s i && ltb i s.config.cid.new_size) n

record Counted (s : Server) (n : ℕ) (c : Count) : Type 0 where
  same : IsSame s c.server
  old : c.old_count ≡ 1 + old_votes s n
  new : c.new_count ≡ 1 + new_votes s n

has_voted_eq : (s t : Server) (i : ℕ) → IsSame s t → has_voted t i ≡ has_voted s i
unfolding has_voted
has_voted_eq s t i h = cc (h.1, h.2, h.3)

flag_next :
    (a b : Bool) (m n : ℕ)
    → a ≡ true
    → m ≡ 1 + n
    → (if b then m + 1 else m) ≡ 1 + (n + flag (a && b))
flag_next a b m n h k = ground (arith, h, k)

flag_none : (a b : Bool) (m n : ℕ) → a ≡ false → m ≡ 1 + n → m ≡ 1 + (n + flag (a && b))
flag_none a b m n h k = ground (arith, h, k)

count_vote-Counted :
    (s : Server) (n : ℕ) (c : Count) → Counted s n c → Counted s (suc n) (count_vote n c)
unfolding count_vote add_vote
count_vote-Counted s n c k = elim (Bool-cases (has_voted c.server n)) [
  | inl e ↦
      let h = sym (has_voted_eq s c.server n k.same) ∙ e in
      subst (Counted s (suc n)) (sym (ap (λ b. if b then add_vote n c else c) e)) (record {
        same = take_vote-IsSame s c.server n (get_or c.server.ctrl.vote_ack n 0) k.same;
        old =
            ap (λ (x : Cid). if ltb n x.size then c.old_count + 1 else c.old_count) k.same.4
            ∙ flag_next (has_voted s n) (ltb n s.config.cid.size) c.old_count (old_votes s n) h
                k.old;
        new =
            ap (λ (x : Cid). if ltb n x.new_size then c.new_count + 1 else c.new_count) k.same.4
            ∙ flag_next (has_voted s n) (ltb n s.config.cid.new_size) c.new_count (new_votes s n) h
                k.new;
      })
  | inr e ↦
      let h = sym (has_voted_eq s c.server n k.same) ∙ e in
      subst (Counted s (suc n)) (sym (ap (λ b. if b then add_vote n c else c) e)) (record {
        same = k.same;
        old =
            flag_none (has_voted s n) (ltb n s.config.cid.size) c.old_count (old_votes s n) h k.old;
        new =
            flag_none (has_voted s n) (ltb n s.config.cid.new_size) c.new_count (new_votes s n) h
              k.new;
      })
]

count_votes-Counted : (s : Server) → Counted s (get_group_size s.config.cid) (count_votes s)
unfolding count_votes
count_votes-Counted s =
    for_range-ind (Counted s) (get_group_size s.config.cid) count_vote _
      (record { same = (refl, refl, refl, refl, refl); old = omega arith; new = omega arith })
      (λ i c l k. count_vote-Counted s i c k)

-- With its own vote, a server has those of more than half of the old group, and of the new one
-- while the configuration changes.
abbrev pub IsMajority : Server → Type 0
IsMajority s =
    let n = get_group_size s.config.cid in
    (s.config.cid.size / 2 < 1 + old_votes s n)
    × ((s.config.cid.state ≡ cid_stable) ⊎ (s.config.cid.new_size / 2 < 1 + new_votes s n))

elected-IsMajority :
    (size new_size state a b m n : ℕ)
    → (leb (size / 2 + 1) a && (state == cid_stable || leb (new_size / 2 + 1) b)) ≡ true
    → a ≡ 1 + m
    → b ≡ 1 + n
    → (size / 2 < 1 + m) × ((state ≡ cid_stable) ⊎ (new_size / 2 < 1 + n))
elected-IsMajority size new_size state a b m n e h k = (ground (arith, e, h), ground (arith, e, k))

is_elected-IsMajority : (s : Server) → is_elected (count_votes s) ≡ true → IsMajority s
unfolding is_elected
is_elected-IsMajority s e =
    let k = count_votes-Counted s in
    let c = (count_votes s).server.config.cid in
    let n = get_group_size s.config.cid in
    subst
      (λ (x : Cid).
        (x.size / 2 < 1 + old_votes s n)
        × ((x.state ≡ cid_stable) ⊎ (x.new_size / 2 < 1 + new_votes s n)))
      k.same.4
      (elected-IsMajority c.size c.new_size c.state _ _ (old_votes s n) (new_votes s n) e k.old
        k.new)

-- If poll_vote_count returns and the SID has changed, in particular if the server has become the
-- leader, then it has had the votes of a majority.
pub poll_vote_count-IsMajority :
    (net : Net) (s t : Server)
    → poll_vote_count net s ≡ ok t
    → t.ctrl.sid ≢ s.ctrl.sid
    → IsMajority s
unfolding poll_vote_count
poll_vote_count-IsMajority net s t e =
    let P = (λ (u : Server). u.ctrl.sid ≢ s.ctrl.sid → IsMajority s) in
    of-Gives P (poll_vote_count net s) t
      (if-Gives P (is_elected (count_votes s)) _ _
        (λ h. const-Gives P _ (λ u d. is_elected-IsMajority s h))
        (λ h d. absurd (d (count_votes-Counted s).same.0)))
      e

term_next :
    (sid idx : ℕ)
    → sid_get_term sid + 1 < 2 ^ 55
    → idx < 256
    → (sid_set_idx (sid_unset_l (sid_set_term 0 (sid_get_term sid + 1))) idx
        ≡ (sid_get_term sid + 1) * 512 + idx)
unfolding sid_get_term sid_set_idx sid_unset_l sid_set_term
term_next sid idx h k = ground arith

pub next_sid_eq :
    (s : Server)
    → sid_get_term s.ctrl.sid + 1 < 2 ^ 55
    → s.config.idx < 256
    → next_sid s ≡ (sid_get_term s.ctrl.sid + 1) * 512 + s.config.idx
unfolding next_sid
next_sid_eq s h k = term_next s.ctrl.sid s.config.idx h k

pub candidate_at : (t idx : ℕ) → idx < 256 → is_candidate ((t + 1) * 512 + idx) idx ≡ true
unfolding is_candidate sid_get_idx sid_get_l sid_get_term is_none
candidate_at t idx h = ground arith
