-- ===== src/Server/HighestTerm.antt =====
-- src/dare/dare_server.c: the requests that poll_vote_requests looks at, and the highest term in them.
use apus.Base.{
  ℕ, zero, suc, ◌≡◌, ◌≢◌, ◌<◌, ◌≤◌, ◌⊎◌, inl, inr, refl, sym, ◌∙◌, ap, subst, ◌==◌, ltb,
  if◌then◌else◌, leb, for_range, for_range-ind, Bool-cases, List, [], ◌∷◌, set, arith, ltb→lt,
  leb→le,
}
use native.Mathlib.Decide.{ℕ_discrete}
use apus.Config.Cid.{get_group_size}
use apus.Server.Sid.{sid_get_term}
use apus.Server.State.{Server, VoteReq}
use apus.Server.Step.{request_at, no_request}
use apus.Server.Gives.{if-holds, if-cases}
use apus.Server.Vote.{look_at, choose, Choice, drop, Look, is_outdated}
use apus.Server.VoteSafety.{drop_ne}

set_self :
    (xs : List VoteReq) (i : ℕ) (v : VoteReq)
    → (request_at (set xs i v) i ≡ v) ⊎ (request_at (set xs i v) i ≡ no_request)
set_self [] i v = inr refl
set_self (x ∷ xs) zero v = inl refl
set_self (x ∷ xs) (suc i) v = set_self xs i v

drop_self : (i : ℕ) (reqs : List VoteReq) → (request_at (drop i reqs) i).sid ≡ 0
drop_self i reqs = elim (set_self reqs i (record (request_at reqs i) { sid = 0 })) [
  | inl e ↦ ap (λ (r : VoteReq). r.sid) e
  | inr e ↦ ap (λ (r : VoteReq). r.sid) e
]

-- A request is left alone or dropped.
abbrev pub IsKept : List VoteReq → Look → Type 0
IsKept reqs l = (i : ℕ) → (request_at l.1 i ≡ request_at reqs i) ⊎ ((request_at l.1 i).sid ≡ 0)

drop-IsKept :
    (reqs : List VoteReq) (i : ℕ) (l : Look) (b : ℕ) → IsKept reqs l → IsKept reqs (b, drop i l.1)
drop-IsKept reqs i l b h j = elim (Bool-cases (i == j)) [
  | inl e ↦
      inr (subst (λ k. (request_at (drop i l.1) k).sid ≡ 0) (ground (arith, e)) (drop_self i l.1))
  | inr e ↦
      subst (λ r. (r ≡ request_at reqs j) ⊎ (r.sid ≡ 0)) (sym (drop_ne i j l.1 (ground (arith, e))))
        (h j)
]

pub look_at-IsKept :
    (reqs : List VoteReq) (idx i : ℕ) (l : Look) → IsKept reqs l → IsKept reqs (look_at idx i l)
unfolding look_at
look_at-IsKept reqs idx i (b, rs) h =
    if-holds (IsKept reqs) (i == idx) (b, rs) _ h
      (if-holds (IsKept reqs) (leb (request_at rs i).sid b) (b, drop i rs) _
        (drop-IsKept reqs i (b, rs) b h) h)

abbrev sid_of : List VoteReq → ℕ → ℕ
sid_of reqs i = (request_at reqs i).sid

-- The largest SID that the first loop has met in the first `n` requests, those of the others.
record IsMax (idx old : ℕ) (reqs : List VoteReq) (n : ℕ) (l : Look) : Type 0 where
  not_below : (j : ℕ) → j < n → j ≢ idx → sid_of reqs j ≤ l.0
  is_one : (l.0 ≡ old) ⊎ ((j : ℕ) × (j < n) × (l.0 ≡ sid_of reqs j))
  unseen : (j : ℕ) → n ≤ j → request_at l.1 j ≡ request_at reqs j

module _ (idx old : ℕ) (reqs : List VoteReq) (n : ℕ) (b : ℕ) (rs : List VoteReq)
    (h : IsMax idx old reqs n (b, rs)) where
  -- Another SID that is not smaller, where this one is not below the request.
  next-IsMax :
      (c : ℕ) (ts : List VoteReq)
      → b ≤ c
      → (n ≢ idx → sid_of reqs n ≤ c)
      → ((c ≡ b) ⊎ (c ≡ sid_of reqs n))
      → ((j : ℕ) → suc n ≤ j → request_at ts j ≡ request_at rs j)
      → IsMax idx old reqs (suc n) (c, ts)
  next-IsMax c ts le above one same = record {
    not_below = λ j l ne. elim (ℕ_discrete j n) [
      | yes e ↦ subst (λ k. sid_of reqs k ≤ c) (sym e) (above (λ q. ne (e ∙ q)))
      | no k ↦ let d = h.not_below j (omega (arith, l, k)) ne in omega (arith, d, le)
    ];
    is_one = elim one [
      | inl e ↦ elim h.is_one [
        | inl q ↦ inl (e ∙ q)
        | inr (j, l, q) ↦ inr (j, omega (arith, l), e ∙ q)
      ]
      | inr e ↦ inr (n, omega arith, e)
    ];
    unseen = λ j l. same j l ∙ h.unseen j (omega (arith, l));
  }

  seen : sid_of rs n ≡ sid_of reqs n
  seen = ap (λ (r : VoteReq). r.sid) (h.unseen n (omega arith))

  look_at-IsMax : IsMax idx old reqs (suc n) (look_at idx n (b, rs))
  unfolding look_at
  look_at-IsMax =
      let P = IsMax idx old reqs (suc n) in
      if-cases P (n == idx) _ _
        (λ e.
          next-IsMax b rs (omega arith) (λ ne. absurd (ne (ground (arith, e)))) (inl refl)
            (λ j l. refl))
        (λ e.
          if-cases P (leb (sid_of rs n) b) _ _
            (λ le.
              next-IsMax b (drop n rs) (omega arith) (λ ne. omega (arith, seen, leb→le _ _ le))
                (inl refl) (λ j l. drop_ne n j rs (omega (arith, l))))
            (λ gt.
              next-IsMax (sid_of rs n) rs (ground (arith, gt)) (λ ne. omega (arith, seen))
                (inr seen) (λ j l. refl)))

-- No request of another server has a higher term, and one of the requests has this one.
pub record IsHighest (s : Server) (t : ℕ) : Type 0 where
  pub not_below :
      (j : ℕ)
      → j < get_group_size s.config.cid
      → j ≢ s.config.idx
      → sid_get_term (request_at s.ctrl.vote_req j).sid ≤ t
  pub is_one :
      (j : ℕ) × (j < get_group_size s.config.cid)
      × (t ≡ sid_get_term (request_at s.ctrl.vote_req j).sid)

term_le : (a b : ℕ) → a ≤ b → sid_get_term a ≤ sid_get_term b
unfolding sid_get_term
term_le a b h = omega (arith, h)

-- The term of the largest SID is the highest one.
pub look-IsHighest :
    (old : ℕ) (s : Server)
    → let l =
        for_range (get_group_size s.config.cid) (look_at s.config.idx) (old, s.ctrl.vote_req) in
      l.0 ≢ old → IsHighest s (sid_get_term l.0)
look-IsHighest old s =
    let reqs = s.ctrl.vote_req in
    let idx = s.config.idx in
    let n = get_group_size s.config.cid in
    let l = for_range n (look_at idx) (old, reqs) in
    let h : IsMax idx old reqs n l =
      for_range-ind (IsMax idx old reqs) n (look_at idx) (old, reqs)
        (record {
          not_below = λ j l. absurd (omega (arith, l));
          is_one = inl refl;
          unseen = λ j l. refl;
        })
        (λ i m q k. look_at-IsMax idx old reqs i m.0 m.1 k) in
    λ ne. record {
      not_below = λ j q k. term_le _ _ (h.not_below j q k);
      is_one = elim h.is_one [ inl e ↦ absurd (ne e) | inr (j, q, e) ↦ (j, q, ap sid_get_term e) ];
    }

-- The second loop keeps the highest term.
abbrev High : Server → Choice → Type 0
High s c = IsHighest s c.highest_term × IsKept s.ctrl.vote_req (0, c.reqs)

term_zero : (sid : ℕ) → sid ≡ 0 → sid_get_term sid ≡ 0
unfolding sid_get_term
term_zero sid h = omega (arith, h)

module _ (s : Server) (i : ℕ) (c : Choice) (l : i < get_group_size s.config.cid)
    (h : High s c) where
  abbrev term : ℕ
  term = sid_get_term (sid_of c.reqs i)

  higher-IsHighest : IsHighest s (if ltb c.highest_term term then term else c.highest_term)
  higher-IsHighest =
      if-cases (IsHighest s) (ltb c.highest_term term) _ _
        (λ e.
          let k = ltb→lt _ _ e in
          record {
            not_below = λ j q ne. let d = h.0.not_below j q ne in omega (arith, d, k);
            is_one = elim (h.1 i) [
              | inl q ↦ (i, l, ap (λ (r : VoteReq). sid_get_term r.sid) q)
              | inr z ↦ absurd (omega (arith, k, term_zero _ z))
            ];
          })
        (λ e. h.0)

  choose-High : High s (choose i c)
  unfolding choose
  choose-High =
      let kept = drop-IsKept s.ctrl.vote_req i (0, c.reqs) 0 h.1 in
      if-holds (High s) (ltb (sid_of c.reqs i) c.best.sid) _ _ (h.0, kept)
        (if-holds (High s) (is_outdated c.best (request_at c.reqs i)) _ _ (higher-IsHighest, kept)
          (higher-IsHighest, kept))

pub choices-IsHighest :
    (s : Server) (c : Choice)
    → IsHighest s c.highest_term
    → IsKept s.ctrl.vote_req (0, c.reqs)
    → IsHighest s (for_range (get_group_size s.config.cid) choose c).highest_term
choices-IsHighest s c h k =
    (for_range-ind (λ i. High s) (get_group_size s.config.cid) choose c (h, k)
      (λ i d l q. choose-High s i d l q)).0
