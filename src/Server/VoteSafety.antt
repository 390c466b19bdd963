-- ===== src/Server/VoteSafety.antt =====
-- src/dare/dare_server.c: the choice of a candidate by poll_vote_requests.
use apus.Base.{
  ℕ, suc, ◌≤◌, ◌<◌, ◌≡◌, ◌≢◌, ◌⊎◌, inl, inr, refl, sym, ◌∙◌, false, List, ltb, get_or-set_ne,
  for_range, for_range-ind, Bool-cases, subst, arith,
}
use apus.Server.State.{VoteReq}
use apus.Server.Step.{request_at}
use apus.Server.Vote.{Choice, choose, is_outdated, drop}

-- The log of the first request is as recent as that of the second: by the term of the last entry,
-- then by its index.
abbrev pub IsRecent : VoteReq → VoteReq → Type 0
IsRecent r l = (l.term < r.term) ⊎ ((l.term ≡ r.term) × (l.index ≤ r.index))

-- What the second loop has found among the first `n` requests.
pub record Found (reqs : List VoteReq) (own : VoteReq) (n : ℕ) (c : Choice) : Type 0 where
  pub rest : (i : ℕ) → n ≤ i → request_at c.reqs i ≡ request_at reqs i
  pub chosen : (c.best ≡ own) ⊎ ((i : ℕ) × (i < n) × (c.best ≡ request_at reqs i))
  pub recent : IsRecent c.best own
  pub larger : own.sid ≤ c.best.sid

is_outdated-IsRecent : (b r : VoteReq) → is_outdated b r ≡ false → IsRecent r b
unfolding is_outdated
is_outdated-IsRecent b r h = ground arith

IsRecent-trans : (a b c : VoteReq) → IsRecent a b → IsRecent b c → IsRecent a c
IsRecent-trans a b c h k = ground arith

pub drop_ne :
    (i j : ℕ) (reqs : List VoteReq) → i ≢ j → request_at (drop i reqs) j ≡ request_at reqs j
drop_ne i j reqs h = get_or-set_ne reqs i j _ _ h

choose-rest :
    (reqs : List VoteReq) (n : ℕ) (c : Choice)
    → ((i : ℕ) → n ≤ i → request_at c.reqs i ≡ request_at reqs i)
    → (i : ℕ) → suc n ≤ i
    → request_at (choose n c).reqs i ≡ request_at reqs i
unfolding choose
choose-rest reqs n c h i l =
    ground (arith, drop_ne n i c.reqs (λ e. omega (arith, l, e)), h i (omega (arith, l)))

-- Each round keeps the best request or takes the one at hand.
choose-best :
    (n : ℕ) (c : Choice)
    → ((choose n c).best ≡ c.best)
      ⊎ (((choose n c).best ≡ request_at c.reqs n)
          × IsRecent (request_at c.reqs n) c.best
          × (c.best.sid ≤ (request_at c.reqs n).sid))
unfolding choose
choose-best n c = elim (Bool-cases (ltb (request_at c.reqs n).sid c.best.sid)) [
  | inl e ↦ inl (ground (arith, e))
  | inr e ↦ elim (Bool-cases (is_outdated c.best (request_at c.reqs n))) [
    | inl o ↦ inl (ground (arith, e, o))
    | inr o ↦ inr (ground (arith, e, o), is_outdated-IsRecent c.best _ o, ground (arith, e))
  ]
]

choose-Found :
    (reqs : List VoteReq) (own : VoteReq) (n : ℕ) (c : Choice)
    → Found reqs own n c
    → Found reqs own (suc n) (choose n c)
choose-Found reqs own n c f = elim (choose-best n c) [
  | inl e ↦ record {
    rest = choose-rest reqs n c f.rest;
    chosen = elim f.chosen [
      | inl o ↦ inl (e ∙ o)
      | inr (i, l, o) ↦ inr (i, omega (arith, l), e ∙ o)
    ];
    recent = subst (λ b. IsRecent b own) (sym e) f.recent;
    larger = subst (λ b. own.sid ≤ b.sid) (sym e) f.larger;
  }
  | inr (e, r, l) ↦ record {
    rest = choose-rest reqs n c f.rest;
    chosen = inr (n, omega arith, e ∙ f.rest n (omega arith));
    recent =
        subst (λ b. IsRecent b own) (sym e)
          (IsRecent-trans (request_at c.reqs n) c.best own r f.recent);
    larger = subst (λ b. own.sid ≤ b.sid) (sym e) (omega (arith, l, f.larger));
  }
]

-- The candidate that the second loop chooses is the server itself, or one of the requests: its log
-- is as recent as the local one, and its SID is not smaller than the bound.
pub chosen_lem :
    (reqs : List VoteReq) (own : VoteReq) (n t : ℕ)
    → Found reqs own n (for_range n choose (record { best = own; highest_term = t; reqs = reqs }))
chosen_lem reqs own n t =
    for_range-ind (Found reqs own) n choose _
      (record {
        rest = λ i l. refl;
        chosen = inl refl;
        recent = inr (refl, omega arith);
        larger = omega arith;
      })
      (λ i c l f. choose-Found reqs own i c f)
