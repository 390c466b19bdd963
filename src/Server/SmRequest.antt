-- ===== src/Server/SmRequest.antt =====
-- src/dare/dare_server.c: a request for the state machine while a snapshot is there.
use apus.Base.{
  ℕ, suc, ◌≡◌, ◌<◌, ◌≢◌, ◌⊎◌, inl, inr, refl, sym, ◌∙◌, ap, subst, true, ◌||◌, ◌==◌, for_range-ind,
  get_or, arith, none, Bool-cases,
}
use apus.Config.Cid.{get_group_size}
use apus.Server.State.{Server}
use apus.Server.Step.{Result, ok, crash, Net, ◌>>=◌}
use apus.Server.Recover.{SmPoll, make_snapshot, answer_request, sm_request_round, poll_sm_requests}

module _ (net : Net) (s : Server) (snapshot : s.state.snapshot ≡ true) where
  -- The requests of the first `n` servers: all are empty, or the pointer was used.
  abbrev Served : ℕ → Result SmPoll → Type 0
  Served n r =
      (r ≡ crash)
      ⊎ ((r ≡ ok (none, s)) × ((i : ℕ) → i < n → i ≢ s.config.idx → get_or s.ctrl.sm_req i 0 ≡ 0))

  round_cases :
      (i : ℕ)
      → (sm_request_round net i (ok (none, s)) ≡ crash)
        ⊎ ((sm_request_round net i (ok (none, s)) ≡ ok (none, s))
            × (i ≢ s.config.idx → get_or s.ctrl.sm_req i 0 ≡ 0))
  unfolding sm_request_round answer_request make_snapshot
  round_cases i = elim (Bool-cases (i == s.config.idx || get_or s.ctrl.sm_req i 0 == 0)) [
    | inl e ↦ inr (ground (arith, e), λ h. ground (arith, e, h))
    | inr e ↦ inl (ground (arith, e, snapshot))
  ]

  crash_stays : (n : ℕ) → sm_request_round net n crash ≡ crash
  unfolding sm_request_round
  crash_stays n = refl

  same : (i n : ℕ) → (i == n) ≡ true → i ≡ n
  same i n x = ground (arith, x)

  round-Served :
      (n : ℕ) (r : Result SmPoll) → Served n r → Served (suc n) (sm_request_round net n r)
  round-Served n r (inl e) = inl (ap (sm_request_round net n) e ∙ crash_stays n)
  round-Served n r (inr (e, k)) = elim (round_cases n) [
    | inl c ↦ inl (ap (sm_request_round net n) e ∙ c)
    | inr (q, z) ↦ inr (
      ap (sm_request_round net n) e ∙ q,
      λ i h ne. elim (Bool-cases (i == n)) [
        | inl x ↦
            subst (λ j. get_or s.ctrl.sm_req j 0 ≡ 0) (sym (same i n x))
              (z (λ y. ne (same i n x ∙ y)))
        | inr x ↦ k i (ground (arith, x, h)) ne
      ],
    )
  ]

-- With a snapshot there, a request of another server for the state machine makes poll_sm_requests
-- use a pointer that was not initialised.
pub poll_sm_requests-crash :
    (net : Net) (s : Server) (i : ℕ)
    → s.state.snapshot ≡ true
    → i < get_group_size s.config.cid
    → i ≢ s.config.idx
    → get_or s.ctrl.sm_req i 0 ≢ 0
    → poll_sm_requests net s ≡ crash
unfolding poll_sm_requests
poll_sm_requests-crash net s i snapshot h ne req =
    elim (for_range-ind (Served net s snapshot) (get_group_size s.config.cid) (sm_request_round net)
      (ok (none, s)) (inr (refl, λ j l n. absurd (omega (arith, l))))
      (λ j r l k. round-Served net s snapshot j r k)) [
        | inl e ↦ ap (λ r. r >>= λ p. ok p.1) e
        | inr (e, k) ↦ absurd (req (k i h ne))
      ]
