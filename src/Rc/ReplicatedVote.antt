-- ===== src/Rc/ReplicatedVote.antt =====
-- src/dare/dare_ibv_rc.c: the SID that rc_get_replicated_vote leaves.
use apus.Base.{
  negsuc, suc, ap, ◌∙◌, ℕ, ◌≤◌, ◌<◌, ◌≡◌, ◌⊎◌, inl, inr, refl, sym, subst, arith, Bool, true, false,
  List, get_or, set, get_or-set_ne, for_range, for_range-ind, ltb, if◌then◌else◌, ltb→lt,
  Bool-cases, ℤ, is_zero, some,
}
use native.Mathlib.Decide.{ℕ_discrete}
use mathlib.Core.Bool.{true≢false}
use apus.Server.Gives.{if-cases}
use apus.Config.Cid.{get_group_size}
use apus.Server.State.{CtrlData}
use apus.Rc.State.{Run, Posted, Rc, Device, ctrl_qp, read_vote_sid, done}
use apus.Rc.Adjust.{each, next_ssn}
use apus.Rc.Ends.{Returns, bind-Returns, self-Returns}
use apus.Rc.Wait.{posted_at, wait_for_majority}
use apus.Rc.Vote.{
  set_ctrl, no_posted, posted_sends_of, adopt_sid, adopt_sids, send_signaled,
  rc_get_replicated_vote,
}

abbrev read_sid : CtrlData → ℕ → ℕ
read_sid ctrl i = get_or ctrl.rsid i 0

-- A SID is the old one, or was read from one of the first `n` servers.
abbrev IsOne : List ℤ → CtrlData → ℕ → ℕ → Type 0
IsOne ps old n sid =
    (sid ≡ old.sid)
    ⊎ ((i : ℕ) × (i < n) × (is_zero (posted_at ps i) ≡ true) × (sid ≡ read_sid old i))

abbrev larger : ℕ → ℕ → ℕ
larger a b = if ltb a b then b else a

larger_lem : (a b : ℕ) → (a ≤ larger a b) × (b ≤ larger a b) × ((larger a b ≡ a) ⊎ (larger a b ≡ b))
larger_lem a b = elim (Bool-cases (ltb a b)) [
  | inl e ↦ rw e (omega (arith, ltb→lt a b e), omega arith, inr refl)
  | inr e ↦ rw e (omega arith, ground (arith, e), inl refl)
]

-- A read SID is taken over, if it is larger.
abbrev take_sid : ℕ → CtrlData → CtrlData
take_sid n ctrl = record ctrl { sid = larger ctrl.sid (read_sid ctrl n); rsid = set ctrl.rsid n 0 }

-- After the first `n` servers, the SID is the largest of the old one and of those that were read.
pub record IsLargest (ps : List ℤ) (n : ℕ) (old new : CtrlData) : Type 0 where
  pub not_smaller : old.sid ≤ new.sid
  pub not_below : (i : ℕ) → i < n → is_zero (posted_at ps i) ≡ true → read_sid old i ≤ new.sid
  pub is_one : IsOne ps old n new.sid

-- The SIDs of the other servers are still there.
abbrev IsUnread : ℕ → CtrlData → CtrlData → Type 0
IsUnread n old new = (i : ℕ) → n ≤ i → read_sid new i ≡ read_sid old i

module _ (ps : List ℤ) (old : CtrlData) where
  abbrev IsAdopted : ℕ → CtrlData → Type 0
  IsAdopted n new = IsLargest ps n old new × IsUnread n old new

  later : (n : ℕ) (new : CtrlData) → IsOne ps old n new.sid → IsOne ps old (suc n) new.sid
  later n new (inl e) = inl e
  later n new (inr (i, l, z, e)) = inr (i, omega (arith, l), z, e)

  keep-IsAdopted :
      (n : ℕ) (new : CtrlData)
      → is_zero (posted_at ps n) ≡ false
      → IsAdopted n new
      → IsAdopted (suc n) new
  keep-IsAdopted n new f (h, k) = (
    record {
      not_smaller = h.not_smaller;
      not_below = λ i l z. elim (ℕ_discrete i n) [
        | yes e ↦ absurd (true≢false (sym z ∙ ap (λ j. is_zero (posted_at ps j)) e ∙ f))
        | no ne ↦ h.not_below i (omega (arith, l, ne)) z
      ];
      is_one = later n new h.is_one;
    },
    λ i l. k i (omega (arith, l)),
  )

  take-IsAdopted :
      (n : ℕ) (new : CtrlData)
      → is_zero (posted_at ps n) ≡ true
      → IsAdopted n new
      → IsAdopted (suc n) (take_sid n new)
  take-IsAdopted n new t (h, k) =
      let v = read_sid new n in
      let (a, b, c) = larger_lem new.sid v in
      (
        record {
          not_smaller = omega (arith, a, h.not_smaller);
          not_below = λ i l z. elim (ℕ_discrete i n) [
            | yes e ↦
                subst (λ j. read_sid old j ≤ larger new.sid v) (sym e)
                  (omega (arith, b, k n (omega arith)))
            | no ne ↦ let d = h.not_below i (omega (arith, l, ne)) z in omega (arith, a, d)
          ];
          is_one = elim c [
            | inl e ↦ subst (λ x. IsOne ps old (suc n) x) (sym e) (later n new h.is_one)
            | inr e ↦ inr (n, omega arith, t, e ∙ k n (omega arith))
          ];
        },
        λ i l. get_or-set_ne new.rsid n i 0 0 (omega (arith, l)) ∙ k i (omega (arith, l)),
      )

  adopt-IsAdopted :
      (n : ℕ) (new : CtrlData) → IsAdopted n new → IsAdopted (suc n) (adopt_sid ps n new)
  unfolding adopt_sid
  adopt-IsAdopted n new h =
      if-cases (IsAdopted (suc n)) (is_zero (posted_at ps n)) _ _ (λ e. take-IsAdopted n new e h)
        (λ e. keep-IsAdopted n new e h)

  adopt_sids-IsAdopted : (size : ℕ) → IsAdopted size (for_range size (adopt_sid ps) old)
  adopt_sids-IsAdopted size =
      for_range-ind IsAdopted size (adopt_sid ps) old
        (
          record {
            not_smaller = omega arith;
            not_below = λ i l. absurd (omega (arith, l));
            is_one = inl refl;
          },
          λ i l. refl,
        )
        (λ n new l h. adopt-IsAdopted n new h)

-- The requests of rc_get_replicated_vote.
abbrev pub reads : Device → Rc → Run (Posted × Rc)
reads dev rc =
    each (get_group_size rc.server.config.cid) (send_signaled dev read_vote_sid (negsuc 0))
      (some no_posted, next_ssn rc)

-- A state, from the state `rc` before: the requests have been sent, the wait for them has found a
-- majority, and in its state the SID has been set to the largest of those that were read.
abbrev pub IsRaised : Device → Rc → Rc → Type 0
IsRaised dev rc u =
    (ps : Posted) × (r : Rc) × (qs : List ℤ) × (t : Rc) × (reads dev rc ≡ done (ps, r))
    × (wait_for_majority ctrl_qp (posted_sends_of ps) r ≡ done (true, qs, t))
    × IsLargest qs (get_group_size rc.server.config.cid) t.server.ctrl u.server.ctrl
    × (set_ctrl u.server.ctrl t ≡ u)

abbrev IfTrue : Device → Rc → Bool × Rc → Type 0
IfTrue dev rc (b, u) = b ≡ true → IsRaised dev rc u

adopted-IsRaised :
    (dev : Device) (rc : Rc) (ps : Posted) (r : Rc) (b : Bool) (qs : List ℤ) (t : Rc)
    → reads dev rc ≡ done (ps, r)
    → wait_for_majority ctrl_qp (posted_sends_of ps) r ≡ done (b, qs, t)
    → IfTrue dev rc (b, if b then adopt_sids qs (get_group_size rc.server.config.cid) t else t)
unfolding adopt_sids
adopted-IsRaised dev rc ps r true qs t d e h =
    let size = get_group_size rc.server.config.cid in
    (ps, r, qs, t, d, e, (adopt_sids-IsAdopted qs t.server.ctrl size).0, refl)
adopted-IsRaised dev rc ps r false qs t d e h = absurd (true≢false (sym h))

-- If rc_get_replicated_vote returns 0, its wait for the reads that it has posted has found a majority,
-- and it has then changed the control data only, where the SID has become the
-- largest of the old one and of those that it has read: it is the SID of before, or one that was read
-- from a server whose read has succeeded, and it is smaller than none of these.
pub rc_get_replicated_vote-IsLargest :
    (dev : Device) (rc u : Rc) → rc_get_replicated_vote dev rc ≡ done (true, u) → IsRaised dev rc u
unfolding rc_get_replicated_vote
rc_get_replicated_vote-IsLargest dev rc u e =
    let P = IfTrue dev rc in
    let holds : Returns P (rc_get_replicated_vote dev rc) =
      bind-Returns (λ a. reads dev rc ≡ done a) P (reads dev rc) _ (self-Returns (reads dev rc))
        (λ a d.
          let wait = wait_for_majority ctrl_qp (posted_sends_of a.0) a.1 in
          bind-Returns (λ w. wait ≡ done w) P wait _ (self-Returns wait)
            (λ w e. adopted-IsRaised dev rc a.0 a.1 w.0 w.1 w.2 d e)) in
    subst (Returns P) e holds refl
