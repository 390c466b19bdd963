-- ===== src/Rc/Fence.antt =====
-- src/dare/dare_ibv_rc.c: who can write to the log of a server.
use apus.Base.{
  subst, ℕ, zero, suc, ◌≡◌, ◌≢◌, ◌≤◌, ◌<◌, refl, ap, sym, ◌∙◌, arith, Bool, true, false, ◌&&◌, ◌==◌,
  if◌then◌else◌, length, length-set, get_or-set_self, get_or-set_ne, Bool-cases, inl, inr,
}
use native.Mathlib.Decide.{ℕ_discrete}
use apus.Config.Cid.{get_extended_group_size, is_server_on}
use apus.Server.Sid.{sid_get_idx}
use apus.Server.State.{Server}
use apus.Rc.State.{Rc, Ep, Device, log_qp, ep_at, no_ep, done, failed}
use apus.Rc.Adjust.{is_other, each}
use apus.Rc.Access.{
  set_access, change_access, rc_revoke_log_access, restore_leader, rc_restore_log_access,
}

-- Whether another server that is on has a connection to the log.
unfoldable pub has_access : Rc → ℕ → Bool
has_access rc i = is_other rc i && (ep_at rc i).rc_connected && (ep_at rc i).log_access

-- The same server, with as many endpoints.
abbrev SameServer : Rc → Rc → Type 0
SameServer rc t = (t.server ≡ rc.server) × (length t.eps ≡ length rc.eps)

has_access-revoked :
    (rc : Rc) (i : ℕ) → i < length rc.eps → has_access (set_access i false rc) i ≡ false
unfolding has_access is_other
has_access-revoked rc i l =
    rw (get_or-set_self rc.eps i (record (ep_at rc i) { log_access = false }) no_ep l)
      (none_of (is_other rc i) (ep_at rc i).rc_connected)
  where
    none_of : (b c : Bool) → (b && c && false) ≡ false
    none_of b c = ground arith

has_access-set_ne :
    (rc : Rc) (access : Bool) (i j : ℕ)
    → j ≢ i
    → has_access (set_access i access rc) j ≡ has_access rc j
unfolding has_access is_other
has_access-set_ne rc access i j n =
    rw
      (get_or-set_ne rc.eps i j (record (ep_at rc i) { log_access = access }) no_ep
        (λ e. n (sym e)))
      refl

set_access-connected :
    (rc : Rc) (access : Bool) (i j : ℕ)
    → i < length rc.eps
    → (ep_at (set_access i access rc) j).rc_connected ≡ (ep_at rc j).rc_connected
set_access-connected rc access i j l =
    let ep : Ep = record (ep_at rc i) { log_access = access } in
    elim (ℕ_discrete j i) [
      | yes q ↦ rw (q, get_or-set_self rc.eps i ep no_ep l) refl
      | no q ↦ rw (get_or-set_ne rc.eps i j ep no_ep (λ e. q (sym e))) refl
    ]

change_revoke :
    (dev : Device) (i : ℕ) (rc : Rc)
    → change_access dev false i rc ≡ (
        if has_access rc i
        then (if dev.modify_rc i log_qp == 0 then done (set_access i false rc) else failed rc)
        else done rc)
unfolding change_access has_access
change_revoke dev i rc = refl

-- The same server, whose endpoints have the same connections.
abbrev SameLinks : Rc → Rc → Type 0
SameLinks rc t = SameServer rc t × ((j : ℕ) → (ep_at t j).rc_connected ≡ (ep_at rc j).rc_connected)

module _ (dev : Device) (works : (i : ℕ) → dev.modify_rc i log_qp ≡ 0) where
  revoke_one :
      (i : ℕ) (rc : Rc)
      → i < length rc.eps
      → (t : Rc) × (change_access dev false i rc ≡ done t)
        × SameLinks rc t
        × (has_access t i ≡ false)
        × ((j : ℕ) → j ≢ i → has_access t j ≡ has_access rc j)
  revoke_one i rc l = elim (Bool-cases (has_access rc i)) [
    | inl e ↦ (
      set_access i false rc,
      rw (change_revoke dev i rc, e, works i) refl,
      ((refl, length-set rc.eps i _), λ j. set_access-connected rc false i j l),
      has_access-revoked rc i l,
      λ j n. has_access-set_ne rc false i j n,
    )
    | inr e ↦ (rc, rw (change_revoke dev i rc, e) refl, ((refl, refl), λ j. refl), e, λ j n. refl)
  ]

  -- After the loop over the first n servers.
  revoke_each :
      (n : ℕ) (rc : Rc)
      → n ≤ length rc.eps
      → (t : Rc) × (each n (change_access dev false) rc ≡ done t)
        × SameLinks rc t
        × ((j : ℕ) → j < n → has_access t j ≡ false)
  revoke_each zero rc l = (rc, refl, ((refl, refl), λ j. refl), λ j h. absurd (omega (arith, h)))
  revoke_each (suc n) rc l =
      let (t, e, ((s, k), c), h) = revoke_each n rc (omega (arith, l)) in
      let (u, f, ((s', k'), c'), g, o) = revoke_one n t (omega (arith, l, k)) in
      (
        u,
        rw e f,
        ((s' ∙ s, k' ∙ k), λ j. c' j ∙ c j),
        λ j m. elim (ℕ_discrete j n) [
          | yes q ↦ subst (λ x. has_access u x ≡ false) (sym q) g
          | no q ↦ o j q ∙ h j (omega (arith, m, q))
        ],
      )

  -- A follower restores the access of its leader, and of no other server.
  restore_one :
      (leader : ℕ) (rc : Rc)
      → is_server_on rc.server.config.cid leader ≡ true
      → (ep_at rc leader).rc_connected ≡ true
      → (t : Rc) × (restore_leader dev leader rc ≡ done t)
        × ((j : ℕ) → j ≢ leader → has_access t j ≡ has_access rc j)
  unfolding restore_leader
  restore_one leader rc on c = elim (Bool-cases (ep_at rc leader).log_access) [
    | inl e ↦ (rc, rw (on, c, e) refl, λ j n. refl)
    | inr e ↦ (
      set_access leader true rc,
      rw (on, c, e, works leader) refl,
      λ j n. has_access-set_ne rc true leader j n,
    )
  ]

-- Where the queue pairs can be moved, rc_revoke_log_access returns, and no other server of the group
-- that is on has access to the log any more.
pub rc_revoke_log_access-lem :
    (dev : Device) (rc : Rc) (i : ℕ)
    → ((j : ℕ) → dev.modify_rc j log_qp ≡ 0)
    → get_extended_group_size rc.server.config.cid ≤ length rc.eps
    → i < get_extended_group_size rc.server.config.cid
    → (t : Rc) × (rc_revoke_log_access dev rc ≡ done t) × (has_access t i ≡ false)
unfolding rc_revoke_log_access
rc_revoke_log_access-lem dev rc i works l h =
    let (t, e, s, k) = revoke_each dev works (get_extended_group_size rc.server.config.cid) rc l in
    (t, e, k i h)

not_eq : (a b : ℕ) → a ≢ b → (a == b) ≡ false
not_eq a b h = ground (arith, h)

follower_restore :
    (dev : Device) (t : Rc) (leader : ℕ)
    → sid_get_idx t.server.ctrl.sid ≡ leader
    → (leader == t.server.config.idx) ≡ false
    → rc_restore_log_access dev t ≡ restore_leader dev leader t
unfolding rc_restore_log_access
follower_restore dev t leader e n = rw (e, n) refl

-- Where the queue pairs can be moved, and the leader that a follower's state identifier names is on
-- and connected, rc_revoke_log_access and then rc_restore_log_access return, and no server of the
-- group but the leader has access to the log of the follower.
pub restore_log_access-fence :
    (dev : Device) (rc : Rc) (i : ℕ)
    → ((j : ℕ) → dev.modify_rc j log_qp ≡ 0)
    → get_extended_group_size rc.server.config.cid ≤ length rc.eps
    → sid_get_idx rc.server.ctrl.sid ≢ rc.server.config.idx
    → is_server_on rc.server.config.cid (sid_get_idx rc.server.ctrl.sid) ≡ true
    → (ep_at rc (sid_get_idx rc.server.ctrl.sid)).rc_connected ≡ true
    → i < get_extended_group_size rc.server.config.cid
    → i ≢ sid_get_idx rc.server.ctrl.sid
    → (t : Rc) × (u : Rc) × (rc_revoke_log_access dev rc ≡ done t)
      × (rc_restore_log_access dev t ≡ done u)
      × (has_access u i ≡ false)
unfolding rc_revoke_log_access
restore_log_access-fence dev rc i works l follower on c h n =
    let leader = sid_get_idx rc.server.ctrl.sid in
    let (t, e, ((s, k), c'), g) =
      revoke_each dev works (get_extended_group_size rc.server.config.cid) rc l in
    let (u, f, o) =
      restore_one dev works leader t (ap (λ (x : Server). is_server_on x.config.cid leader) s ∙ on)
        (c' leader ∙ c) in
    let sid_same = ap (λ (x : Server). sid_get_idx x.ctrl.sid) s in
    let idx_same = ap (λ (x : Server). x.config.idx) s in
    (
      t,
      u,
      e,
      follower_restore dev t leader sid_same (not_eq _ _ (λ q. follower (q ∙ idx_same))) ∙ f,
      o i n ∙ g i h,
    )
