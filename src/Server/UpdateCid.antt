-- ===== src/Server/UpdateCid.antt =====
-- src/dare/dare_server.c: what update_cid does with the configuration.
use apus.Base.{
  ℕ, suc, ◌≡◌, ◌<◌, ◌≤◌, ◌⊎◌, refl, sym, ◌∙◌, ap, Bool, true, false, not, ◌&&◌, ◌==◌, ltb,
  if◌then◌else◌, for_range, for_range-ind, arith, Bool-cases, inl, inr,
}
use apus.Config.Cid.{Cid, is_server_on, equal_cid}
use apus.Server.State.{Server, ServerConfig, disconnect_server}
use apus.Server.Step.{Result, ok, shutdown, call}
use apus.Server.Gives.{Gives, bind-Gives, of-Gives, if-Gives}
use apus.Server.Election.{update_cid, drop_server}

-- The larger of the sizes of the old and of the new group.
abbrev pub widest : Cid → ℕ
widest cid = if ltb cid.size cid.new_size then cid.new_size else cid.size

-- The configuration is that of `s`; if this server is one of the first `n`, it has not been
-- removed.
abbrev Stays : Cid → Server → ℕ → Server → Type 0
Stays cid s n t =
    (t.config ≡ s.config)
    × (s.config.idx < n
        → is_server_on s.config.cid s.config.idx ≡ true
        → is_server_on cid s.config.idx ≡ true)

same_num : (i n : ℕ) → (i == n) ≡ true → i ≡ n
same_num i n e = ground (arith, e)

below : (i n : ℕ) → (i == n) ≡ false → i < suc n → i < n
below i n e l = ground (arith, e, l)

not_removed : (on new : Bool) → (not new && on) ≡ false → on ≡ true → new ≡ true
not_removed on new h o = ground (arith, h, o)

stays_next :
    (idx n : ℕ) (on new : ℕ → Bool)
    → (not (new n) && on n) ≡ false
    → (idx < n → on idx ≡ true → new idx ≡ true)
    → idx < suc n
    → on idx ≡ true
    → new idx ≡ true
stays_next idx n on new h k l o = elim (Bool-cases (idx == n)) [
  | inl e ↦ let q = same_num idx n e in ap new q ∙ not_removed (on n) (new n) h (sym (ap on q) ∙ o)
  | inr e ↦ k (below idx n e l) o
]

drop_server-Stays :
    (cid : Cid) (s : Server) (n : ℕ) (r : Result Server)
    → Gives (Stays cid s n) r
    → Gives (Stays cid s (suc n)) (drop_server cid n r)
unfolding drop_server
drop_server-Stays cid s n r g =
    let Q = Stays cid s (suc n) in
    bind-Gives (Stays cid s n) Q r _ g (λ t (e, k).
      if-Gives Q (not (is_server_on cid n) && is_server_on t.config.cid n)
        (if n == t.config.idx then shutdown else ok (call (disconnect_server n) t)) (ok t)
        (λ h.
          if-Gives Q (n == t.config.idx) shutdown (ok (call (disconnect_server n) t)) (λ x. tt)
            (λ x. (
              e,
              λ l o.
                  k
                    (below s.config.idx n
                      (other n t.config.idx s.config.idx x (ap (λ (c : ServerConfig). c.idx) e)) l)
                    o,
            )))
        (λ h. (
          e,
          stays_next s.config.idx n (is_server_on s.config.cid) (is_server_on cid)
              (sym (ap (λ (c : ServerConfig). not (is_server_on cid n) && is_server_on c.cid n) e)
                ∙ h)
              k,
        )))
  where
    other : (n a b : ℕ) → (n == a) ≡ false → a ≡ b → (b == n) ≡ false
    other n a b h e = ground (arith, h, e)

-- This server has no place among those compared, or was off before, or is still on.
abbrev pub IsSpared : Cid → ServerConfig → Type 0
IsSpared cid c =
    (widest cid ≤ c.idx) ⊎ (is_server_on c.cid c.idx ≡ false) ⊎ (is_server_on cid c.idx ≡ true)

spared :
    (idx n : ℕ) (on new : Bool)
    → (idx < n → on ≡ true → new ≡ true)
    → (n ≤ idx) ⊎ (on ≡ false) ⊎ (new ≡ true)
spared idx n false new k = inr (inl refl)
spared idx n true new k = elim (Bool-cases (ltb idx n)) [
  | inl e ↦ inr (inr (k (ground (arith, e)) refl))
  | inr e ↦ inl (ground (arith, e))
]

abbrev pub IsTaken : Cid → Server → Bool × Server → Type 0
IsTaken cid s (false, t) = (t ≡ s) × (equal_cid s.config.cid cid ≡ true)
IsTaken cid s (true, t) =
    (equal_cid s.config.cid cid ≡ false) × (t.config.cid ≡ cid) × IsSpared cid s.config

update_cid-Gives : (cid : Cid) (s : Server) → Gives (IsTaken cid s) (update_cid cid s)
unfolding update_cid
update_cid-Gives cid s =
    let n = widest cid in
    if-Gives (IsTaken cid s) (equal_cid s.config.cid cid) (ok (false, s)) _ (λ e. (refl, e))
      (λ e.
        bind-Gives (Stays cid s n) (IsTaken cid s) (for_range n (drop_server cid) (ok s)) _
          (for_range-ind (λ i r. Gives (Stays cid s i) r) n (drop_server cid) (ok s)
            (refl, λ l. absurd (omega (arith, l))) (λ i r l g. drop_server-Stays cid s i r g))
          (λ t k. (
            e,
            refl,
            spared s.config.idx n (is_server_on s.config.cid s.config.idx)
                (is_server_on cid s.config.idx) k.1,
          )))

-- update_cid, where it returns, leaves the state alone for a configuration that is equal to its
-- own, and takes one that is not. It then does not switch this server off if the index of the server
-- is below the larger of the two group sizes of the new configuration.
pub update_cid-IsTaken :
    (cid : Cid) (s t : Server) (updated : Bool)
    → update_cid cid s ≡ ok (updated, t)
    → IsTaken cid s (updated, t)
update_cid-IsTaken cid s t updated e =
    of-Gives (IsTaken cid s) (update_cid cid s) (updated, t) (update_cid-Gives cid s) e
