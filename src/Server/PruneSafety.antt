-- ===== src/Server/PruneSafety.antt =====
-- src/dare/dare_server.c: how far log_pruning moves the head.
use apus.Base.{
  ℕ, suc, ◌≡◌, ◌<◌, ◌≤◌, inl, inr, refl, sym, ◌∙◌, ap, subst, true, ◌==◌, if◌then◌else◌,
  for_range-ind, get_or, set, get_or-set_ne, arith, Bool-cases, List,
}
use apus.Config.Cid.{is_server_on, get_extended_group_size}
use apus.Log.State.{Log, Data}
use apus.Log.Append.{
  append_new, append_at, append_data, append_wrapped, finish, write_cmd_len, copy_cmd,
}
use apus.Log.Offsets.{log_is_offset_larger, log_offset_end_distance}
use apus.Server.State.{Server}
use apus.Server.Prune.{Least, least_round, least_offset}

abbrev dist : Server → ℕ → ℕ
dist s x = log_offset_end_distance s.log x

-- The offset is behind the own apply offset, and those of the first `n` servers that are on.
abbrev pub IsBehind : Server → ℕ → ℕ → Type 0
IsBehind s n x =
    (log_offset_end_distance s.log s.log.apply ≤ log_offset_end_distance s.log x)
    × ((i : ℕ)
        → i < n
        → is_server_on s.config.cid i ≡ true
        → log_offset_end_distance s.log (get_or s.ctrl.apply_offsets i 0)
          ≤ log_offset_end_distance s.log x)

pub record Behind (s : Server) (n : ℕ) (l : Least) : Type 0 where
  pub behind : IsBehind s n l.0
  pub rest :
      (i : ℕ)
      → is_server_on s.config.cid i ≡ true
      → get_or l.1 i 0 ≡ get_or s.ctrl.apply_offsets i 0

-- The apply offsets of the servers that are on are left alone.
set-rest :
    (s : Server) (n : ℕ) (xs : List ℕ) (i : ℕ)
    → is_server_on s.config.cid i ≡ true
    → get_or xs i 0 ≡ get_or s.ctrl.apply_offsets i 0
    → get_or (if is_server_on s.config.cid n then xs else set xs n s.log.apply) i 0
      ≡ get_or s.ctrl.apply_offsets i 0
set-rest s n xs i on h = elim (Bool-cases (is_server_on s.config.cid n)) [
  | inl e ↦ ap (λ b. get_or (if b then xs else set xs n s.log.apply) i 0) e ∙ h
  | inr e ↦
      ap (λ b. get_or (if b then xs else set xs n s.log.apply) i 0) e
      ∙ get_or-set_ne xs n i s.log.apply 0
          (λ (q : n ≡ i). ground (arith, ap (is_server_on s.config.cid) q, e, on))
      ∙ h
]

-- The larger of two offsets is behind both.
larger_lem :
    (log : Log) (x y : ℕ)
    → let z = (if log_is_offset_larger log x y then y else x) in
      (log_offset_end_distance log x ≤ log_offset_end_distance log z)
      × (log_offset_end_distance log y ≤ log_offset_end_distance log z)
unfolding log_is_offset_larger
larger_lem log x y = (ground arith, ground arith)

least_round-Behind :
    (s : Server) (n : ℕ) (l : Least) → Behind s n l → Behind s (suc n) (least_round s n l)
unfolding least_round
least_round-Behind s n l b =
    let xs = (if is_server_on s.config.cid n then l.1 else set l.1 n s.log.apply) in
    let y = get_or xs n 0 in
    let z = (if log_is_offset_larger s.log l.0 y then y else l.0) in
    let q = larger_lem s.log l.0 y in
    let rest =
      (λ (i : ℕ) (on : is_server_on s.config.cid i ≡ true). set-rest s n l.1 i on (b.rest i on)) in
    record {
      behind = (
        omega (arith, q.0, b.behind.0),
        λ i h on. elim (Bool-cases (i == n)) [
          | inl e ↦
              subst (λ x. dist s x ≤ dist s z)
                (ap (λ j. get_or xs j 0) (sym (ground (arith, e))) ∙ rest i on) q.1
          | inr e ↦ omega (arith, q.0, b.behind.1 i (ground (arith, e, h)) on)
        ],
      );
      rest = rest;
    }

pub least_offset-Behind :
    (s : Server) → Behind s (get_extended_group_size s.config.cid) (least_offset s)
unfolding least_offset
least_offset-Behind s =
    for_range-ind (Behind s) (get_extended_group_size s.config.cid) (least_round s) _
      (record { behind = (omega arith, λ i h. absurd (omega (arith, h))); rest = λ i on. refl })
      (λ i l h b. least_round-Behind s i l b)

pub append_new-head :
    (idx term req_id clt_id : ℕ) (log : Log) (d : Data)
    → (append_new idx term req_id clt_id log d).1.head ≡ log.head
unfolding append_new append_at append_data append_wrapped finish write_cmd_len copy_cmd
append_new-head idx term req_id clt_id log d = ground arith
