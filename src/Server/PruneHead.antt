-- ===== src/Server/PruneHead.antt =====
-- src/dare/dare_server.c: log_pruning moves the head past no entry that a server has still to
-- apply.
use apus.Base.{
  ℕ, ◌≡◌, ◌≤◌, ◌⊎◌, inl, inr, refl, sym, ◌∙◌, subst, Bool, true, false, not, ◌&&◌, ◌==◌,
  if◌then◌else◌, arith, Option, none, some,
}
use apus.Config.Cid.{get_extended_group_size}
use apus.Log.State.{Log, Data, head}
use apus.Log.Scan
use apus.Log.Scan.{log_get_tail}
use apus.Log.Append.{log_append_entry, set_tail, Appended, next_idx}
use apus.Log.Offsets.{log_is_offset_larger, log_offset_end_distance}
use apus.Server.Sid.{sid_get_term}
use apus.Server.State.{Server}
use apus.Server.Step.{ok, in_fuel, set_log, Net, leads}
use apus.Server.Gives.{Gives, bind-Gives, of-Gives, const-Gives, if-Gives}
use apus.Server.Election.{append_entry}
use apus.Server.Reconfig.{clear_snapshot}
use apus.Server.Prune.{least_offset, keep_entry, advance_head, log_pruning, set_apply_offsets}
use apus.Server.PruneSafety.{IsBehind, append_new-head, least_offset-Behind}

bind_head :
    (o : Option Log) (f : Log → Option Appended) (h : ℕ)
    → Gives (λ (l : Log). l.head ≡ h) (in_fuel o)
    → ((l : Log) → l.head ≡ h → Gives (λ (a : Appended). a.log.head ≡ h) (in_fuel (f l)))
    → Gives (λ (a : Appended). a.log.head ≡ h) (in_fuel (Scan.◌>>=◌ o f))
bind_head none f h k q = tt
bind_head (some l) f h k q = q l k

set_tail_cases :
    (b : Bool) (o : Option ℕ) (log : Log)
    → Gives
        (λ (l : Log). l.head ≡ log.head)
        (in_fuel (if b then Scan.◌>>=◌ o (λ t. some (record log { tail = t })) else some log))
set_tail_cases true none log = tt
set_tail_cases true (some t) log = refl
set_tail_cases false o log = refl

log_append_entry-head :
    (p : Bool) (log : Log) (term req_id clt_id : ℕ) (d : Data)
    → Gives
        (λ (a : Appended). a.log.head ≡ log.head)
        (in_fuel (log_append_entry p log term req_id clt_id d))
unfolding log_append_entry set_tail
log_append_entry-head p log term req_id clt_id d =
    bind_head (set_tail log) _ log.head
      (set_tail_cases (log.tail == log.len) (log_get_tail log) log)
      (λ l h. append_new-head (next_idx l) term req_id clt_id l d ∙ h)

append_entry-head :
    (req_id clt_id : ℕ) (d : Data) (s : Server)
    → Gives (λ r. r.1.log.head ≡ s.log.head) (append_entry req_id clt_id d s)
unfolding append_entry
append_entry-head req_id clt_id d s =
    bind-Gives (λ (a : Appended). a.log.head ≡ s.log.head) (λ r. r.1.log.head ≡ s.log.head) _ _
      (log_append_entry-head s.vars.prev_log_entry_head s.log (sid_get_term s.ctrl.sid) req_id
        clt_id d)
      (λ a h. h)

advance_head-head :
    (offset : ℕ) (s : Server)
    → Gives (λ t. (t.log.head ≡ s.log.head) ⊎ (t.log.head ≡ offset)) (advance_head offset s)
unfolding advance_head
advance_head-head offset s =
    let Q = (λ (t : Server). (t.log.head ≡ s.log.head) ⊎ (t.log.head ≡ offset)) in
    if-Gives Q (log_is_offset_larger s.log offset s.log.head && not s.vars.prev_log_entry_head) _
      (ok s)
      (λ e.
        bind-Gives (λ r. r.1.log.head ≡ offset) Q _ _
          (append_entry-head 0 0 (head offset)
            (clear_snapshot (set_log (record s.log { head = offset }) s)))
          (λ r h. inr h))
      (λ e. inl refl)

keep_entry-behind :
    (log : Log) (offset : ℕ)
    → Gives
        (λ o. log_offset_end_distance log offset ≤ log_offset_end_distance log o)
        (keep_entry log offset)
unfolding keep_entry
keep_entry-behind log offset =
    let Q = (λ (o : ℕ). log_offset_end_distance log offset ≤ log_offset_end_distance log o) in
    if-Gives Q (log_offset_end_distance log offset == 0) _ _
      (λ e. const-Gives Q _ (λ o. ground (arith, e))) (λ e. omega arith)

IsBehind-mono :
    (s : Server) (n x y : ℕ)
    → log_offset_end_distance s.log x ≤ log_offset_end_distance s.log y
    → IsBehind s n x
    → IsBehind s n y
IsBehind-mono s n x y h b = (omega (arith, h, b.0), λ i l on. omega (arith, h, b.1 i l on))

-- Where the head stands after a call.
abbrev pub IsPruned : Server → Server → Type 0
IsPruned s t =
    (t.log.head ≡ s.log.head) ⊎ IsBehind s (get_extended_group_size s.config.cid) t.log.head

log_pruning-Gives :
    (net : Net) (s : Server)
    → ((u : Server) → (net.get_remote_apply_offsets u).1.log ≡ u.log)
    → Gives (λ r. IsPruned s r.1) (log_pruning net s)
unfolding log_pruning
log_pruning-Gives net s kept =
    let Q = (λ (r : Bool × Server). IsPruned s r.1) in
    let l = least_offset s in
    let n = get_extended_group_size s.config.cid in
    let s' = set_apply_offsets l.1 s in
    if-Gives Q (leads s) _ _
      (λ e.
        bind-Gives (λ o. log_offset_end_distance s.log l.0 ≤ log_offset_end_distance s.log o) Q
          (keep_entry s.log l.0) _ (keep_entry-behind s.log l.0)
          (λ o h.
            bind-Gives (λ t. (t.log.head ≡ s.log.head) ⊎ (t.log.head ≡ o)) Q (advance_head o s') _
              (advance_head-head o s')
              (λ t q.
                subst (λ (x : Log). (x.head ≡ s.log.head) ⊎ IsBehind s n x.head) (sym (kept t))
                  (elim q [
                    | inl k ↦ inl k
                    | inr k ↦ inr (
                        subst (IsBehind s n) (sym k)
                          (IsBehind-mono s n l.0 o h (least_offset-Behind s).behind))
                  ]))))
      (λ e. inl refl)

-- Provided that reading the remote apply offsets leaves the log alone, log_pruning, where it
-- returns, keeps the head, or moves it to an offset that is not past the own apply offset, nor past
-- the known apply offset of any server that is on.
pub log_pruning-IsPruned :
    (net : Net) (s t : Server) (success : Bool)
    → ((u : Server) → (net.get_remote_apply_offsets u).1.log ≡ u.log)
    → log_pruning net s ≡ ok (success, t)
    → IsPruned s t
log_pruning-IsPruned net s t success kept e =
    of-Gives (λ r. IsPruned s r.1) (log_pruning net s) (success, t) (log_pruning-Gives net s kept) e
