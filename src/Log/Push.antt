-- ===== src/Log/Push.antt =====
-- log_append_entry, once the tail is known: the log holds one more entry.
use apus.Base.{
  ℕ, ◌+◌, ◌^◌, ◌≤◌, ◌<◌, ◌≡◌, ◌≢◌, ◌⊎◌, refl, ap, subst, arith, inl, inr, List, [], ◌∷◌, ◌++◌, some,
}
use native.Mathlib.Decide.{dec_lt}
use apus.Log.Mem.{Mem}
use apus.Log.State.{Log, Data, noop, config, head, csm, Entry}
use apus.Log.Entry.{entry_idx, entry_term, read_entry}
use apus.Log.Offsets.{log_add_new_entry}
use apus.Log.Append.{append_new}
use apus.Log.Written.{size_of, size_of-ge, IsData}
use apus.Log.NewEntry.{IsStamp, Stored, write_entry, new_entry, write_entry-Stored}
use apus.Log.Placed.{placed, append_at-end, append_at-start, append_at-copied}
use apus.Log.Layout.{Run, Run-le, Holds, empty, linear, wrapped}
use apus.Log.Refine.{
  Room, fresh, at_end, at_start, linear-end, wrapped-end, linear-start, linear-copied, alone,
}

module _ (log : Log) (small : log.len < 2 ^ 64) (full : log.end ≢ log.head) where
  new-end : log.end < log.len → log.end + 64 ≤ log.len → log_add_new_entry log ≡ some log.end
  unfolding log_add_new_entry
  new-end a b = ground arith

  new-start : log.end ≤ log.len → log.len < log.end + 64 → log_add_new_entry log ≡ some 0
  unfolding log_add_new_entry
  new-start a b = ground arith

-- What else the call does to the log: the tail is the offset of the new entry, the end lies behind
-- it, and the other offsets stay.
pub record Grown (idx term size : ℕ) (log log' : Log) : Type 0 where
  pub head_kept : log'.head ≡ log.head
  pub apply_kept : log'.apply ≡ log.apply
  pub commit_kept : log'.commit ≡ log.commit
  pub old_end_kept : log'.old_end ≡ log.old_end
  pub len_kept : log'.len ≡ log.len
  pub end_behind : log'.end ≡ log'.tail + size
  pub tail_placed :
      ((log'.tail ≡ log.end) × (log.end + size ≤ log.len))
      ⊎ ((log'.tail ≡ 0) × (log.len < log.end + size))
  pub tail_idx : entry_idx log'.mem log'.tail ≡ idx
  pub tail_term : entry_term log'.mem log'.tail ≡ term

Grown-placed :
    (idx term req_id clt_id : ℕ) (d : Data) (log : Log) (p : ℕ) (m m' : Mem)
    → ((p ≡ log.end) × (log.end + size_of d ≤ log.len))
      ⊎ ((p ≡ 0) × (log.len < log.end + size_of d))
    → Stored idx term req_id clt_id d m m' p
    → Grown idx term (size_of d) log (placed d log p m')
unfolding placed read_entry new_entry
Grown-placed idx term req_id clt_id d log p m m' w s = record {
  head_kept = refl;
  apply_kept = refl;
  commit_kept = refl;
  old_end_kept = refl;
  len_kept = refl;
  end_behind = refl;
  tail_placed = w;
  tail_idx = ap (λ (x : Entry). x.idx) s.read;
  tail_term = ap (λ (x : Entry). x.term) s.read;
}

-- The call returns its index, and the log holds the new entry behind the others.
abbrev pub Pushed : (idx term req_id clt_id : ℕ) → Data → Log → ℕ → List Entry → ℕ × Log → Type 0
Pushed idx term req_id clt_id d log o es r =
    (r.0 ≡ idx)
    × Grown idx term (size_of d) log r.1
    × Holds r.1 o (es ++ new_entry idx term req_id clt_id d ∷ [])

module _ (idx term req_id clt_id : ℕ) (d : Data) (log : Log) (o : ℕ) (es : List Entry)
    (s : IsStamp idx term req_id clt_id) (h : IsData d) (small : log.len < 2 ^ 64)
    (full : log.end ≢ log.head) where
  push-end :
      log.end + size_of d < log.len
      → Holds
          (placed d log log.end (write_entry idx term req_id clt_id d log.mem log.end))
          o
          (es ++ new_entry idx term req_id clt_id d ∷ [])
      → Pushed idx term req_id clt_id d log o es (append_new idx term req_id clt_id log d)
  unfolding append_new
  push-end f k =
      rw (new-end log small full (omega arith) (omega (arith, size_of-ge d)), append_new)
        (rw (append_at-end idx term req_id clt_id d log s h small (omega arith)) (
          refl,
          Grown-placed idx term req_id clt_id d log log.end log.mem _ (inl (refl, omega arith))
              (write_entry-Stored log.mem log.end idx term req_id clt_id d s h),
          k,
        ))

  push-start :
      log.end ≤ log.len
      → log.len < log.end + 64
      → size_of d ≤ log.len
      → Holds
          (placed d log 0 (write_entry idx term req_id clt_id d log.mem 0))
          o
          (es ++ new_entry idx term req_id clt_id d ∷ [])
      → Pushed idx term req_id clt_id d log o es (append_new idx term req_id clt_id log d)
  unfolding append_new
  push-start a b f k =
      rw (new-start log small full a b, append_new)
        (rw (append_at-start idx term req_id clt_id d log s h small a b f) (
          refl,
          Grown-placed idx term req_id clt_id d log 0 log.mem _
              (inr (refl, omega (arith, size_of-ge d)))
              (write_entry-Stored log.mem 0 idx term req_id clt_id d s h),
          k,
        ))

  push_fresh :
      log.end ≡ log.len
      → o ≡ 0
      → es ≡ []
      → size_of d < log.len
      → Pushed idx term req_id clt_id d log o es (append_new idx term req_id clt_id log d)
  unfolding placed
  push_fresh z a b f = push-start (omega arith) (omega arith) (omega arith) (
      rw (a, b)
        (linear (omega arith) (
          subst (λ k. Run m k 0 (new_entry idx term req_id clt_id d ∷ [])) (omega arith)
            (alone idx term req_id clt_id d log o es
              (write_entry-Stored log.mem 0 idx term req_id clt_id d s h)))))
    where
      m : Mem
      m = write_entry idx term req_id clt_id d log.mem 0

push_copied :
    (idx term req_id clt_id : ℕ) (d : Data) (log : Log) (o : ℕ) (es : List Entry)
    → IsStamp idx term req_id clt_id
    → IsData d
    → log.len < 2 ^ 64
    → log.end ≢ log.head
    → log.end + 64 ≤ log.len
    → log.len < log.end + size_of d
    → size_of d < o
    → o ≤ log.end
    → 0 < log.head
    → Run log.mem log.end o es
    → Pushed idx term req_id clt_id d log o es (append_new idx term req_id clt_id log d)
push_copied idx term req_id clt_id noop log o es s h small full a b c le hd r = absurd (omega arith)
push_copied idx term req_id clt_id (config k) log o es s h small full a b c le hd r =
    absurd (omega arith)
push_copied idx term req_id clt_id (head k) log o es s h small full a b c le hd r =
    absurd (omega arith)
push_copied idx term req_id clt_id (csm t cmd) log o es s h small full a b c le hd r =
    unfold append_new in
    rw (new-end log small full (omega arith) a, append_new)
      (rw (append_at-copied idx term req_id clt_id t cmd log s h small a b (omega arith) hd) (
        refl,
        Grown-placed idx term req_id clt_id (csm t cmd) log 0 _ _ (inr (refl, b))
            (write_entry-Stored _ 0 idx term req_id clt_id (csm t cmd) s h),
        linear-copied idx term req_id clt_id t cmd h log o es _ s a b c le r
            (write_entry-Stored _ 0 idx term req_id clt_id (csm t cmd) s h),
      ))

-- With room for it, log_append_entry returns the index of the new entry, and the log holds that
-- entry behind those that it held: at the end, or at the start of the buffer where neither the
-- header nor the command fits at the end.
pub append_new-Holds :
    (idx term req_id clt_id : ℕ) (d : Data) (log : Log) (o : ℕ) (es : List Entry)
    → IsStamp idx term req_id clt_id
    → IsData d
    → log.len < 2 ^ 64
    → log.end ≢ log.head
    → Room log o (size_of d)
    → Holds log o es
    → Pushed idx term req_id clt_id d log o es (append_new idx term req_id clt_id log d)
append_new-Holds idx term req_id clt_id d log o es s h small full (fresh z f) (empty e a) =
    push_fresh idx term req_id clt_id d log o [] s h small full z a refl f
append_new-Holds idx term req_id clt_id d log o es s h small full (fresh z f) (linear lt r) =
    absurd (omega arith)
append_new-Holds idx term req_id clt_id d log o es s h small full (fresh z f)
      (wrapped w fs gs p lt le g r q eq) =
    absurd (omega (arith, Run-le r))
append_new-Holds idx term req_id clt_id d log o es s h small full (at_end f c) (empty e a) =
    absurd (omega arith)
append_new-Holds idx term req_id clt_id d log o es s h small full (at_end f c) (linear lt r) =
    push-end idx term req_id clt_id d log o es s h small full f (
      linear-end idx term req_id clt_id d log o es _ f r
        (write_entry-Stored log.mem log.end idx term req_id clt_id d s h))
append_new-Holds idx term req_id clt_id d log o es s h small full (at_end f c)
      (wrapped w fs gs p lt le g r q eq) =
    push-end idx term req_id clt_id d log o es s h small full f (
      wrapped-end idx term req_id clt_id d log o fs _ w gs es p le (omega arith) g r q eq
        (write_entry-Stored log.mem log.end idx term req_id clt_id d s h))
append_new-Holds idx term req_id clt_id d log o es s h small full (at_start a b c le hd)
      (empty e z) =
    absurd (omega arith)
append_new-Holds idx term req_id clt_id d log o es s h small full (at_start a b c le hd)
      (wrapped w fs gs p lt le' g r q eq) =
    absurd (omega arith)
append_new-Holds idx term req_id clt_id d log o es s h small full (at_start a b c le hd)
      (linear lt r) =
    elim (dec_lt log.len (log.end + 64)) [
      | yes g ↦
          push-start idx term req_id clt_id d log o es s h small full (omega arith) g (omega arith)
            (linear-start idx term req_id clt_id d log o es _ lt g c le r
              (write_entry-Stored log.mem 0 idx term req_id clt_id d s h))
      | no g ↦
          push_copied idx term req_id clt_id d log o es s h small full (omega arith) b c le hd r
    ]
