-- ===== src/Log/Refine.antt =====
-- One more entry in the circular buffer is one more entry in the list that it holds.
use apus.Base.{
  ℕ, ◌+◌, ◌≤◌, ◌<◌, ◌≡◌, ◌⊎◌, refl, ap, sym, ◌∙◌, subst, arith, inl, inr, List, [], ◌∷◌, ◌++◌,
  length, append_assoc,
}
use apus.Log.Mem.{Mem, Same}
use apus.Log.State.{Log, Data, csm, Entry}
use apus.Log.Entry.{entry_idx, entry_term, log_entry_len, read_entry}
use apus.Log.Frame.{size-ge, len-Same, idx-Same, term-Same}
use apus.Log.Written.{size_of, size_of-ge, IsData}
use apus.Log.NewEntry.{IsStamp, Stored, new_entry}
use apus.Log.Placed.{
  placed, with_copy, with_copy-Outside, idx-with_copy, term-with_copy, len-with_copy,
}
use apus.Log.Layout.{
  Run, done, more, Run-le, Run-Same, Run-snoc, Gap, short, copied, Gap-Same, Holds, linear, wrapped,
}

-- There is room for so many bytes behind the entries from o on: up to the end of the buffer or up
-- to o, and then never quite; or at the start of the buffer.
pub data Room (log : Log) (o size : ℕ) : Type 0 where
  fresh : log.end ≡ log.len → size < log.len → Room log o size
  at_end : log.end + size < log.len → (o ≤ log.end) ⊎ (log.end + size < o) → Room log o size
  at_start :
      log.end < log.len
      → log.len < log.end + size
      → size < o
      → o ≤ log.end
      → 0 < log.head
      → Room log o size

module _ (idx term req_id clt_id : ℕ) (d : Data) where
  abbrev pub e : Entry
  e = new_entry idx term req_id clt_id d

  -- A new entry at the end of a run extends it.
  Run-Stored :
      {m m' : Mem} {a p : ℕ} {es : List Entry}
      → Run m p a es
      → Stored idx term req_id clt_id d m m' p
      → Run m' (p + size_of d) a (es ++ e ∷ [])
  Run-Stored {m} {m'} {a} {p} r s =
      Run-snoc (p + size_of d) e (Run-Same m' (λ x l u. s.outside x (inl u)) r)
        (ap (λ k. p + k) (sym s.size)) (sym s.read)

  module _ (log : Log) (o : ℕ) (es : List Entry) where
    pub linear-end :
        (m : Mem)
        → log.end + size_of d < log.len
        → Run log.mem log.end o es
        → Stored idx term req_id clt_id d log.mem m log.end
        → Holds (placed d log log.end m) o (es ++ e ∷ [])
    unfolding placed
    linear-end m f r s = linear f (Run-Stored r s)

    pub wrapped-end :
        (m : Mem) (w : ℕ) (fs gs : List Entry)
        → 0 < log.end
        → w ≤ log.len
        → log.end + size_of d < o
        → Gap log.mem log.len w
        → Run log.mem w o es
        → Run log.mem log.end 0 fs
        → gs ≡ es ++ fs
        → Stored idx term req_id clt_id d log.mem m log.end
        → Holds (placed d log log.end m) o (gs ++ e ∷ [])
    unfolding placed
    wrapped-end m w fs gs p le f g r s eq st =
        wrapped w es (fs ++ e ∷ []) (omega arith) f le
          (Gap-Same m (λ x l u. st.outside x (inr (omega (arith, Run-le r)))) first g)
          (Run-Same m (λ x l u. st.outside x (inr (omega arith))) r) (Run-Stored s st)
          (ap (λ k. k ++ e ∷ []) eq ∙ append_assoc es fs (e ∷ []))
      where
        first : Same log.mem m 0 64
        first x l u = st.outside x (inl (omega (arith, first_entry s)))
          where
            first_entry : {fs : List Entry} → Run log.mem log.end 0 fs → 64 ≤ log.end
            first_entry (done e) = absurd (omega (arith, e))
            first_entry (more next e n le eq r) = omega (arith, n, size-ge log.mem log.mem 0)

    -- The run of the new entry alone, at the start.
    pub alone :
        {m m' : Mem} → Stored idx term req_id clt_id d m m' 0 → Run m' (size_of d) 0 (e ∷ [])
    alone s = more (size_of d) e (rw s.size (omega arith)) (omega arith) (sym s.read) (done refl)

    pub linear-start :
        (m : Mem)
        → log.end < log.len
        → log.len < log.end + 64
        → size_of d < o
        → o ≤ log.end
        → Run log.mem log.end o es
        → Stored idx term req_id clt_id d log.mem m 0
        → Holds (placed d log 0 m) o (es ++ e ∷ [])
    unfolding placed
    linear-start m lt g f le r s =
        wrapped log.end es (e ∷ []) (omega (arith, size_of-ge d)) (omega arith) (omega arith)
          (short g) (Run-Same m (λ x l u. s.outside x (inr (omega arith))) r)
          (subst (λ k. Run m k 0 (e ∷ [])) (omega arith) (alone s)) refl

module _ (idx term req_id clt_id t : ℕ) (cmd : List ℕ) (h : IsData (csm t cmd)) where
  -- The header left at the end says what the entry at the start says.
  pub linear-copied :
      (log : Log) (o : ℕ) (es : List Entry) (m : Mem)
      → IsStamp idx term req_id clt_id
      → log.end + 64 ≤ log.len
      → log.len < log.end + (64 + length cmd)
      → 64 + length cmd < o
      → o ≤ log.end
      → Run log.mem log.end o es
      → Stored idx term req_id clt_id
          (csm t cmd)
          (with_copy idx term req_id clt_id log.mem log.end t cmd)
          m
          0
      → Holds
          (placed (csm t cmd) log 0 m)
          o
          (es ++ new_entry idx term req_id clt_id (csm t cmd) ∷ [])
  unfolding placed
  linear-copied log o es m s f g n le r st =
      wrapped log.end es (new_entry idx term req_id clt_id (csm t cmd) ∷ []) (omega arith)
        (omega arith) (omega arith)
        (copied f (rw size g) (size ∙ sym st.size) (idx-eq ∙ sym first_idx)
          (term-eq ∙ sym first_term))
        (Run-Same m before r)
        (subst (λ k. Run m k 0 (new_entry idx term req_id clt_id (csm t cmd) ∷ [])) (omega arith)
          (alone idx term req_id clt_id (csm t cmd) log o es st))
        refl
    where
      c : Mem
      c = with_copy idx term req_id clt_id log.mem log.end t cmd

      before : Same log.mem m o log.end
      before x l u =
          st.outside x (inr (omega arith))
          ∙ with_copy-Outside log.mem log.end idx term req_id clt_id t cmd x (inl u)

      here : Same c m log.end (log.end + 64)
      here x l u = st.outside x (inr (omega arith))

      size : log_entry_len m log.end ≡ 64 + length cmd
      size =
          len-Same c m log.end here ∙ len-with_copy log.mem log.end idx term req_id clt_id t cmd h

      idx-eq : entry_idx m log.end ≡ idx
      idx-eq =
          idx-Same c m log.end here
          ∙ idx-with_copy log.mem log.end idx term req_id clt_id t cmd s.idx_fits

      term-eq : entry_term m log.end ≡ term
      term-eq =
          term-Same c m log.end here
          ∙ term-with_copy log.mem log.end idx term req_id clt_id t cmd s.term_fits

      first_idx : entry_idx m 0 ≡ idx
      first_idx = unfold read_entry new_entry in ap (λ (x : Entry). x.idx) st.read

      first_term : entry_term m 0 ≡ term
      first_term = unfold read_entry new_entry in ap (λ (x : Entry). x.term) st.read
