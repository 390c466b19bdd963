-- ===== src/Log/Grow.antt =====
-- log_append_entry as a whole: the search for the tail, the index, and the new entry.
use apus.Base.{
  ℕ, ◌+◌, ◌^◌, ◌≤◌, ◌<◌, ◌≡◌, ◌≢◌, ◌⊎◌, refl, ap, sym, ◌∙◌, arith, inl, inr, List, [], ◌∷◌, ◌++◌,
  length, length-append, none, some, ◌==◌, false, add64, Bool-cases,
}
use apus.Log.State.{Log, Data, Entry}
use apus.Log.Entry.{entry_idx}
use apus.Log.Offsets.{log_get_entry}
use apus.Log.Scan.{log_get_tail}
use apus.Log.Append.{set_tail, next_idx}
use apus.Log.Written.{size_of, size_of-ge}
use apus.Log.NewEntry.{new_entry}
use apus.Log.Layout.{done, more, Run-le, Holds, empty, linear, wrapped}
use apus.Log.Walk.{IsAt, Last}
use apus.Log.Refine.{Room, fresh, at_end, at_start}
use apus.Log.Push.{Grown}
use apus.Log.Window.{Inside, IsTail, last_idx, idx_after}

pub set_tail_lem :
    (log : Log) (t : ℕ) → log_get_tail log ≡ some t → set_tail log ≡ some (record log { tail = t })
unfolding set_tail
set_tail_lem log t q = elim (Bool-cases (log.tail == log.len)) [
  | inl e ↦ rw e (rw q)
  | inr e ↦ rw e (ap (λ k. some (record log { tail = k })) (known e))
]
  where
    known : (log.tail == log.len) ≡ false → log.tail ≡ t
    known e = unfold log_get_tail in ground (arith, q, e)

pub Holds-set_tail :
    {log : Log} {o : ℕ} {es : List Entry} (t : ℕ)
    → Holds log o es
    → Holds (record log { tail = t }) o es
Holds-set_tail t (empty e z) = empty e z
Holds-set_tail t (linear lt r) = linear lt r
Holds-set_tail t (wrapped w fs gs p lt le g r s e) = wrapped w fs gs p lt le g r s e

-- Only an empty log holds no entries from its head on.
none_held :
    {log : Log} {o : ℕ} {es : List Entry}
    → Holds log o es
    → es ≡ []
    → log.end ≢ o
    → log.end ≡ log.len
none_held (empty e z) n h = e
none_held (linear lt (done e)) n h = absurd (h (sym e))
none_held (linear lt (more next e a b c r)) n h = absurd (omega (arith, ap length n))
none_held (wrapped w fs gs p lt le g r (done e) eq) n h = absurd (omega (arith, e))
none_held (wrapped w fs gs p lt le g r (more {es = rest} next e a b c s) eq) n h =
    absurd (omega (arith, ap length (sym eq ∙ n), length-append fs (e ∷ rest)))

pub end-lt-len :
    {log : Log} {o : ℕ} {es : List Entry} → Holds log o es → es ≢ [] → log.end < log.len
end-lt-len (empty e z) h = absurd (h refl)
end-lt-len (linear lt r) h = lt
end-lt-len (wrapped w fs gs p lt le g r s e) h = omega (arith, Run-le r)

pub snoc-ne-nil {ℓ} : {A : Type ℓ} (xs : List A) (x : A) → xs ++ x ∷ [] ≢ []
snoc-ne-nil xs x e = omega (arith, ap length e, length-append xs (x ∷ []))

Last-last_idx :
    (log : Log) (P : ℕ → Type 0) (n : ℕ) (c : Entry) (cs : List Entry) (t : ℕ)
    → Last log P (c ∷ cs) t
    → (log_get_entry log t ≡ some t) × (entry_idx log.mem t ≡ last_idx n (c ∷ cs))
Last-last_idx log P n c [] t h = (h.0, sym h.1)
Last-last_idx log P n c (d ∷ cs) t h = Last-last_idx log (IsAt log c) c.idx d cs t h

pub Last-of_IsAt :
    (log : Log) (P : ℕ → Type 0) (es : List Entry) (e : Entry) (t : ℕ)
    → IsAt log e t
    → Last log P (es ++ e ∷ []) t
Last-of_IsAt log P [] e t h = h
Last-of_IsAt log P (f ∷ es) e t h = Last-of_IsAt log (IsAt log f) es e t h

get_entry-set_tail :
    (log : Log) (t o : ℕ) → log_get_entry (record log { tail = t }) o ≡ log_get_entry log o
unfolding log_get_entry
get_entry-set_tail log t o = refl

get_entry-empty : (log : Log) (o : ℕ) → log.end ≡ log.len → log_get_entry log o ≡ none
unfolding log_get_entry
get_entry-empty log o e = ground arith

-- The index follows that of the last entry.
pub next_idx_lem :
    (log : Log) (es : List Entry) (t : ℕ)
    → Holds log log.head es
    → log.end ≢ log.head
    → IsTail log es t
    → next_idx (record log { tail = t }) ≡ idx_after es
unfolding next_idx
next_idx_lem log [] t h full i =
    rw (get_entry-set_tail log t t ∙ get_entry-empty log t (none_held h refl full), next_idx)
next_idx_lem log (c ∷ cs) t h full i =
    let (g, e) = Last-last_idx log (λ k. k ≡ log.len) 0 c cs t i in
    rw (get_entry-set_tail log t t ∙ g, next_idx) (ap (λ k. add64 k 1) e)

-- An offset inside the log stays inside when the log grows.
pub Inside-Grown :
    {idx term size : ℕ} (log log' : Log) (o : ℕ)
    → Grown idx term size log log'
    → Room log log.head size
    → (log.end ≡ log.len → (log.head ≡ 0) × (o ≡ 0))
    → log.end ≤ log.len
    → Inside log o
    → Inside log' o
Inside-Grown log log' o g (fresh e f) z le i =
    let (a, b) = z e in inl (omega arith, omega arith, omega arith)
Inside-Grown log log' o g (at_end f c) z le (inl i) = inl (omega arith, omega arith, omega arith)
Inside-Grown log log' o g (at_end f c) z le (inr (lt, inl i)) = inr (omega arith, inl (omega arith))
Inside-Grown log log' o g (at_end f c) z le (inr (lt, inr i)) = inr (omega arith, inr (omega arith))
Inside-Grown log log' o g (at_start a b c d e) z le (inl i) = inr (omega arith, inl (omega arith))
Inside-Grown log log' o g (at_start a b c d e) z le (inr i) = absurd (omega arith)

-- Room behind the head is room behind every offset inside the log.
pub Room-Inside : (log : Log) (o size : ℕ) → Inside log o → Room log log.head size → Room log o size
Room-Inside log o size i (fresh e f) = fresh e f
Room-Inside log o size i (at_end f c) = at_end f (inside i)
  where
    inside : Inside log o → (o ≤ log.end) ⊎ (log.end + size < o)
    inside (inl i) = inl (omega arith)
    inside (inr (lt, inl i)) = inr (omega arith)
    inside (inr (lt, inr i)) = inl i
Room-Inside log o size (inl i) (at_start a b c d e) = at_start a b (omega arith) (omega arith) e
Room-Inside log o size (inr i) (at_start a b c d e) = absurd (omega arith)

-- In an empty log every offset that entries are held from is 0.
pub start-zero : {log : Log} {o : ℕ} {es : List Entry} → Holds log o es → log.end ≡ log.len → o ≡ 0
start-zero (empty e z) h = z
start-zero (linear lt r) h = absurd (omega arith)
start-zero (wrapped w fs gs p lt le g r s e) h = absurd (omega (arith, Run-le r))

pub end-le-len : {log : Log} {o : ℕ} {es : List Entry} → Holds log o es → log.end ≤ log.len
end-le-len (empty e z) = omega arith
end-le-len (linear lt r) = omega arith
end-le-len (wrapped w fs gs p lt le g r s e) = omega (arith, Run-le r)

-- The tail that the call leaves is the offset of the new entry.
pub tail-IsAt :
    (idx term req_id clt_id : ℕ) (d : Data) (log log' : Log)
    → Grown idx term (size_of d) log log'
    → log'.end < log'.len
    → log'.len < 2 ^ 64
    → IsAt log' (new_entry idx term req_id clt_id d) log'.tail
unfolding new_entry log_get_entry
tail-IsAt idx term req_id clt_id d log log' g lt small =
    (ground (arith, size_of-ge d), sym g.tail_idx, sym g.tail_term)
