-- ===== src/Log/Walk.antt =====
-- The walks of src/include/dare/dare_log.h over a log that holds a list of entries.
use apus.Base.{
  ℕ, zero, suc, ◌+◌, ◌^◌, ◌≤◌, ◌<◌, ◌≡◌, ◌⊎◌, refl, ap, sym, ◌∙◌, subst, arith, inl, inr, List, [],
  ◌∷◌, ◌++◌, length, none, some,
}
use apus.Log.State.{Log, Entry, NcBuf}
use apus.Log.Entry.{entry_idx, entry_term, log_entry_len, read_entry}
use apus.Log.Offsets.{log_fit_entry, log_get_entry}
use apus.Log.Scan.{skip_entry, det_at, entries_to_nc_buf, find_tail}
use apus.Log.Frame.{size-ge}
use apus.Log.Layout.{Run, done, more, Gap, short, copied, Holds, empty, linear, wrapped}

-- What a loop of log_get_entry and skip_entry meets from the offset o on: entries with these
-- indices and terms, and then no more.
pub data Walk (log : Log) : ℕ → List Entry → Type 0 where
  stop : {o : ℕ} → log_get_entry log o ≡ none → Walk log o []
  step :
      {o : ℕ} {es : List Entry} (a : ℕ) (e : Entry)
      → log_get_entry log o ≡ some a
      → log_get_entry log a ≡ some a
      → e.idx ≡ entry_idx log.mem a
      → e.term ≡ entry_term log.mem a
      → Walk log (skip_entry log a) es
      → Walk log o (e ∷ es)

module _ (log : Log) (small : log.len < 2 ^ 64) where
  -- An offset that an entry starts at.
  pub get-at :
      (a : ℕ)
      → log.end < log.len
      → a + 64 ≤ log.len
      → (a < log.end) ⊎ ((log.end < a) × (0 < log.end))
      → log_get_entry log a ≡ some a
  unfolding log_get_entry
  get-at a e f h = ground arith

  get-end : log.end < log.len → log_get_entry log log.end ≡ none
  unfolding log_get_entry
  get-end h = ground arith

  -- Where no header fits the entry is the one at the start.
  pub get-short :
      (a : ℕ)
      → 0 < log.end
      → log.end < a
      → a ≤ log.len
      → log.len < a + 64
      → log_get_entry log a ≡ some 0
  unfolding log_get_entry
  get-short a e f g h = ground arith

  skip-fits :
      (a : ℕ)
      → a + log_entry_len log.mem a ≤ log.len
      → skip_entry log a ≡ a + log_entry_len log.mem a
  unfolding skip_entry log_fit_entry
  skip-fits a h = ground arith

  skip-copied :
      (a : ℕ)
      → a ≤ log.len
      → log.len < a + log_entry_len log.mem a
      → log_entry_len log.mem a ≤ log.len
      → skip_entry log a ≡ log_entry_len log.mem a
  unfolding skip_entry log_fit_entry
  skip-copied a h k l = ground arith

  Run-Walk :
      {a : ℕ} {es : List Entry} → log.end < log.len → Run log.mem log.end a es → Walk log a es
  Run-Walk h (done e) = stop (rw e (get-end h))
  Run-Walk {a} h (more next e n le eq r) =
      step a e at at (ap (λ (x : Entry). x.idx) eq ∙ unfold read_entry in refl)
        (ap (λ (x : Entry). x.term) eq ∙ unfold read_entry in refl)
        (rw (skip-fits a (omega (arith, n, le)), ← n) (Run-Walk h r))
    where
      at : log_get_entry log a ≡ some a
      at =
          get-at a h (omega (arith, size-ge log.mem log.mem a))
            (inl (omega (arith, size-ge log.mem log.mem a)))

  Gap-Walk :
      (w : ℕ) {fs : List Entry}
      → 0 < log.end
      → log.end < w
      → w ≤ log.len
      → Gap log.mem log.len w
      → Run log.mem log.end 0 fs
      → Walk log w fs
  Gap-Walk w p lt le g (done e) = absurd (omega (arith, e))
  Gap-Walk w p lt le (short s) (more next e n le' eq r) =
      step 0 e (get-short w p lt le s)
        (get-at 0 (omega arith) (omega (arith, size-ge log.mem log.mem 0)) (inl p))
        (ap (λ (x : Entry). x.idx) eq ∙ unfold read_entry in refl)
        (ap (λ (x : Entry). x.term) eq ∙ unfold read_entry in refl)
        (rw (skip-fits 0 (omega (arith, n, le')), ← n) (Run-Walk (omega arith) r))
  Gap-Walk w p lt le (copied fits big size idx term) (more next e n le' eq r) =
      step w e at at (ap (λ (x : Entry). x.idx) eq ∙ unfold read_entry in sym idx)
        (ap (λ (x : Entry). x.term) eq ∙ unfold read_entry in sym term)
        (rw (skip-copied w le big (omega (arith, n, size)) ∙ size ∙ first)
          (Run-Walk (omega arith) r))
    where
      at : log_get_entry log w ≡ some w
      at = get-at w (omega arith) fits (inr (lt, p))

      first : log_entry_len log.mem 0 ≡ next
      first = omega (arith, n)

  wrapped-Walk :
      (w : ℕ) {a : ℕ} {es fs : List Entry}
      → 0 < log.end
      → log.end < a
      → w ≤ log.len
      → Gap log.mem log.len w
      → Run log.mem w a es
      → Run log.mem log.end 0 fs
      → Walk log a (es ++ fs)
  wrapped-Walk w {a} p lt le g (done e) s =
      Gap-Walk a p lt (omega arith) (subst (Gap log.mem log.len) (sym e) g) s
  wrapped-Walk w {a} p lt le g (more next e n le' eq r) s =
      step a e at at (ap (λ (x : Entry). x.idx) eq ∙ unfold read_entry in refl)
        (ap (λ (x : Entry). x.term) eq ∙ unfold read_entry in refl)
        (rw (skip-fits a (omega (arith, n, le')), ← n)
          (wrapped-Walk w p (omega (arith, n)) le g r s))
    where
      at : log_get_entry log a ≡ some a
      at = get-at a (omega (arith, n)) (omega (arith, n, size-ge log.mem log.mem a)) (inr (lt, p))

  get-empty : (o : ℕ) → log.end ≡ log.len → log_get_entry log o ≡ none
  unfolding log_get_entry
  get-empty o e = ground arith

  pub Holds-Walk : {o : ℕ} {es : List Entry} → Holds log o es → Walk log o es
  Holds-Walk {o} (empty e z) = stop (get-empty o e)
  Holds-Walk (linear lt r) = Run-Walk lt r
  Holds-Walk (wrapped w es fs p lt le g r s e) = rw e (wrapped-Walk w p lt le g r s)

-- The offset t is that of this entry.
abbrev pub IsAt : Log → Entry → ℕ → Type 0
IsAt log e t =
    (log_get_entry log t ≡ some t) × (e.idx ≡ entry_idx log.mem t) × (e.term ≡ entry_term log.mem t)

-- The determinants of these entries, in order: index, term, and an offset where the entry is.
abbrev pub AreDets : Log → NcBuf → List Entry → Type 0
AreDets log [] [] = Unit
AreDets log [] (e ∷ es) = ⊥
AreDets log (d ∷ ds) [] = ⊥
AreDets log (d ∷ ds) (e ∷ es) =
    (d.idx ≡ e.idx) × (d.term ≡ e.term) × IsAt log e d.offset × AreDets log ds es

pub length-AreDets :
    (log : Log) (ds : NcBuf) (es : List Entry) → AreDets log ds es → length ds ≡ length es
length-AreDets log [] [] h = refl
length-AreDets log [] (e ∷ es) h = absurd h
length-AreDets log (d ∷ ds) [] h = absurd h
length-AreDets log (d ∷ ds) (e ∷ es) h = ap suc (length-AreDets log ds es h.3)

pub nc_buf-Walk :
    {log : Log} (fuel : ℕ) {o : ℕ} {es : List Entry}
    → Walk log o es
    → length es < fuel
    → (ds : NcBuf) × (entries_to_nc_buf fuel log o ≡ some ds) × AreDets log ds es
unfolding entries_to_nc_buf det_at
nc_buf-Walk zero w h = absurd (omega arith)
nc_buf-Walk {log} (suc fuel) (stop g) h = ([], rw (g, entries_to_nc_buf), tt)
nc_buf-Walk {log} (suc fuel) (step a e g g' idx term w) h =
    let (ds, q, k) = nc_buf-Walk fuel w (omega arith) in
    (det_at log a ∷ ds, rw (g, entries_to_nc_buf) (rw q), (sym idx, sym term, (g', idx, term), k))

-- What holds of the offset of the last of these entries, if P holds where there are none.
abbrev pub Last : Log → (ℕ → Type 0) → List Entry → ℕ → Type 0
Last log P [] t = P t
Last log P (e ∷ es) t = Last log (IsAt log e) es t

pub Last-snoc :
    (log : Log) (P : ℕ → Type 0) (es : List Entry) (e : Entry) (t : ℕ)
    → Last log P (es ++ e ∷ []) t
    → IsAt log e t
Last-snoc log P [] e t h = h
Last-snoc log P (f ∷ es) e t h = Last-snoc log (IsAt log f) es e t h

pub tail-Walk :
    {log : Log} (fuel tail : ℕ) (P : ℕ → Type 0) {o : ℕ} {es : List Entry}
    → Walk log o es
    → length es < fuel
    → P tail
    → (t : ℕ) × (find_tail fuel log o tail ≡ some t) × Last log P es t
unfolding find_tail
tail-Walk zero tail P w h p = absurd (omega arith)
tail-Walk (suc fuel) tail P (stop g) h p = (tail, rw (g, find_tail), p)
tail-Walk {log} (suc fuel) tail P (step a e g g' idx term w) h p =
    let (t, q, l) = tail-Walk fuel a (IsAt log e) w (omega arith) (g', idx, term) in
    (t, rw (g, find_tail) q, l)
