-- ===== src/Log/Layout.antt =====
-- How the entries lie in the circular buffer, as a list of entries.
use apus.Base.{
  ℕ, ◌+◌, ◌*◌, ◌≤◌, ◌<◌, ◌≡◌, refl, ap, sym, ◌∙◌, arith, List, [], ◌∷◌, ◌++◌, length, length-append,
}
use apus.Log.Mem.{Mem, Same}
use apus.Log.State.{Log, Entry}
use apus.Log.Entry.{entry_idx, entry_term, log_entry_len, read_entry}
use apus.Log.Frame.{idx-Same, term-Same, len-Same, size-ge, narrow, entry-Same}

-- The entries from one offset to another, each behind the one before it.
pub data Run (m : Mem) (last : ℕ) : ℕ → List Entry → Type 0 where
  done : {a : ℕ} → a ≡ last → Run m last a []
  more :
      {a : ℕ} {es : List Entry} (next : ℕ) (e : Entry)
      → next ≡ a + log_entry_len m a
      → next ≤ last
      → e ≡ read_entry m a
      → Run m last next es
      → Run m last a (e ∷ es)

-- Why the entries go on at the start of the buffer from the offset w: no header fits there, or
-- a header whose command does not fit, and which the entry at the start repeats.
pub data Gap (m : Mem) (len w : ℕ) : Type 0 where
  short : len < w + 64 → Gap m len w
  copied :
      w + 64 ≤ len
      → len < w + log_entry_len m w
      → log_entry_len m w ≡ log_entry_len m 0
      → entry_idx m w ≡ entry_idx m 0
      → entry_term m w ≡ entry_term m 0
      → Gap m len w

-- The log holds these entries from the offset o to its end. Two things that the code leaves to
-- its callers are part of it: the end never reaches the start, which would read as an empty log,
-- nor the length of the buffer, which would, too.
pub data Holds (log : Log) (o : ℕ) : List Entry → Type 0 where
  empty : log.end ≡ log.len → o ≡ 0 → Holds log o []
  linear : {es : List Entry} → log.end < log.len → Run log.mem log.end o es → Holds log o es
  wrapped :
      {gs : List Entry} (w : ℕ) (es fs : List Entry)
      → 0 < log.end
      → log.end < o
      → w ≤ log.len
      → Gap log.mem log.len w
      → Run log.mem w o es
      → Run log.mem log.end 0 fs
      → gs ≡ es ++ fs
      → Holds log o gs

pub Run-le : {m : Mem} {b a : ℕ} {es : List Entry} → Run m b a es → a + 64 * length es ≤ b
Run-le (done e) = omega arith
Run-le {m} {b} {a} (more next e n le eq r) = omega (arith, Run-le r, size-ge m m a)

pub Run-Same :
    {m : Mem} (m' : Mem) {b a : ℕ} {es : List Entry} → Same m m' a b → Run m b a es → Run m' b a es
Run-Same m' h (done e) = done e
Run-Same {m} m' {b} {a} h (more next e n le eq r) =
    more next e (n ∙ ap (λ k. a + k) (sym (len-Same m m' a (narrow m m' a own)))) le
      (eq ∙ sym (entry-Same m m' a own)) (Run-Same m' (λ x p q. h x (omega arith) q) r)
  where
    own : Same m m' a (a + log_entry_len m a)
    own x p q = h x p (omega arith)

-- One more entry behind the last.
pub Run-snoc :
    {m : Mem} {b a : ℕ} {es : List Entry} (c : ℕ) (e : Entry)
    → Run m b a es
    → c ≡ b + log_entry_len m b
    → e ≡ read_entry m b
    → Run m c a (es ++ e ∷ [])
Run-snoc {m} {b} {a} c e (done p) n eq = more c e (rw p n) (omega arith) (rw p eq) (done refl)
Run-snoc {m} {b} c e (more next f n' le eq' r) n eq =
    more next f n' (omega arith) eq' (Run-snoc c e r n eq)

pub Gap-Same :
    {m : Mem} (m' : Mem) {len w : ℕ} → Same m m' w len → Same m m' 0 64 → Gap m len w → Gap m' len w
Gap-Same m' h k (short s) = short s
Gap-Same {m} m' {len} {w} h k (copied fits big size idx term) =
    copied fits (rw (len-Same m m' w own) big)
      (rw (len-Same m m' w own, len-Same m m' 0 first) size)
      (rw (idx-Same m m' w own, idx-Same m m' 0 first) idx)
      (rw (term-Same m m' w own, term-Same m m' 0 first) term)
  where
    own : Same m m' w (w + 64)
    own x p q = h x p (omega arith)

    first : Same m m' 0 (0 + 64)
    first x p q = k x p (omega arith)

-- Each entry takes at least 64 bytes of the buffer.
pub Holds-length : {log : Log} {o : ℕ} {es : List Entry} → Holds log o es → 64 * length es ≤ log.len
Holds-length (empty e z) = omega arith
Holds-length (linear lt r) = omega (arith, Run-le r)
Holds-length (wrapped w es fs p lt wl g r s e) =
    omega (arith, Run-le r, Run-le s, ap length e, length-append es fs)
