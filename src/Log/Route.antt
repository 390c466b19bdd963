-- ===== src/Log/Route.antt =====
-- The loops of the server over a log that holds a list of entries: where an entry does not fit at
-- its offset, they start anew at the start of the buffer.
use apus.Base.{
  ℕ, ◌+◌, ◌^◌, ◌≤◌, ◌<◌, ◌≡◌, inl, inr, refl, ap₂, sym, subst, arith, true, false, some, List, [],
  ◌∷◌, ◌++◌, map, add64, add64_of_lt,
}
use apus.Log.State.{Log, Entry}
use apus.Log.Entry.{log_entry_len, read_entry}
use apus.Log.Offsets.{log_fit_entry, log_get_entry, log_offset_end_distance}
use apus.Log.Frame.{size-ge}
use apus.Log.Layout.{Run, done, more, Gap, short, copied, Holds, empty, linear, wrapped}
use apus.Log.Walk.{get-at, get-short}

-- From the second offset on there is less to the end than from the first.
abbrev pub IsCloser : Log → ℕ → ℕ → Type 0
IsCloser log a b = log_offset_end_distance log a < log_offset_end_distance log b

-- The offsets of the entries that such a loop meets from the offset o on.
pub data Route (log : Log) : ℕ → List ℕ → Type 0 where
  stop : {o : ℕ} → log_offset_end_distance log o ≡ 0 → Route log o []
  entry :
      {o : ℕ} {xs : List ℕ} (a : ℕ)
      → log_offset_end_distance log a ≤ log_offset_end_distance log o
      → IsCloser log (add64 a (log_entry_len log.mem a)) o
      → log_get_entry log o ≡ some a
      → log_fit_entry log a a ≡ true
      → Route log (add64 a (log_entry_len log.mem a)) xs
      → Route log o (a ∷ xs)
  gap :
      {o : ℕ} {xs : List ℕ}
      → IsCloser log 0 o
      → log_get_entry log o ≡ some o
      → log_fit_entry log o o ≡ false
      → IsCloser log (add64 0 (log_entry_len log.mem 0)) 0
      → log_get_entry log 0 ≡ some 0
      → log_fit_entry log 0 0 ≡ true
      → Route log (add64 0 (log_entry_len log.mem 0)) xs
      → Route log o (0 ∷ xs)

module _ (log : Log) (small : log.len < 2 ^ 64) where
  near : (a n : ℕ) → log.end < log.len → 0 < n → a + n ≤ log.end → IsCloser log (a + n) a
  unfolding log_offset_end_distance
  near a n h p k = ground (arith, small, h, p, k)

  beyond : (a n : ℕ) → 0 < n → log.end < a → a + n ≤ log.len → IsCloser log (a + n) a
  unfolding log_offset_end_distance
  beyond a n p h k = ground (arith, small, p, h, k)

  over : (a n : ℕ) → 0 < n → log.end < a → a ≤ log.len → n ≤ log.end → IsCloser log n a
  unfolding log_offset_end_distance
  over a n p h k l = ground (arith, small, p, h, k, l)

  start_closer :
      (a : ℕ)
      → log.end < a
      → a ≤ log.len
      → log_offset_end_distance log 0 ≤ log_offset_end_distance log a
  unfolding log_offset_end_distance
  start_closer a h k = ground (arith, small, h, k)

  over_gap : (a : ℕ) → log.end < a → a < log.len → IsCloser log 0 a
  unfolding log_offset_end_distance
  over_gap a h k = ground (arith, small, h, k)

  at_end : log.end < log.len → log_offset_end_distance log log.end ≡ 0
  unfolding log_offset_end_distance
  at_end h = ground (arith, h)

  fits : (a : ℕ) → a + log_entry_len log.mem a ≤ log.len → log_fit_entry log a a ≡ true
  unfolding log_fit_entry
  fits a h = ground (arith, small, h)

  fits-not :
      (a : ℕ) → a ≤ log.len → log.len < a + log_entry_len log.mem a → log_fit_entry log a a ≡ false
  unfolding log_fit_entry
  fits-not a h k = ground (arith, small, h, k)

  -- The entries, and their offsets.
  abbrev RouteOf : ℕ → List Entry → Type 0
  RouteOf o es = (xs : List ℕ) × Route log o xs × (map (read_entry log.mem) xs ≡ es)

  at_next : {a b : ℕ} {es : List Entry} → a ≡ b → RouteOf a es → RouteOf b es
  at_next {a} {b} {es} n p = subst (λ x. RouteOf x es) n p

  entry-Route :
      {o : ℕ} {es : List Entry} (a : ℕ) (e : Entry)
      → log_offset_end_distance log a ≤ log_offset_end_distance log o
      → IsCloser log (a + log_entry_len log.mem a) o
      → log_get_entry log o ≡ some a
      → a + log_entry_len log.mem a ≤ log.len
      → e ≡ read_entry log.mem a
      → RouteOf (a + log_entry_len log.mem a) es
      → RouteOf o (e ∷ es)
  entry-Route {o} a e c d g f eq (xs, p, q) =
      let k = sym (add64_of_lt a (log_entry_len log.mem a) (omega (arith, f, small))) in
      (
        a ∷ xs,
        entry a c (subst (λ x. IsCloser log x o) k d) g (fits a f)
            (subst (λ x. Route log x xs) k p),
        ap₂ ◌∷◌ (sym eq) q,
      )

  Run-Route :
      {a : ℕ} {es : List Entry} → log.end < log.len → Run log.mem log.end a es → RouteOf a es
  Run-Route h (done e) = ([], stop (rw e (at_end h)), refl)
  Run-Route {a} h (more next e n le eq r) =
      let k = size-ge log.mem log.mem a in
      entry-Route a e (omega arith)
        (near a (log_entry_len log.mem a) h (omega (arith, k)) (omega (arith, n, le)))
        (get-at log small a h (omega (arith, n, le, h, k)) (inl (omega (arith, n, le, k))))
        (omega (arith, n, le)) eq (at_next n (Run-Route h r))

  Gap-Route :
      (w : ℕ) {fs : List Entry}
      → 0 < log.end
      → log.end < w
      → w ≤ log.len
      → Gap log.mem log.len w
      → Run log.mem log.end 0 fs
      → RouteOf w fs
  Gap-Route w p lt le g (done e) = absurd (omega (arith, e, p))
  Gap-Route w p lt le (short s) (more next e n le' eq r) =
      let h = size-ge log.mem log.mem 0 in
      entry-Route 0 e (start_closer w lt le)
        (over w (0 + log_entry_len log.mem 0) (omega (arith, h)) lt le (omega (arith, n, le')))
        (get-short log small w p lt le s) (omega (arith, n, le', lt, le)) eq
        (at_next n (Run-Route (omega (arith, lt, le)) r))
  Gap-Route w p lt le (copied room big size idx term) (more {es} next e n le' eq r) =
      let h = size-ge log.mem log.mem 0 in
      let k =
        sym (add64_of_lt 0 (log_entry_len log.mem 0) (omega (arith, n, le', lt, le, small))) in
      let (xs, q, l) = at_next n (Run-Route (omega (arith, lt, le)) r) in
      (
        0 ∷ xs,
        gap (over_gap w lt (omega (arith, room)))
            (get-at log small w (omega (arith, lt, le)) room (inr (lt, p))) (fits-not w le big)
            (subst (λ x. IsCloser log x 0) k
              (near 0 (log_entry_len log.mem 0) (omega (arith, lt, le)) (omega (arith, h))
                (omega (arith, n, le'))))
            (get-at log small 0 (omega (arith, lt, le)) (omega (arith, n, le', lt, le, h)) (inl p))
            (fits 0 (omega (arith, n, le', lt, le))) (subst (λ x. Route log x xs) k q),
        ap₂ ◌∷◌ (sym eq) l,
      )

  wrapped-Route :
      (w : ℕ) {a : ℕ} {es fs : List Entry}
      → 0 < log.end
      → log.end < a
      → w ≤ log.len
      → Gap log.mem log.len w
      → Run log.mem w a es
      → Run log.mem log.end 0 fs
      → RouteOf a (es ++ fs)
  wrapped-Route w {a} p lt le g (done e) s =
      Gap-Route a p lt (omega (arith, e, le)) (subst (Gap log.mem log.len) (sym e) g) s
  wrapped-Route w {a} p lt le g (more next e n le' eq r) s =
      let h = size-ge log.mem log.mem a in
      entry-Route a e (omega arith)
        (beyond a (log_entry_len log.mem a) (omega (arith, h)) lt (omega (arith, n, le', le)))
        (get-at log small a (omega (arith, n, le', le, lt)) (omega (arith, n, le', le, h))
          (inr (lt, p)))
        (omega (arith, n, le', le)) eq
        (at_next n (wrapped-Route w p (omega (arith, n, lt)) le g r s))

  none_left : (o : ℕ) → log.end ≡ log.len → log_offset_end_distance log o ≡ 0
  unfolding log_offset_end_distance
  none_left o e = ground (arith, e)

  -- A log that holds some entries has a route through them.
  pub Holds-Route :
      {o : ℕ} {es : List Entry}
      → Holds log o es
      → (xs : List ℕ) × Route log o xs × (map (read_entry log.mem) xs ≡ es)
  Holds-Route {o} (empty e z) = ([], stop (none_left o e), refl)
  Holds-Route (linear lt r) = Run-Route lt r
  Holds-Route (wrapped w es fs p lt le g r s e) = rw e (wrapped-Route w p lt le g r s)
