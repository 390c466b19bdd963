-- ===== src/Log/Tail.antt =====
-- log_get_tail finds the last entry, and the index after it is the next.
use apus.Base.{
  ℕ, ◌≡◌, ◌≢◌, subst, arith, inl, inr, List, [], ◌∷◌, ◌++◌, some, ◌==◌, true, false, Bool-cases,
  ==_iff,
}
use mathlib.Core.List.{append_assoc}
use apus.Log.State.{Log, Entry}
use apus.Log.Offsets.{is_log_empty}
use apus.Log.Scan.{log_get_tail}
use apus.Log.Window.{IsTail, IsWindow, Last-suffix, Holds-none, search_from}

IsTail-suffix :
    (log : Log) (xs zs : List Entry) (t : ℕ)
    → IsTail log zs t
    → t ≢ log.len
    → IsTail log (xs ++ zs) t
IsTail-suffix log xs [] t h ne = absurd (ne h)
IsTail-suffix log xs (c ∷ zs) t h ne =
    Last-suffix log (λ k. k ≡ log.len) (λ k. k ≡ log.len) xs c zs t h

abbrev FoundTail : Log → List Entry → Type 0
FoundTail log es = (t : ℕ) × (log_get_tail log ≡ some t) × IsTail log es t

module _ (log : Log) (xs ys zs : List Entry) (w : IsWindow log xs ys zs) where
  known : (log.tail == log.len) ≡ false → FoundTail log (xs ++ (ys ++ zs))
  unfolding log_get_tail
  known e = (log.tail, rw e, elim w.tail_right [ inl z ↦ absurd (ne z) | inr h ↦ h ])
    where
      ne : log.tail ≢ log.len
      ne z = ground (arith, z)

  searched : log.tail ≡ log.len → is_log_empty log ≡ false → FoundTail log (xs ++ (ys ++ zs))
  unfolding log_get_tail
  searched z n =
      let (t, q, h) = search_from log log.commit zs w.len_fits w.uncommitted in
      let (u, r, k) = search_from log log.apply (ys ++ zs) w.len_fits w.unapplied in
      let (v, s, l) = search_from log log.head (xs ++ (ys ++ zs)) w.len_fits w.whole in
      elim (Bool-cases (t == log.len)) [
        | inr e ↦ (
          t,
          rw (tail_unknown, n, q) (rw e),
          subst (λ es. IsTail log es t) (append_assoc xs ys zs)
              (IsTail-suffix log (xs ++ ys) zs t h (λ x. ground (arith, x))),
        )
        | inl e ↦ elim (Bool-cases (u == log.len)) [
          | inr f ↦ (
            u,
            rw (tail_unknown, n, q) (rw (e, r) (rw f)),
            IsTail-suffix log xs (ys ++ zs) u k (λ x. ground (arith, x)),
          )
          | inl f ↦ (v, rw (tail_unknown, n, q) (rw (e, r) (rw (f, s))), l)
        ]
      ]
    where
      tail_unknown : (log.tail == log.len) ≡ true
      tail_unknown = ground arith

  -- log_get_tail ends, with the offset of the last entry, or the length of the buffer if there is
  -- none, whether or not the tail is known.
  pub log_get_tail-IsTail : FoundTail log (xs ++ (ys ++ zs))
  log_get_tail-IsTail = elim (Bool-cases (log.tail == log.len)) [
    | inr e ↦ known e
    | inl e ↦ elim (Bool-cases (is_log_empty log)) [
      | inr n ↦ searched ((==_iff _ _).0 e) n
      | inl n ↦ (
        log.len,
        unfold log_get_tail in rw (e, n),
        rw (Holds-none w.whole (unfold is_log_empty in (==_iff _ _).0 (unfold is_log_empty in n))),
      )
    ]
  ]
