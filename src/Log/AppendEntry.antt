-- ===== src/Log/AppendEntry.antt =====
-- What log_append_entry promises to its callers.
use apus.Base.{
  ℕ, ◌^◌, ◌<◌, ◌≡◌, ◌≢◌, refl, ap, sym, ◌∙◌, subst, arith, inl, inr, List, [], ◌∷◌, ◌++◌, some,
  ◌==◌, ◌&&◌, Bool, append_assoc,
}
use native.Mathlib.Decide.{dec_lt}
use apus.Log.State.{Log, Data, Entry, head_type}
use apus.Log.Append.{Appended, type_of, append_new, log_append_entry}
use apus.Log.Written.{size_of, IsData}
use apus.Log.NewEntry.{IsStamp, new_entry}
use apus.Log.Layout.{Holds}
use apus.Log.Refine.{Room}
use apus.Log.Walk.{IsAt}
use apus.Log.Push.{Grown, Pushed, append_new-Holds}
use apus.Log.Window.{Inside, IsTail, IsWindow, idx_after}
use apus.Log.Tail.{log_get_tail-IsTail}
use apus.Log.Grow.{
  set_tail_lem, Holds-set_tail, end-lt-len, end-le-len, snoc-ne-nil, Last-of_IsAt, next_idx_lem,
  Inside-Grown, Room-Inside, start-zero, tail-IsAt,
}

Room-set_tail : (log : Log) (o size t : ℕ) → Room log o size → Room (record log { tail = t }) o size
Room-set_tail log o size t (Room.fresh e f) = Room.fresh e f
Room-set_tail log o size t (Room.at_end f c) = Room.at_end f c
Room-set_tail log o size t (Room.at_start a b c d e) = Room.at_start a b c d e

Inside-head : (log : Log) → Inside log log.head
Inside-head log = elim (dec_lt log.end log.head) [
  | yes h ↦ inr (h, inl (omega arith))
  | no h ↦ inl (omega arith, omega arith, omega arith)
]

module _ (term req_id clt_id : ℕ) (d : Data) (log : Log) (xs ys zs : List Entry)
    (w : IsWindow log xs ys zs) (s : IsStamp (idx_after (xs ++ (ys ++ zs))) term req_id clt_id)
    (h : IsData d) (full : log.end ≢ log.head) (room : Room log log.head (size_of d)) (t : ℕ) where
  abbrev idx : ℕ
  idx = idx_after (xs ++ (ys ++ zs))

  abbrev e : Entry
  e = new_entry (idx_after (xs ++ (ys ++ zs))) term req_id clt_id d

  abbrev result : ℕ × Log
  result = append_new (idx_after (xs ++ (ys ++ zs))) term req_id clt_id (record log { tail = t }) d

  pushed :
      (o : ℕ) (es : List Entry)
      → Inside log o
      → Holds log o es
      → Pushed
          (idx_after (xs ++ (ys ++ zs)))
          term
          req_id
          clt_id
          d
          (record log { tail = t })
          o
          es
          result
  pushed o es i k =
      append_new-Holds (idx_after (xs ++ (ys ++ zs))) term req_id clt_id d (record log { tail = t })
        o es s h w.len_fits full
        (Room-Inside (record log { tail = t }) o (size_of d) i
          (Room-set_tail log log.head (size_of d) t room))
        (Holds-set_tail t k)

  pushed-IsWindow : IsWindow result.1 xs ys (zs ++ e ∷ [])
  pushed-IsWindow = record {
    len_fits = subst (λ k. k < 2 ^ 64) (sym g.len_kept) w.len_fits;
    len_pos = subst (λ k. 0 < k) (sym g.len_kept) w.len_pos;
    whole =
        subst (λ o. Holds result.1 o (xs ++ (ys ++ (zs ++ e ∷ [])))) (sym g.head_kept)
          (subst (Holds result.1 log.head) regroup whole_pushed.2);
    unapplied =
        subst (λ o. Holds result.1 o (ys ++ (zs ++ e ∷ []))) (sym g.apply_kept)
          (subst (Holds result.1 log.apply) (append_assoc ys zs (e ∷ []))
            (pushed log.apply (ys ++ zs) w.apply_inside w.unapplied).2);
    uncommitted =
        subst (λ o. Holds result.1 o (zs ++ e ∷ [])) (sym g.commit_kept)
          (pushed log.commit zs w.commit_inside w.uncommitted).2;
    apply_inside =
        subst (Inside result.1) (sym g.apply_kept) (inside log.apply w.unapplied w.apply_inside);
    commit_inside =
        subst (Inside result.1) (sym g.commit_kept)
          (inside log.commit w.uncommitted w.commit_inside);
    tail_right = inr (
        subst (λ es. IsTail result.1 es result.1.tail) regroup
          (Last-of_IsAt result.1 (λ k. k ≡ result.1.len) (xs ++ (ys ++ zs)) e result.1.tail at));
  }
    where
      head_inside : Inside log log.head
      head_inside = Inside-head log

      whole_pushed :
          Pushed idx term req_id clt_id d
            (record log { tail = t })
            log.head
            (xs ++ (ys ++ zs))
            result
      whole_pushed = pushed log.head (xs ++ (ys ++ zs)) head_inside w.whole

      g : Grown idx term (size_of d) (record log { tail = t }) result.1
      g = whole_pushed.1

      regroup : (xs ++ (ys ++ zs)) ++ e ∷ [] ≡ xs ++ (ys ++ (zs ++ e ∷ []))
      regroup =
          append_assoc xs (ys ++ zs) (e ∷ []) ∙ ap (λ k. xs ++ k) (append_assoc ys zs (e ∷ []))

      inside : {es : List Entry} (o : ℕ) → Holds log o es → Inside log o → Inside result.1 o
      inside o k i =
          Inside-Grown (record log { tail = t }) result.1 o g
            (Room-set_tail log log.head (size_of d) t room)
            (λ z. (start-zero w.whole z, start-zero k z)) (end-le-len w.whole) i

      at : IsAt result.1 e result.1.tail
      at =
          tail-IsAt idx term req_id clt_id d (record log { tail = t }) result.1 g
            (end-lt-len whole_pushed.2 (snoc-ne-nil (xs ++ (ys ++ zs)) e))
            (subst (λ k. k < 2 ^ 64) (sym g.len_kept) w.len_fits)

-- In a log that holds three lists of entries, with room for one more, log_append_entry ends; it
-- returns the index after that of the last entry, 1 in an empty log; and the log then holds the new
-- entry, read back field by field, behind those that are not committed, and no other entry changes.
-- The flag of a HEAD entry is kept only if the new entry is one, too.
pub log_append_entry-IsWindow :
    (prev_head : Bool) (term req_id clt_id : ℕ) (d : Data) (log : Log) (xs ys zs : List Entry)
    → IsWindow log xs ys zs
    → IsStamp (idx_after (xs ++ (ys ++ zs))) term req_id clt_id
    → IsData d
    → log.end ≢ log.head
    → Room log log.head (size_of d)
    → (r : Appended) × (log_append_entry prev_head log term req_id clt_id d ≡ some r)
      × (r.idx ≡ idx_after (xs ++ (ys ++ zs)))
      × (r.prev_head ≡ (type_of d == head_type && prev_head))
      × IsWindow r.log xs ys
          (zs ++ new_entry (idx_after (xs ++ (ys ++ zs))) term req_id clt_id d ∷ [])
unfolding log_append_entry
log_append_entry-IsWindow prev_head term req_id clt_id d log xs ys zs w s h full room =
    let (t, q, i) = log_get_tail-IsTail log xs ys zs w in
    (
      record {
        idx =
            (append_new (idx_after (xs ++ (ys ++ zs))) term req_id clt_id (record log { tail = t })
              d).0;
        prev_head = type_of d == head_type && prev_head;
        log =
            (append_new (idx_after (xs ++ (ys ++ zs))) term req_id clt_id (record log { tail = t })
              d).1;
      },
      rw (set_tail_lem log t q) (rw (next_idx_lem log (xs ++ (ys ++ zs)) t w.whole full i)),
      (pushed term req_id clt_id d log xs ys zs w s h full room t log.head (xs ++ (ys ++ zs))
          (Inside-head log) w.whole).0,
      refl,
      pushed-IsWindow term req_id clt_id d log xs ys zs w s h full room t,
    )
