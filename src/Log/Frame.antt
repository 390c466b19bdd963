-- ===== src/Log/Frame.antt =====
-- An entry depends on its own bytes only.
use apus.Base.{ℕ, ◌+◌, ◌≤◌, ◌≡◌, false, arith, Bool-cases, inl, inr}
use apus.Log.Mem.{Mem, load, Same, load-Same, bytes-Same}
use apus.Log.Entry.{
  entry_idx, entry_term, entry_req_id, entry_clt_id, entry_type, entry_cmd_len, entry_cmd,
  entry_head, entry_cid, is_plain, log_entry_len, read_data, read_entry,
}

module _ (m m' : Mem) (a : ℕ) where
  -- A field inside the first 64 bytes.
  field-Same : Same m m' a (a + 64) → (k n : ℕ) → k + n ≤ 64 → load m' (a + k) n ≡ load m (a + k) n
  field-Same h k n le = load-Same m m' (a + k) n (λ x p q. h x (omega arith) (omega arith))

  pub type-Same : Same m m' a (a + 64) → entry_type m' a ≡ entry_type m a
  unfolding entry_type
  type-Same h = field-Same h 26 1 (omega arith)

  pub cmd_len-Same : Same m m' a (a + 64) → entry_cmd_len m' a ≡ entry_cmd_len m a
  unfolding entry_cmd_len
  cmd_len-Same h = field-Same h 48 2 (omega arith)

  pub idx-Same : Same m m' a (a + 64) → entry_idx m' a ≡ entry_idx m a
  unfolding entry_idx
  idx-Same h = load-Same m m' a 8 (λ x p q. h x (omega arith) (omega arith))

  pub term-Same : Same m m' a (a + 64) → entry_term m' a ≡ entry_term m a
  unfolding entry_term
  term-Same h = field-Same h 8 8 (omega arith)

  pub len-Same : Same m m' a (a + 64) → log_entry_len m' a ≡ log_entry_len m a
  unfolding log_entry_len
  len-Same h = rw (type-Same h, cmd_len-Same h)

  cid-Same : Same m m' a (a + 64) → entry_cid m' a ≡ entry_cid m a
  unfolding entry_cid
  cid-Same h = λ i. record {
    epoch = field-Same h 48 8 (omega arith) i;
    size = field-Same h 56 1 (omega arith) i;
    new_size = field-Same h 57 1 (omega arith) i;
    state = field-Same h 58 1 (omega arith) i;
    pad = field-Same h 59 1 (omega arith) i;
    bitmask = field-Same h 60 4 (omega arith) i;
  }

  head-Same : Same m m' a (a + 64) → entry_head m' a ≡ entry_head m a
  unfolding entry_head
  head-Same h = field-Same h 48 8 (omega arith)

  cmd-Same : Same m m' a (a + (64 + entry_cmd_len m a)) → entry_cmd m' a ≡ entry_cmd m a
  unfolding entry_cmd
  cmd-Same h =
      rw (cmd_len-Same (λ x p q. h x p (omega arith)))
        (bytes-Same m m' (a + 50) (entry_cmd_len m a) (λ x p q. h x (omega arith) (omega arith)))

  pub size-ge : 64 ≤ log_entry_len m a
  unfolding log_entry_len
  size-ge = ground arith

  len-cmd : is_plain (entry_type m a) ≡ false → log_entry_len m a ≡ 64 + entry_cmd_len m a
  unfolding log_entry_len
  len-cmd e = rw e

  pub narrow : Same m m' a (a + log_entry_len m a) → Same m m' a (a + 64)
  narrow h x p q = h x p (omega (arith, size-ge))

  data-Same : Same m m' a (a + log_entry_len m a) → read_data m' a ≡ read_data m a
  unfolding read_data
  data-Same h = elim (Bool-cases (is_plain (entry_type m a))) [
    | inl plain ↦
        ground (arith, type-Same (narrow h), cid-Same (narrow h), head-Same (narrow h), plain)
    | inr cmd ↦ ground (
      arith,
      type-Same (narrow h),
      cid-Same (narrow h),
      head-Same (narrow h),
      cmd-Same (λ x p q. h x p (omega (arith, len-cmd cmd))),
    )
  ]

  pub entry-Same : Same m m' a (a + log_entry_len m a) → read_entry m' a ≡ read_entry m a
  unfolding read_entry entry_req_id entry_clt_id
  entry-Same h = λ i. record {
    idx = idx-Same (narrow h) i;
    term = term-Same (narrow h) i;
    req_id = field-Same (narrow h) 16 8 (omega arith) i;
    clt_id = field-Same (narrow h) 24 2 (omega arith) i;
    content = data-Same h i;
  }
