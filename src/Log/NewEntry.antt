-- ===== src/Log/NewEntry.antt =====
-- The entry that log_append_entry writes, read back.
use apus.Base.{ℕ, ◌+◌, ◌^◌, ◌≤◌, ◌<◌, ◌≡◌, refl, ap, ◌∙◌, arith, List, length}
use apus.Log.Mem.{
  Mem, load, store, Outside, load-store_ne, load-store_self, load-copy_ne, bytes-copy, load-Same,
}
use apus.Log.State.{Data, noop, config, head, csm, Entry}
use apus.Log.Entry.{
  entry_idx, entry_term, entry_req_id, entry_clt_id, entry_type, entry_cmd_len, entry_cmd,
  entry_head, log_entry_len, read_data, read_entry, write_header,
}
use apus.Log.Append.{type_of}
use apus.Log.Written.{
  size_of, size_of-ge, IsData, write_data, header-Outside, idx-header, term-header, req_id-header,
  clt_id-header, type-header, cid-write_cid, data-Outside,
}

-- The fields of an entry beside its data.
pub record IsStamp (idx term req_id clt_id : ℕ) : Type 0 where
  pub idx_fits : idx < 2 ^ 64
  pub term_fits : term < 2 ^ 64
  pub req_id_fits : req_id < 2 ^ 64
  pub clt_id_fits : clt_id < 2 ^ 16

pub type-lt : (d : Data) → IsData d → type_of d < 256
type-lt noop h = omega arith
type-lt (config c) h = omega arith
type-lt (head k) h = omega arith
type-lt (csm t cmd) h = h.0

module _ (idx term req_id clt_id : ℕ) (d : Data) where
  unfoldable pub new_entry : Entry
  new_entry = record { idx = idx; term = term; req_id = req_id; clt_id = clt_id; content = d }

  unfoldable pub write_entry : Mem → ℕ → Mem
  write_entry m p = write_data (write_header m p idx term req_id clt_id (type_of d)) p d

  -- The memory m' differs from m by the new entry at p.
  pub record Stored (m m' : Mem) (p : ℕ) : Type 0 where
    pub read : read_entry m' p ≡ new_entry
    pub size : log_entry_len m' p ≡ size_of d
    pub outside : (x : ℕ) → Outside p (size_of d) x → m' x ≡ m x

module _ (m : Mem) (p : ℕ) (d : Data) where
  -- What the data leaves of the header.
  keeps : (k n : ℕ) → k + n ≤ 48 → load (write_data m p d) (p + k) n ≡ load m (p + k) n
  keeps k n le =
      load-Same m (write_data m p d) (p + k) n (λ x a b. data-Outside m p d x (omega arith))

  keeps_idx : entry_idx (write_data m p d) p ≡ entry_idx m p
  unfolding entry_idx
  keeps_idx = load-Same m (write_data m p d) p 8 (λ x a b. data-Outside m p d x (omega arith))

  pub keeps_type : entry_type (write_data m p d) p ≡ entry_type m p
  unfolding entry_type
  keeps_type = keeps 26 1 (omega arith)

-- The length of the entry once its command's length is written.
pub len-write_cmd_len :
    (m : Mem) (p t : ℕ) (cmd : List ℕ)
    → IsData (csm t cmd)
    → entry_type m p ≡ t
    → log_entry_len (store m (p + 48) 2 (length cmd)) p ≡ 64 + length cmd
unfolding log_entry_len entry_type entry_cmd_len
len-write_cmd_len m p t cmd h e = ground (
  arith,
  load-store_ne m (p + 48) 2 (length cmd) (p + 26) 1,
  load-store_self m (p + 48) 2 (length cmd),
  e,
  h.1,
)

cmd_len-csm :
    (m : Mem) (p t : ℕ) (cmd : List ℕ)
    → length cmd < 2 ^ 16
    → entry_cmd_len (write_data m p (csm t cmd)) p ≡ length cmd
unfolding entry_cmd_len write_data
cmd_len-csm m p t cmd h =
    load-copy_ne _ (p + 50) cmd (p + 48) 2 (omega arith)
    ∙ load-store_self m (p + 48) 2 (length cmd) (omega arith)

cmd-csm :
    (m : Mem) (p t : ℕ) (cmd : List ℕ)
    → length cmd < 2 ^ 16
    → entry_cmd (write_data m p (csm t cmd)) p ≡ cmd
unfolding entry_cmd
cmd-csm m p t cmd h =
    rw (cmd_len-csm m p t cmd h)
      (unfold write_data in bytes-copy (store m (p + 48) 2 (length cmd)) (p + 50) cmd)

-- The data is read back, given the type that the header holds.
pub data-write_data :
    (m : Mem) (p : ℕ) (d : Data)
    → IsData d
    → entry_type m p ≡ type_of d
    → (read_data (write_data m p d) p ≡ d) × (log_entry_len (write_data m p d) p ≡ size_of d)
unfolding read_data log_entry_len
data-write_data m p noop h e = rw (keeps_type m p noop, e) (refl, refl)
data-write_data m p (config c) h e =
    rw (keeps_type m p (config c), e) (ap config (unfold write_data in cid-write_cid m p c h), refl)
data-write_data m p (head k) h e =
    rw (keeps_type m p (head k), e)
      (ap head (unfold write_data entry_head in load-store_self m (p + 48) 8 k (omega arith)), refl)
data-write_data m p (csm t cmd) h e =
    ground
      (arith, keeps_type m p (csm t cmd), e, h.1, cmd-csm m p t cmd h.2, cmd_len-csm m p t cmd h.2)

-- Whatever the memory held, the new entry is read back as written, has the size of its data, and
-- no byte outside it changes.
pub write_entry-Stored :
    (m : Mem) (p idx term req_id clt_id : ℕ) (d : Data)
    → IsStamp idx term req_id clt_id
    → IsData d
    → Stored idx term req_id clt_id d m (write_entry idx term req_id clt_id d m p) p
unfolding write_entry new_entry read_entry
write_entry-Stored m p idx term req_id clt_id d s h = record {
  read = λ i. record {
    idx = (keeps_idx m' p d ∙ idx-header m p idx term req_id clt_id t s.idx_fits) i;
    term = (term-kept ∙ term-header m p idx term req_id clt_id t s.term_fits) i;
    req_id = (req_id-kept ∙ req_id-header m p idx term req_id clt_id t s.req_id_fits) i;
    clt_id = (clt_id-kept ∙ clt_id-header m p idx term req_id clt_id t s.clt_id_fits) i;
    content = both.0 i;
  };
  size = both.1;
  outside = λ x o.
      data-Outside m' p d x (omega (arith, size_of-ge d))
      ∙ header-Outside m p idx term req_id clt_id t x (omega (arith, size_of-ge d));
}
  where
    t : ℕ
    t = type_of d

    m' : Mem
    m' = write_header m p idx term req_id clt_id t

    term-kept : entry_term (write_data m' p d) p ≡ entry_term m' p
    term-kept = unfold entry_term in keeps m' p d 8 8 (omega arith)

    req_id-kept : entry_req_id (write_data m' p d) p ≡ entry_req_id m' p
    req_id-kept = unfold entry_req_id in keeps m' p d 16 8 (omega arith)

    clt_id-kept : entry_clt_id (write_data m' p d) p ≡ entry_clt_id m' p
    clt_id-kept = unfold entry_clt_id in keeps m' p d 24 2 (omega arith)

    both : (read_data (write_data m' p d) p ≡ d) × (log_entry_len (write_data m' p d) p ≡ size_of d)
    both = data-write_data m' p d h (type-header m p idx term req_id clt_id t (type-lt d h))
