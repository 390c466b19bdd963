-- ===== src/Log/Written.antt =====
-- What the assignments of log_append_entry leave in memory: the new entry, and nothing else.
use apus.Base.{ℕ, ◌+◌, ◌^◌, ◌≤◌, ◌<◌, ◌≡◌, ◌⊎◌, refl, ◌∙◌, false, arith, length}
use apus.Config.Cid.{Cid}
use apus.Log.Mem.{
  Mem, load, store, copy, Outside, store-Outside, copy-Outside, clear-Outside, load-store_ne,
  load-store_self, load-clear_ne,
}
use apus.Log.State.{Data, noop, config, head, csm}
use apus.Log.Entry.{
  entry_idx, entry_term, entry_req_id, entry_clt_id, entry_type, entry_cid, is_plain, write_cid,
  write_header,
}

-- The bytes of an entry with this data.
abbrev pub size_of : Data → ℕ
size_of (csm t cmd) = 64 + length cmd
size_of _ = 64

pub size_of-ge : (d : Data) → 64 ≤ size_of d
size_of-ge noop = omega arith
size_of-ge (config c) = omega arith
size_of-ge (head k) = omega arith
size_of-ge (csm t cmd) = omega arith

-- Each field of a configuration fits into its bytes.
pub record IsCid (c : Cid) : Type 0 where
  pub epoch_fits : c.epoch < 2 ^ 64
  pub size_fits : c.size < 256
  pub new_size_fits : c.new_size < 256
  pub state_fits : c.state < 256
  pub pad_fits : c.pad < 256
  pub bitmask_fits : c.bitmask < 2 ^ 32

-- The data fits into its fields, and a command does not have the type of other data.
abbrev pub IsData : Data → Type 0
IsData noop = Unit {0}
IsData (config c) = IsCid c
IsData (head h) = h < 2 ^ 64
IsData (csm t cmd) = (t < 256) × (is_plain t ≡ false) × (length cmd < 2 ^ 16)

unfoldable pub write_data : Mem → ℕ → Data → Mem
write_data m p noop = m
write_data m p (config c) = write_cid m p c
write_data m p (head h) = store m (p + 48) 8 h
write_data m p (csm t cmd) = copy (store m (p + 48) 2 (length cmd)) (p + 50) cmd

module _ (m : Mem) (p idx term req_id clt_id type : ℕ) where
  pub header-Outside :
      (x : ℕ) → Outside p 48 x → write_header m p idx term req_id clt_id type x ≡ m x
  unfolding write_header
  header-Outside x h =
      clear-Outside _ (p + 28) 13 x (omega arith)
      ∙ store-Outside _ (p + 26) 1 type x (omega arith)
      ∙ store-Outside _ (p + 24) 2 clt_id x (omega arith)
      ∙ store-Outside _ (p + 16) 8 req_id x (omega arith)
      ∙ store-Outside _ (p + 8) 8 term x (omega arith)
      ∙ store-Outside m p 8 idx x (omega arith)

  pub idx-header : idx < 2 ^ 64 → entry_idx (write_header m p idx term req_id clt_id type) p ≡ idx
  unfolding write_header entry_idx
  idx-header h =
      load-clear_ne _ (p + 28) 13 p 8 (omega arith)
      ∙ load-store_ne _ (p + 26) 1 type p 8 (omega arith)
      ∙ load-store_ne _ (p + 24) 2 clt_id p 8 (omega arith)
      ∙ load-store_ne _ (p + 16) 8 req_id p 8 (omega arith)
      ∙ load-store_ne _ (p + 8) 8 term p 8 (omega arith)
      ∙ load-store_self m p 8 idx (omega arith)

  pub term-header :
      term < 2 ^ 64 → entry_term (write_header m p idx term req_id clt_id type) p ≡ term
  unfolding write_header entry_term
  term-header h =
      load-clear_ne _ (p + 28) 13 (p + 8) 8 (omega arith)
      ∙ load-store_ne _ (p + 26) 1 type (p + 8) 8 (omega arith)
      ∙ load-store_ne _ (p + 24) 2 clt_id (p + 8) 8 (omega arith)
      ∙ load-store_ne _ (p + 16) 8 req_id (p + 8) 8 (omega arith)
      ∙ load-store_self _ (p + 8) 8 term (omega arith)

  pub req_id-header :
      req_id < 2 ^ 64 → entry_req_id (write_header m p idx term req_id clt_id type) p ≡ req_id
  unfolding write_header entry_req_id
  req_id-header h =
      load-clear_ne _ (p + 28) 13 (p + 16) 8 (omega arith)
      ∙ load-store_ne _ (p + 26) 1 type (p + 16) 8 (omega arith)
      ∙ load-store_ne _ (p + 24) 2 clt_id (p + 16) 8 (omega arith)
      ∙ load-store_self _ (p + 16) 8 req_id (omega arith)

  pub clt_id-header :
      clt_id < 2 ^ 16 → entry_clt_id (write_header m p idx term req_id clt_id type) p ≡ clt_id
  unfolding write_header entry_clt_id
  clt_id-header h =
      load-clear_ne _ (p + 28) 13 (p + 24) 2 (omega arith)
      ∙ load-store_ne _ (p + 26) 1 type (p + 24) 2 (omega arith)
      ∙ load-store_self _ (p + 24) 2 clt_id (omega arith)

  pub type-header : type < 256 → entry_type (write_header m p idx term req_id clt_id type) p ≡ type
  unfolding write_header entry_type
  type-header h =
      load-clear_ne _ (p + 28) 13 (p + 26) 1 (omega arith)
      ∙ load-store_self _ (p + 26) 1 type (omega arith)

module _ (m : Mem) (p : ℕ) where
  cid-Outside : (c : Cid) (x : ℕ) → Outside (p + 48) 16 x → write_cid m p c x ≡ m x
  unfolding write_cid
  cid-Outside c x h =
      store-Outside _ (p + 60) 4 c.bitmask x (omega arith)
      ∙ store-Outside _ (p + 59) 1 c.pad x (omega arith)
      ∙ store-Outside _ (p + 58) 1 c.state x (omega arith)
      ∙ store-Outside _ (p + 57) 1 c.new_size x (omega arith)
      ∙ store-Outside _ (p + 56) 1 c.size x (omega arith)
      ∙ store-Outside m (p + 48) 8 c.epoch x (omega arith)

  pub cid-write_cid : (c : Cid) → IsCid c → entry_cid (write_cid m p c) p ≡ c
  unfolding write_cid entry_cid
  cid-write_cid c h = λ i. record {
    epoch = epoch-eq i;
    size = size-eq i;
    new_size = new_size-eq i;
    state = state-eq i;
    pad = pad-eq i;
    bitmask = load-store_self m4 (p + 60) 4 c.bitmask (omega arith) i;
  }
    where
      m0 : Mem
      m0 = store m (p + 48) 8 c.epoch

      m1 : Mem
      m1 = store m0 (p + 56) 1 c.size

      m2 : Mem
      m2 = store m1 (p + 57) 1 c.new_size

      m3 : Mem
      m3 = store m2 (p + 58) 1 c.state

      m4 : Mem
      m4 = store m3 (p + 59) 1 c.pad

      pad-eq : load (store m4 (p + 60) 4 c.bitmask) (p + 59) 1 ≡ c.pad
      pad-eq =
          load-store_ne m4 (p + 60) 4 c.bitmask (p + 59) 1 (omega arith)
          ∙ load-store_self m3 (p + 59) 1 c.pad (omega arith)

      state-eq : load (store m4 (p + 60) 4 c.bitmask) (p + 58) 1 ≡ c.state
      state-eq =
          load-store_ne m4 (p + 60) 4 c.bitmask (p + 58) 1 (omega arith)
          ∙ load-store_ne m3 (p + 59) 1 c.pad (p + 58) 1 (omega arith)
          ∙ load-store_self m2 (p + 58) 1 c.state (omega arith)

      new_size-eq : load (store m4 (p + 60) 4 c.bitmask) (p + 57) 1 ≡ c.new_size
      new_size-eq =
          load-store_ne m4 (p + 60) 4 c.bitmask (p + 57) 1 (omega arith)
          ∙ load-store_ne m3 (p + 59) 1 c.pad (p + 57) 1 (omega arith)
          ∙ load-store_ne m2 (p + 58) 1 c.state (p + 57) 1 (omega arith)
          ∙ load-store_self m1 (p + 57) 1 c.new_size (omega arith)

      size-eq : load (store m4 (p + 60) 4 c.bitmask) (p + 56) 1 ≡ c.size
      size-eq =
          load-store_ne m4 (p + 60) 4 c.bitmask (p + 56) 1 (omega arith)
          ∙ load-store_ne m3 (p + 59) 1 c.pad (p + 56) 1 (omega arith)
          ∙ load-store_ne m2 (p + 58) 1 c.state (p + 56) 1 (omega arith)
          ∙ load-store_ne m1 (p + 57) 1 c.new_size (p + 56) 1 (omega arith)
          ∙ load-store_self m0 (p + 56) 1 c.size (omega arith)

      epoch-eq : load (store m4 (p + 60) 4 c.bitmask) (p + 48) 8 ≡ c.epoch
      epoch-eq =
          load-store_ne m4 (p + 60) 4 c.bitmask (p + 48) 8 (omega arith)
          ∙ load-store_ne m3 (p + 59) 1 c.pad (p + 48) 8 (omega arith)
          ∙ load-store_ne m2 (p + 58) 1 c.state (p + 48) 8 (omega arith)
          ∙ load-store_ne m1 (p + 57) 1 c.new_size (p + 48) 8 (omega arith)
          ∙ load-store_ne m0 (p + 56) 1 c.size (p + 48) 8 (omega arith)
          ∙ load-store_self m (p + 48) 8 c.epoch (omega arith)

  -- The data lies behind the first 48 bytes of the entry.
  pub data-Outside :
      (d : Data) (x : ℕ) → (x < p + 48) ⊎ (p + size_of d ≤ x) → write_data m p d x ≡ m x
  unfolding write_data
  data-Outside noop x h = refl
  data-Outside (config c) x h = cid-Outside c x (omega arith)
  data-Outside (head k) x h = store-Outside m (p + 48) 8 k x (omega arith)
  data-Outside (csm t cmd) x h =
      copy-Outside _ (p + 50) cmd x (omega arith)
      ∙ store-Outside m (p + 48) 2 (length cmd) x (omega arith)
