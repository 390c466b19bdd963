-- ===== src/Log/Entry.antt =====
-- The layout of `dare_log_entry_t` in memory: 64 bytes, then the rest of a command.
-- idx 0, term 8, req_id 16, clt_id 24, type 26, sender 27, reply 28 to 40, data 48.
use apus.Base.{ℕ, ◌+◌, Bool, ◌||◌, List, ◌==◌, if◌then◌else◌}
use apus.Config.Cid.{Cid}
use apus.Log.Mem.{Mem, load, store, clear, bytes}
use apus.Log.State.{
  Data, noop, config, head, csm, Entry, noop_type, config_type, head_type, max_server_count,
}

abbrev pub entry_size : ℕ
entry_size = 64

unfoldable pub entry_idx : Mem → ℕ → ℕ
entry_idx m a = load m a 8

unfoldable pub entry_term : Mem → ℕ → ℕ
entry_term m a = load m (a + 8) 8

unfoldable pub entry_req_id : Mem → ℕ → ℕ
entry_req_id m a = load m (a + 16) 8

unfoldable pub entry_clt_id : Mem → ℕ → ℕ
entry_clt_id m a = load m (a + 24) 2

unfoldable pub entry_type : Mem → ℕ → ℕ
entry_type m a = load m (a + 26) 1

unfoldable pub entry_sender : Mem → ℕ → ℕ
entry_sender m a = load m (a + 27) 1

unfoldable pub entry_cmd_len : Mem → ℕ → ℕ
entry_cmd_len m a = load m (a + 48) 2

unfoldable pub entry_cmd : Mem → ℕ → List ℕ
entry_cmd m a = bytes m (a + 50) (entry_cmd_len m a)

unfoldable pub entry_head : Mem → ℕ → ℕ
entry_head m a = load m (a + 48) 8

unfoldable pub entry_cid : Mem → ℕ → Cid
entry_cid m a = record {
  epoch = load m (a + 48) 8;
  size = load m (a + 56) 1;
  new_size = load m (a + 57) 1;
  state = load m (a + 58) 1;
  pad = load m (a + 59) 1;
  bitmask = load m (a + 60) 4;
}

-- Whether an entry of this type has no command.
abbrev pub is_plain : ℕ → Bool
is_plain t = t == noop_type || t == config_type || t == head_type

unfoldable pub log_entry_len : Mem → ℕ → ℕ
log_entry_len m a = if is_plain (entry_type m a) then entry_size else entry_size + entry_cmd_len m a

-- The entry at an address, as a value.
unfoldable pub read_data : Mem → ℕ → Data
read_data m a =
    if entry_type m a == noop_type
    then noop
    else if entry_type m a == config_type
    then config (entry_cid m a)
    else if entry_type m a == head_type
    then head (entry_head m a)
    else csm (entry_type m a) (entry_cmd m a)

unfoldable pub read_entry : Mem → ℕ → Entry
read_entry m a = record {
  idx = entry_idx m a;
  term = entry_term m a;
  req_id = entry_req_id m a;
  clt_id = entry_clt_id m a;
  content = read_data m a;
}

-- entry->data.cid = *cid
unfoldable pub write_cid : Mem → ℕ → Cid → Mem
write_cid m a c =
    let m = store m (a + 48) 8 c.epoch in
    let m = store m (a + 56) 1 c.size in
    let m = store m (a + 57) 1 c.new_size in
    let m = store m (a + 58) 1 c.state in
    let m = store m (a + 59) 1 c.pad in store m (a + 60) 4 c.bitmask

-- The assignments to the fields of a new entry, and the reset of its replies.
unfoldable pub write_header : Mem → ℕ → ℕ → ℕ → ℕ → ℕ → ℕ → Mem
write_header m a idx term req_id clt_id type =
    let m = store m a 8 idx in
    let m = store m (a + 8) 8 term in
    let m = store m (a + 16) 8 req_id in
    let m = store m (a + 24) 2 clt_id in
    let m = store m (a + 26) 1 type in clear m (a + 28) max_server_count
