-- ===== src/Log/State.antt =====
-- src/include/dare/dare_log.h: the types of the log.
use apus.Base.{ℕ, ◌*◌, List, [], replicate}
use apus.Config.Cid.{Cid}
use apus.Log.Mem.{Mem}

-- The entry types; any other value is a client command (CSM, or the proxy's CONNECT, SEND, CLOSE).
abbrev pub noop_type : ℕ
noop_type = 0

abbrev pub config_type : ℕ
config_type = 2

abbrev pub head_type : ℕ
head_type = 3

-- What `type` and `data` of an entry say together. The type of `csm` is none of the three above.
pub data Data : Type 0 where
  noop : Data
  config : Cid → Data
  head : ℕ → Data
  csm : ℕ → List ℕ → Data

-- What the leader writes into an entry. (`sender` and `reply` are written later.)
pub record Entry : Type 0 where
  pub idx : ℕ
  pub term : ℕ
  pub req_id : ℕ
  pub clt_id : ℕ
  pub content : Data

-- `dare_log_entry_det_t`
pub record Det : Type 0 where
  pub idx : ℕ
  pub term : ℕ
  pub offset : ℕ

-- `dare_nc_buf_t`: `len` is the length of the list. The array has room for `max_nc_entries`: a list
-- that is longer stands for one that is overrun, which ends the handler that fills it.
abbrev pub NcBuf : Type 0
NcBuf = List Det

abbrev pub max_nc_entries : ℕ
max_nc_entries = 1024

abbrev pub max_server_count : ℕ
max_server_count = 13

abbrev pub page_size : ℕ
page_size = 4096

abbrev pub log_size : ℕ
log_size = 16384 * page_size

-- `dare_log_t`; `mem` is the array `entries`, of `len` bytes.
pub record Log : Type 0 where
  pub head : ℕ
  pub apply : ℕ
  pub commit : ℕ
  pub end : ℕ
  pub tail : ℕ
  pub old_end : ℕ
  pub old_commit : ℕ
  pub len : ℕ
  pub nc_buf : List NcBuf
  pub mem : Mem

-- The allocation is assumed to succeed.
unfoldable pub log_new : Log
log_new = record {
  head = 0;
  apply = 0;
  commit = 0;
  end = log_size;
  tail = log_size;
  old_end = log_size;
  old_commit = 0;
  len = log_size;
  nc_buf = replicate max_server_count [];
  mem = λ x. 0;
}
