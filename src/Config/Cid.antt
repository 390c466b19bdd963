-- ===== src/Config/Cid.antt =====
-- src/include/dare/dare_config.h: the configuration identifier and the group sizes that it gives.
use apus.Base.{ℕ, Bool, ◌&&◌, ◌==◌, ltb, if◌then◌else◌, test_bit, set_bit, clear_bit}

abbrev pub cid_stable : ℕ
cid_stable = 0

abbrev pub cid_transit : ℕ
cid_transit = 1

abbrev pub cid_extended : ℕ
cid_extended = 2

-- `size[0]` and `size[1]` are `size` and `new_size`.
pub record Cid : Type 0 where
  pub epoch : ℕ
  pub size : ℕ
  pub new_size : ℕ
  pub state : ℕ
  pub pad : ℕ
  pub bitmask : ℕ

unfoldable pub is_server_on : Cid → ℕ → Bool
is_server_on cid idx = test_bit cid.bitmask idx

unfoldable pub server_add : Cid → ℕ → Cid
server_add cid idx = record cid { bitmask = set_bit cid.bitmask idx }

unfoldable pub server_rm : Cid → ℕ → Cid
server_rm cid idx = record cid { bitmask = clear_bit cid.bitmask idx }

-- The padding byte is not compared.
unfoldable pub equal_cid : Cid → Cid → Bool
equal_cid l r =
    l.epoch == r.epoch
    && l.state == r.state
    && l.size == r.size
    && l.new_size == r.new_size
    && l.bitmask == r.bitmask

unfoldable pub get_extended_group_size : Cid → ℕ
get_extended_group_size cid =
    if cid.state == cid_stable
    then cid.size
    else if ltb cid.size cid.new_size
    then cid.new_size
    else cid.size

unfoldable pub get_group_size : Cid → ℕ
get_group_size cid =
    if cid.state == cid_transit
    then (if ltb cid.size cid.new_size then cid.new_size else cid.size)
    else cid.size
