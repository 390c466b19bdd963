-- ===== src/Rc/Wrid.antt =====
-- src/include/dare/dare_ibv_rc.h: the identifier of a work request, a word [SSN|WA|TAG|CONN] of 54,
-- 1, 1 and 8 bits.
use apus.Base.{
  ℕ, ◌+◌, ◌-◌, ◌*◌, ◌/◌, ◌%◌, ◌^◌, ◌<◌, ◌≡◌, Bool, true, false, ◌==◌, if◌then◌else◌, arith, u64_mod,
}

unfoldable pub wrid_get_conn : ℕ → ℕ
wrid_get_conn wrid = wrid % 256

-- (wrid) = (conn | ((wrid >> 8) << 8)), where conn is a uint8_t
unfoldable pub wrid_set_conn : ℕ → ℕ → ℕ
wrid_set_conn wrid conn = wrid / 256 * 256 + conn % 256

unfoldable pub wrid_get_tag : ℕ → Bool
wrid_get_tag wrid = wrid / 256 % 2 == 1

unfoldable pub wrid_set_tag : ℕ → ℕ
wrid_set_tag wrid = if wrid / 256 % 2 == 1 then wrid else wrid + 256

unfoldable pub wrid_unset_tag : ℕ → ℕ
wrid_unset_tag wrid = if wrid / 256 % 2 == 1 then wrid - 256 else wrid

unfoldable pub wrid_get_wa : ℕ → Bool
wrid_get_wa wrid = wrid / 512 % 2 == 1

unfoldable pub wrid_set_wa : ℕ → ℕ
wrid_set_wa wrid = if wrid / 512 % 2 == 1 then wrid else wrid + 512

unfoldable pub wrid_unset_wa : ℕ → ℕ
wrid_unset_wa wrid = if wrid / 512 % 2 == 1 then wrid - 512 else wrid

unfoldable pub wrid_get_ssn : ℕ → ℕ
wrid_get_ssn wrid = wrid / 1024

unfoldable pub wrid_set_ssn : ℕ → ℕ → ℕ
wrid_set_ssn wrid ssn = (ssn * 1024 + wrid % 1024) % u64_mod

-- The identifier of a new work request, in the order of the assignments of post_send.
unfoldable pub new_wrid : ℕ → ℕ → Bool → Bool → ℕ
new_wrid ssn conn wa tag =
    let wrid = wrid_set_conn (wrid_set_ssn 0 ssn) conn in
    let wrid = (if wa then wrid_set_wa wrid else wrid) in if tag then wrid_set_tag wrid else wrid

-- Of the identifier that is made of a sequence number below 2^54, a connection below 256 and two
-- flags, the four readers give these back.
pub wrid_roundtrip :
    (ssn conn : ℕ) (wa tag : Bool)
    → ssn < 2 ^ 54
    → conn < 256
    → (wrid_get_ssn (new_wrid ssn conn wa tag) ≡ ssn)
      × (wrid_get_conn (new_wrid ssn conn wa tag) ≡ conn)
      × (wrid_get_wa (new_wrid ssn conn wa tag) ≡ wa)
      × (wrid_get_tag (new_wrid ssn conn wa tag) ≡ tag)
unfolding new_wrid wrid_get_ssn wrid_get_conn wrid_get_wa wrid_get_tag wrid_set_ssn wrid_set_conn
    wrid_set_wa wrid_set_tag
wrid_roundtrip ssn conn true true h k =
    (ground (arith, h, k), ground (arith, h, k), ground (arith, h, k), ground (arith, h, k))
wrid_roundtrip ssn conn true false h k =
    (ground (arith, h, k), ground (arith, h, k), ground (arith, h, k), ground (arith, h, k))
wrid_roundtrip ssn conn false true h k =
    (ground (arith, h, k), ground (arith, h, k), ground (arith, h, k), ground (arith, h, k))
wrid_roundtrip ssn conn false false h k =
    (ground (arith, h, k), ground (arith, h, k), ground (arith, h, k), ground (arith, h, k))
