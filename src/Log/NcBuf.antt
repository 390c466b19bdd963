-- ===== src/Log/NcBuf.antt =====
-- log_entries_to_nc_buf: the determinants of the entries that are not committed.
use apus.Base.{◌<◌, ◌≤◌, ◌≡◌, arith, List, length, some}
use apus.Log.State.{Log, Entry, NcBuf, max_nc_entries}
use apus.Log.Scan.{scan_fuel, log_entries_to_nc_buf}
use apus.Log.Layout.{Holds-length}
use apus.Log.Walk.{Holds-Walk, AreDets, length-AreDets, nc_buf-Walk}
use apus.Log.Window.{IsWindow}

pub log_entries_to_nc_buf-AreDets :
    (log : Log) (xs ys zs : List Entry)
    → IsWindow log xs ys zs
    → (ds : NcBuf) × (log_entries_to_nc_buf log ≡ some ds) × AreDets log ds zs
unfolding log_entries_to_nc_buf
log_entries_to_nc_buf-AreDets log xs ys zs w =
    nc_buf-Walk (scan_fuel log) (Holds-Walk log w.len_fits w.uncommitted) enough
  where
    enough : length zs < scan_fuel log
    enough = unfold scan_fuel in omega (arith, Holds-length w.uncommitted)

-- Where at most 1024 entries are not committed, log_entries_to_nc_buf ends and stays in the array. It
-- writes one determinant for each of these entries, in order: its index, its term, and an offset at
-- which an entry with this index and term stands in the log.
pub log_entries_to_nc_buf-dets :
    (log : Log) (xs ys zs : List Entry)
    → IsWindow log xs ys zs
    → length zs ≤ max_nc_entries
    → (ds : NcBuf) × (log_entries_to_nc_buf log ≡ some ds)
      × (length ds ≤ max_nc_entries)
      × AreDets log ds zs
log_entries_to_nc_buf-dets log xs ys zs w l =
    let (ds, e, k) = log_entries_to_nc_buf-AreDets log xs ys zs w in
    (ds, e, omega (arith, l, length-AreDets log ds zs k), k)
