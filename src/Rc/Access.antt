-- ===== src/Rc/Access.antt =====
-- src/dare/dare_ibv_rc.c: rc_revoke_log_access, rc_restore_log_access and rc_disconnect_server.
use apus.Base.{ℕ, Bool, true, false, not, ◌&&◌, ◌||◌, ◌==◌, if◌then◌else◌}
use apus.Config.Cid.{get_extended_group_size, is_server_on}
use apus.Server.Sid.{sid_get_idx, sid_get_l}
use apus.Rc.State.{Rc, Ep, Device, ctrl_qp, log_qp, ep_at, set_ep, Run, done, failed}
use apus.Rc.Adjust.{is_other, each}

abbrev pub set_access : ℕ → Bool → Rc → Rc
set_access i access rc = set_ep i (record (ep_at rc i) { log_access = access }) rc

-- Whether the access is not as wanted.
abbrev pub differs : Bool → Ep → Bool
differs true ep = not ep.log_access
differs false ep = ep.log_access

-- Move the queue pair of the log of a server that is on, is not this one and is connected.
unfoldable pub change_access : Device → Bool → ℕ → Rc → Run Rc
change_access dev access i rc =
    if is_other rc i && (ep_at rc i).rc_connected && differs access (ep_at rc i)
    then (if dev.modify_rc i log_qp == 0 then done (set_access i access rc) else failed rc)
    else done rc

unfoldable pub rc_revoke_log_access : Device → Rc → Run Rc
rc_revoke_log_access dev rc =
    each (get_extended_group_size rc.server.config.cid) (change_access dev false) rc

unfoldable pub restore_leader : Device → ℕ → Rc → Run Rc
restore_leader dev leader rc =
    let ep = ep_at rc leader in
    if not (is_server_on rc.server.config.cid leader) || not ep.rc_connected
    then failed rc
    else if ep.log_access
    then done rc
    else if dev.modify_rc leader log_qp == 0
    then done (set_access leader true rc)
    else failed rc

unfoldable pub rc_restore_log_access : Device → Rc → Run Rc
rc_restore_log_access dev rc =
    let leader = sid_get_idx rc.server.ctrl.sid in
    if not (leader == rc.server.config.idx)
    then restore_leader dev leader rc
    else if sid_get_l rc.server.ctrl.sid
    then each (get_extended_group_size rc.server.config.cid) (change_access dev true) rc
    else done rc

-- Both queue pairs are reset.
unfoldable pub rc_disconnect_server : Device → ℕ → Rc → Run Rc
rc_disconnect_server dev i rc =
    let ep = ep_at rc i in
    let t = set_ep i (record ep { rc_connected = false }) rc in
    if not ep.rc_connected
    then done rc
    else if dev.modify_rc i log_qp == 0 && dev.modify_rc i ctrl_qp == 0
    then done t
    else failed t
