-- ===== src/Lib.antt =====
-- APUS replicates the requests of an unmodified server program over RDMA. This library models the
-- C code of the repository and proves what its parts promise.
--
-- The parts, and the files that model them (paths from the repository's root):
--
-- * src/include/dare/dare_log.h, the circular log buffer: Log. Log/Mem is the array `entries`, byte
--   by byte; Log/Entry the layout of dare_log_entry_t; Log/State the record dare_log_t; Log/Offsets,
--   Log/Scan and Log/Append the functions, under their names in C. A pointer to an entry is its
--   offset; NULL is `none`. Log/Layout and Log/Window say which entries a buffer holds, and the
--   other files below Log prove what the functions do to them. The globals that a function writes
--   are in its result (`prev_log_entry_head` is the field `prev_head` of `Appended`).
-- * src/include/dare/dare_config.h, the configuration of the group: Config.
-- * src/dare/dare_kvs_sm.c, the key-value store of the state machine: Kvs. Kvs/Key is the hash and
--   the comparison of keys, Kvs/Chain a list of the table, Kvs/Table the operations, under their
--   names in C; Kvs/Lookup, Kvs/Size and Kvs/Spec prove them.
-- * src/dare/dare_server.c, a server of the group: Server. Server/Sid is the state identifier of
--   src/include/dare/dare_server.h, Server/State the global `data` and the other globals, and
--   Server/Step how a handler ends (Server/Gives: what it then returns). The handlers:
--   Server/Election (start_election, server_to_follower, update_cid), Server/Vote
--   (poll_vote_requests), Server/Count (poll_vote_count), Server/Heartbeat (to_adjust_cb,
--   hb_receive_cb and hb_send_cb, as to_adjust, hb_receive and hb_send), Server/Reconfig
--   (poll_config_entries, check_failure_count), Server/Apply (commit_new_entries,
--   persist_new_entries, apply_committed_entries), Server/Prune (log_pruning, force_log_pruning,
--   and prune_log_cb as prune_log), Server/Recover (poll_sm_requests, poll_sm_reply, and
--   recover_log_cb as recover_log) and Server/Poll (polling, poll_ud), which calls the others. The
--   other files below Server prove them.
-- * src/db/db-interface.c, the records of the proxy: Db, over Berkeley DB as a parameter.
-- * src/dare/dare_ibv_rc.c, the transfers to and from the other servers over RDMA: Rc. Rc/Wrid is
--   the identifier of a work request, Rc/State the global endpoints, the posted requests and the
--   device, Rc/Completion what a completion does (handle_work_completion, handle_lr_work_completion),
--   Rc/Send the posting of a request, Rc/Adjust log_adjustment, Rc/Replicate update_remote_logs and
--   the search of the entry to commit, Rc/WriteLogs rc_write_remote_logs, which calls them, Rc/Access
--   the access of the others to the own log, Rc/Wait the waits for a majority of completions or for
--   one, and Rc/Vote the transfers of an election, which use them. The other files below Rc prove
--   them.
-- * src/proxy/proxy.c with src/include/proxy/proxy.h and src/include/dare/message.h, which submits the
--   calls of the server program to the log and replays them: Proxy. Proxy/State is the global `proxy`
--   with the hash table of connections (uthash, a parameter), Proxy/Submit the leader's side,
--   Proxy/Action the replay of a follower, Proxy/Storage the records and the snapshot;
--   Proxy/Numbers, Proxy/Keys, Proxy/Copies, Proxy/Restore and Proxy/Loss prove them.
--
-- A handler of the server takes the state and gives the state that it leaves. Between two handlers
-- other servers write to the arrays of ctrl_data_t over RDMA: the theorems hold for any contents. For
-- the handlers the network layer (src/dare/dare_ibv*.c) is the record `Net` of Server/Step: what its
-- calls answer.
-- The field `calls` of `Server` lists the calls of it and of the proxy, in order. A handler that ends
-- the process gives `shutdown`, one that uses a pointer that is NULL or not initialised `crash`.
-- Timers keep their callback and a delay; `recomputed_hb_timeout`, a double in C, counts tenths of
-- the heartbeat period.
--
-- In Rc the device is outside the code: `polls` lists what the next calls of ibv_poll_cq give, each
-- with what has landed in the memory of this server since the call before (`Landed`). A function
-- gives a `Run`: it is done, it fails, it goes round longer than the bound or waits for a completion
-- that does not come (`endless`), or it uses what is not there (`crash`). The code is
-- taken as built without DEBUG, which makefile.init sets to 0: most results of posts are not looked at.
--
-- The loops over the log take fuel. A loop of Log/Scan has len / 64 + 2 units, since each round moves
-- by 64 bytes at least, and the loops of the server twice as many, since an entry that lies at the
-- start of the buffer takes a round more. Other loops are structural. The polling loop
-- of rc_write_remote_logs has `max_rounds` rounds, since only the device can end it, and the search of
-- the entry to commit has the units of the server's loops. The loader of a snapshot has the size of
-- the snapshot plus one, since each record takes a byte at least.
--
-- Memory allocations are taken to succeed, but for realloc with the length 0, which gives NULL. An array
-- of determinants that is overrun ends the handler (`crash`). Not modelled: in dare_ibv_rc.c rc_verify_leadership, the
-- transfers of heartbeats and snapshots, and the set-up and measuring of queue pairs; the
-- datagrams, the endpoint database, the hooks into the server program, the readers of configuration
-- files, the start-up and the end of a server and of the proxy, the sockets' options, and the choice
-- of random timeouts.
pub mod Base
pub mod Config
pub mod Db
pub mod Kvs
pub mod Log
pub mod Proxy
pub mod Rc
pub mod Server
