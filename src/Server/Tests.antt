-- ===== src/Server/Tests.antt =====
-- The theorems on src/dare/dare_server.c at a group of three servers.
use apus.Base.{
  ◌%◌, ◌≤◌, ◌≢◌, ℕ, ◌≡◌, ◌<◌, ◌+◌, ◌↔◌, refl, true, false, [], ◌∷◌, arith, sym, ◌∙◌, test_bit, ◌≢◌,
  inl,
}
use apus.Config.Cid.{Cid, get_group_size}
use apus.Log.State.{log_new}
use apus.Server.Sid.{
  is_none, is_leader, is_candidate, is_follower, role_iff, sid_get_term, IsBefore, sid-lt_iff,
}
use apus.Server.Election.{
  server_update_sid, drop_server, server_to_follower, start_election, update_cid, stop_leading,
  after_vote_ack, fill_nc_buf, hb_timeout_value, append_entry,
}
use apus.Server.Vote.{
  poll_vote_requests, look_at, examine, last_entry, decide_vote, choose, is_outdated, raise_term,
  vote_for,
}
use apus.Server.UpdateCid.{IsTaken, update_cid-IsTaken}
use apus.Server.State.{disconnect_server}
use apus.Server.VoteEnds.{poll_vote_requests_ends}
use apus.Log.Window.{IsWindow}
use apus.Log.Layout.{empty}
use apus.Server.VoteRequests.{Outcome, poll_vote_requests-Outcome}
use apus.Server.Count.{
  poll_vote_count, count_votes, count_vote, add_vote, take_vote, has_voted, is_elected,
  win_election, first_entry, become_leader, append_write,
}
use apus.Server.Reconfig.{poll_config_entries, config_rounds}
use apus.Server.Apply.{apply_committed_entries, apply_rounds}
use apus.Log.Append.{log_append_entry, set_tail}
use apus.Log.Scan.{log_entries_to_nc_buf, entries_to_nc_buf, scan_fuel, log_get_tail}
use apus.Log.Offsets.{log_get_entry, log_offset_end_distance, log_is_offset_larger, is_log_empty}
use apus.Server.Sid.{sid_get_l, sid_get_idx, sid_set_l}
use apus.Config.Cid.{equal_cid, is_server_on, get_extended_group_size}
use apus.Server.Majority.{IsMajority, poll_vote_count-IsMajority, old_votes, new_votes}
use apus.Server.Candidate.{start_election-Candidate}
use apus.Server.Heartbeat.{hb_receive, hb_send, receive_hb, read_hb, is_peer, check_reply}
use apus.Server.HbReceive.{IsHeard, hb_receive-IsHeard}
use apus.Server.Stale.{hb_send-HasSid}
use apus.Server.Prune.{log_pruning, least_offset, keep_entry, advance_head, least_round}
use apus.Server.PruneHead.{IsPruned, log_pruning-IsPruned}
use apus.Server.Recover.{poll_sm_requests}
use apus.Server.SmRequest.{poll_sm_requests-crash}
use apus.Server.State.{Server, VoteReq}
use apus.Server.Step.{ok, crash, shutdown, no_fuel}
use apus.Server.Sample.{net, group, server, returned}

role_iff_example :
    ((is_none 255 255 ≡ true) ↔ ◌≡◌ {A = ℕ} 255 255)
    × ((is_leader 255 255 ≡ true) ↔ (255 % 512 ≡ 256 + 255))
    × ((is_candidate 255 255 ≡ true) ↔ ((255 % 512 ≡ 255) × (512 ≤ 255)))
    × ((is_follower 255 255 ≡ true) ↔ (255 % 256 ≢ 255))
role_iff_example = role_iff 255 255 (omega arith)

sid-lt_iff_example : (1024 < 1281) ↔ IsBefore 1024 1281
sid-lt_iff_example = sid-lt_iff 1024 1281

abbrev request : ℕ → VoteReq
request sid = record { sid = sid; index = 0; term = 0; cid = group }

-- Server 0 asks for a vote in term 3.
abbrev voter : Server
voter = server 1024 (request 1536 ∷ []) [] [] false

abbrev voted_server : Server
voted_server = returned (poll_vote_requests net voter) voter

voter_runs : poll_vote_requests net voter ≡ ok voted_server
unfolding poll_vote_requests sid_get_l sid_get_term sid_get_idx sid_set_l get_group_size look_at
    examine fill_nc_buf log_entries_to_nc_buf entries_to_nc_buf scan_fuel log_get_entry last_entry
    log_get_tail decide_vote choose is_outdated raise_term vote_for server_update_sid update_cid
    stop_leading after_vote_ack hb_timeout_value equal_cid log_new
voter_runs = refl

poll_vote_requests-Outcome_example : Outcome voter voted_server.ctrl.sid
poll_vote_requests-Outcome_example =
    poll_vote_requests-Outcome net voter voted_server (λ u. refl) voter_runs

log_new-IsWindow : IsWindow log_new [] [] []
unfolding log_new
log_new-IsWindow = record {
  len_fits = omega arith;
  len_pos = omega arith;
  whole = empty refl refl;
  unapplied = empty refl refl;
  uncommitted = empty refl refl;
  apply_inside = inl (omega arith, omega arith, omega arith);
  commit_inside = inl (omega arith, omega arith, omega arith);
  tail_right = inl refl;
}

poll_vote_requests_ends_example : poll_vote_requests net voter ≢ no_fuel
poll_vote_requests_ends_example = poll_vote_requests_ends net voter [] [] [] log_new-IsWindow

-- The configuration without server 2.
abbrev smaller : Cid
smaller = record group { bitmask = 3 }

abbrev taken : Server
taken = record voter {
  config = record voter.config { cid = smaller };
  calls = disconnect_server 2 ∷ [];
}

taken_runs : update_cid smaller voter ≡ ok (true, taken)
unfolding update_cid equal_cid drop_server is_server_on test_bit
taken_runs = refl

update_cid-IsTaken_example : IsTaken smaller voter (true, taken)
update_cid-IsTaken_example = update_cid-IsTaken smaller voter taken true taken_runs

-- Server 0 has voted for server 1 in term 2.
abbrev candidate : Server
candidate = server 1025 [] [] (0 ∷ 67108864 ∷ 67108864 ∷ []) false

abbrev elected : Server
elected = returned (poll_vote_count net candidate) candidate

elected_runs : poll_vote_count net candidate ≡ ok elected
unfolding poll_vote_count count_votes count_vote add_vote take_vote has_voted is_elected
    win_election poll_config_entries apply_committed_entries first_entry become_leader
    get_group_size log_new log_is_offset_larger log_offset_end_distance server_update_sid
    config_rounds scan_fuel apply_rounds append_write append_entry log_append_entry set_tail
    log_get_tail is_log_empty
elected_runs = refl

elected_sid : elected.ctrl.sid ≡ 1281
unfolding poll_vote_count count_votes count_vote add_vote take_vote has_voted is_elected
    win_election poll_config_entries apply_committed_entries first_entry become_leader
    get_group_size log_new log_is_offset_larger log_offset_end_distance server_update_sid
    config_rounds scan_fuel apply_rounds append_write append_entry log_append_entry set_tail
    log_get_tail is_log_empty sid_set_l
elected_sid = refl

poll_vote_count-IsMajority_example : IsMajority candidate
poll_vote_count-IsMajority_example =
    poll_vote_count-IsMajority net candidate elected elected_runs
      (λ e. absurd (omega (arith, sym elected_sid ∙ e)))

abbrev standing : Server
standing = returned (start_election net candidate) candidate

standing_runs : start_election net candidate ≡ ok standing
unfolding start_election server_update_sid
standing_runs = refl

start_election-Candidate_example :
    (sid_get_term standing.ctrl.sid ≡ sid_get_term 1025 + 1)
    × (1025 < standing.ctrl.sid)
    × (is_candidate standing.ctrl.sid standing.config.idx ≡ true)
    × (old_votes standing 3 ≡ 0)
    × (new_votes standing 3 ≡ 0)
unfolding get_group_size sid_get_term
start_election-Candidate_example =
    start_election-Candidate net candidate standing (omega arith) (omega arith) (omega arith)
      standing_runs

-- Server 0 has become the leader of term 2.
abbrev follower : Server
follower = server 1024 [] (1280 ∷ []) [] false

abbrev led : Server
led = returned (hb_receive net follower) follower

led_runs : hb_receive net follower ≡ ok led
unfolding hb_receive get_group_size receive_hb is_peer is_server_on test_bit read_hb sid_get_idx
    sid_get_l server_update_sid sid_get_term
led_runs = refl

hb_receive-IsHeard_example : IsHeard follower led
hb_receive-IsHeard_example = hb_receive-IsHeard net follower led (λ u. refl) led_runs

-- The leader of term 2 reads the reply of server 0, which is in term 3.
abbrev stale : Server
stale = server 1281 [] (1792 ∷ []) [] false

abbrev deposed : Server
deposed = returned (hb_send net stale) stale

deposed_runs : hb_send net stale ≡ ok deposed
unfolding hb_send get_group_size check_reply is_peer is_server_on test_bit server_update_sid
    server_to_follower fill_nc_buf log_entries_to_nc_buf entries_to_nc_buf scan_fuel stop_leading
    log_new log_get_entry sid_get_l after_vote_ack
deposed_runs = refl

hb_send-HasSid_example : deposed.ctrl.sid ≡ 1281
hb_send-HasSid_example = hb_send-HasSid net stale deposed (λ u. refl) deposed_runs

-- A leader prunes its log: all servers have applied its first entry.
abbrev leader : Server
leader =
    let s = server 1281 [] [] [] false in
    record s {
      log = record s.log { apply = 64; commit = 64; end = 128; tail = 64 };
      ctrl = record s.ctrl { apply_offsets = 64 ∷ 64 ∷ 64 ∷ [] };
    }

abbrev pruned : Server
pruned = elim (log_pruning net leader) [
  | ok r ↦ r.1
  | shutdown ↦ leader
  | crash ↦ leader
  | no_fuel ↦ leader
]

pruned_runs : log_pruning net leader ≡ ok (true, pruned)
unfolding log_pruning is_leader keep_entry log_offset_end_distance log_new least_offset
    get_extended_group_size least_round log_is_offset_larger is_server_on test_bit advance_head
    append_entry log_append_entry set_tail
pruned_runs = refl

log_pruning-IsPruned_example : IsPruned leader pruned
log_pruning-IsPruned_example = log_pruning-IsPruned net leader pruned true (λ u. refl) pruned_runs

poll_sm_requests-crash_example : poll_sm_requests net (server 1024 [] [] [] true) ≡ crash
unfolding get_group_size
poll_sm_requests-crash_example =
    poll_sm_requests-crash net (server 1024 [] [] [] true) 2 refl (omega arith) (omega arith)
      (omega arith)
