-- ===== src/Server/VoteEnds.antt =====
-- src/dare/dare_server.c: the searches of poll_vote_requests in the log end.
use apus.Base.{
  length, ℕ, zero, suc, ◌≡◌, ◌≢◌, refl, sym, ◌∙◌, ap, subst, Bool, true, false, not, ◌&&◌, ◌==◌,
  ltb, ◌+◌, ◌/◌, for_range-ind, if◌then◌else◌, for_range, Option, none, some, List, [], ◌∷◌, get_or,
}
use apus.Config.Cid.{Cid, get_group_size, is_server_on, equal_cid}
use apus.Log.State.{max_nc_entries, Log, Entry, NcBuf}
use apus.Log.Offsets.{log_get_entry, is_log_empty, log_fit_entry}
use apus.Log.Entry.{entry_idx, entry_term}
use apus.Log.Scan
use apus.Log.Scan.{find_tail, skip_entry, log_get_tail, scan_fuel, log_entries_to_nc_buf}
use apus.Log.Window.{IsWindow}
use apus.Log.Tail.{log_get_tail-IsTail}
use apus.Log.NcBuf.{log_entries_to_nc_buf-AreDets}
use apus.Server.State.{
  Server, VoteReq, revoke_log_access, restore_log_access, replicate_vote, send_vote_ack,
}
use apus.Server.Step.{
  Result, ok, shutdown, crash, no_fuel, ◌>>=◌, Net, in_fuel, exit_unless_zero, call, set_log,
  stop_hb_event, AckResult, sent, ack_failed, ack_error,
}
use apus.Server.Election.{
  fill_nc_buf, filled, server_update_sid, start_election, next_sid, after_vote_ack, on_ack,
  update_cid, drop_server, stop_leading,
}
use apus.Server.Vote.{
  poll_vote_requests, examine, decide_vote, last_entry, raise_term, vote_for, set_requests, choose,
  start_choice, look_at,
}
use apus.Server.Sid.{sid_get_l, sid_get_idx, sid_get_term, sid_set_l}

-- A handler does not run out of fuel.
abbrev Ends {ℓ} : {A : Type ℓ} → Result A → Type 0
Ends (ok a) = Unit
Ends shutdown = Unit
Ends crash = Unit
Ends no_fuel = ⊥

bind-Ends {ℓ κ} :
    {A : Type ℓ} {B : Type κ} (m : Result A) (f : A → Result B)
    → Ends m
    → ((a : A) → m ≡ ok a → Ends (f a))
    → Ends (m >>= f)
bind-Ends (ok a) f h k = k a refl
bind-Ends shutdown f h k = tt
bind-Ends crash f h k = tt
bind-Ends no_fuel f h k = absurd h

if-Ends {ℓ} : {A : Type ℓ} (b : Bool) (x y : Result A) → Ends x → Ends y → Ends (if b then x else y)
if-Ends true x y h k = h
if-Ends false x y h k = k

find_tail_cases :
    (o : Option ℕ) (t : ℕ) (f g : ℕ → Option ℕ)
    → ((a : ℕ) → f a ≡ g a)
    → elim o [ none ↦ some t | some a ↦ f a ] ≡ elim o [ none ↦ some t | some a ↦ g a ]
find_tail_cases none t f g h = refl
find_tail_cases (some a) t f g h = h a

-- The buffer of determinants does not matter to the search for the tail.
find_tail-filled :
    (fuel : ℕ) (s : Server) (ds : NcBuf) (o t : ℕ)
    → find_tail fuel (filled s ds) o t ≡ find_tail fuel s.log o t
unfolding find_tail log_get_entry skip_entry log_fit_entry
find_tail-filled zero s ds o t = refl
find_tail-filled (suc fuel) s ds o t =
    find_tail_cases (log_get_entry s.log o) t _ _
      (λ a. find_tail-filled fuel s ds (skip_entry s.log a) a)

-- log_get_tail, given the results of its searches.
abbrev tails : Log → Option ℕ → Option ℕ → Option ℕ → Option ℕ
tails log a b c =
    if not (log.tail == log.len)
    then some log.tail
    else if log.end == log.len
    then some log.len
    else Scan.◌>>=◌ a (λ t.
      if not (t == log.len)
      then some t
      else Scan.◌>>=◌ b (λ u. if not (u == log.len) then some u else c))

log_get_tail-filled : (s : Server) (ds : NcBuf) → log_get_tail (filled s ds) ≡ log_get_tail s.log
unfolding log_get_tail scan_fuel is_log_empty
log_get_tail-filled s ds =
    let n = s.log.len / 64 + 2 in
    let l = s.log.len in
    let a = find_tail-filled n s ds s.log.commit l in
    let b = find_tail-filled n s ds s.log.apply l in
    let c = find_tail-filled n s ds s.log.head l in
    let at = (λ (o : ℕ). find_tail n s.log o l) in
    let at' = (λ (o : ℕ). find_tail n (filled s ds) o l) in
    ap (λ x. tails s.log x (at' s.log.apply) (at' s.log.head)) a
    ∙ ap (λ x. tails s.log (at s.log.commit) x (at' s.log.head)) b
    ∙ ap (λ x. tails s.log (at s.log.commit) (at s.log.apply) x) c

in_fuel-Ends :
    {A B : Type 0} (o : Option A) (f : A → Result B) (a : A)
    → o ≡ some a
    → Ends (f a)
    → Ends (in_fuel o >>= f)
in_fuel-Ends o f a e h = subst (λ x. Ends (in_fuel x >>= f)) (sym e) h

exit_unless_zero-Ends : (rc : ℕ) (s : Server) → Ends (exit_unless_zero rc s)
exit_unless_zero-Ends rc s = if-Ends (rc == 0) (ok s) shutdown tt tt

server_update_sid-Ends : (new old : ℕ) (s : Server) → Ends (server_update_sid new old s)
unfolding server_update_sid
server_update_sid-Ends new old s = if-Ends (s.ctrl.sid == old) _ shutdown tt tt

start_election-Ends : (net : Net) (s : Server) → Ends (start_election net s)
unfolding start_election
start_election-Ends net s =
    bind-Ends (server_update_sid (next_sid s) s.ctrl.sid s) _
      (server_update_sid-Ends (next_sid s) s.ctrl.sid s)
      (λ t e.
        bind-Ends (exit_unless_zero (net.revoke_rc t) (call revoke_log_access t)) _
          (exit_unless_zero-Ends (net.revoke_rc t) (call revoke_log_access t))
          (λ u e. exit_unless_zero-Ends _ _))

on_ack-Ends : (net : Net) (s : Server) (r : AckResult) → Ends (on_ack net s r)
on_ack-Ends net s sent = tt
on_ack-Ends net s ack_failed = start_election-Ends net s
on_ack-Ends net s ack_error = tt

drop_server-Ends : (cid : Cid) (i : ℕ) (r : Result Server) → Ends r → Ends (drop_server cid i r)
unfolding drop_server
drop_server-Ends cid i r h = bind-Ends r _ h (λ s e.
    if-Ends (not (is_server_on cid i) && is_server_on s.config.cid i) _ _
      (if-Ends (i == s.config.idx) shutdown _ tt tt) tt)

update_cid-Ends : (cid : Cid) (s : Server) → Ends (update_cid cid s)
unfolding update_cid
update_cid-Ends cid s =
    let n = (if ltb cid.size cid.new_size then cid.new_size else cid.size) in
    if-Ends (equal_cid s.config.cid cid) (ok (false, s)) _ tt (
      bind-Ends (for_range n (drop_server cid) (ok s)) _
        (for_range-ind (λ i r. Ends r) n (drop_server cid) (ok s) tt
          (λ i r l h. drop_server-Ends cid i r h))
        (λ t e. tt))

vote_for-Ends : (net : Net) (best : VoteReq) (s : Server) → Ends (vote_for net best s)
unfolding vote_for after_vote_ack
vote_for-Ends net best s =
    bind-Ends (server_update_sid best.sid s.ctrl.sid (stop_hb_event s)) _
      (server_update_sid-Ends best.sid s.ctrl.sid (stop_hb_event s))
      (λ t e. bind-Ends (update_cid best.cid t) _ (update_cid-Ends best.cid t) (λ r e.
        bind-Ends (exit_unless_zero (net.replicate_vote_rc r.1) (call replicate_vote r.1)) _
          (exit_unless_zero-Ends (net.replicate_vote_rc r.1) (call replicate_vote r.1))
          (λ u e.
            bind-Ends
              (exit_unless_zero (net.restore_rc (stop_leading u))
                (call restore_log_access (stop_leading u)))
              _
              (exit_unless_zero-Ends (net.restore_rc (stop_leading u))
                (call restore_log_access (stop_leading u)))
              (λ v e. on_ack-Ends net (call send_vote_ack v) (net.vote_ack_rc v)))))

last_entry-Ends :
    (log : Log) (ds : NcBuf) (t : ℕ) → log_get_tail log ≡ some t → Ends (last_entry log ds)
unfolding last_entry
last_entry-Ends log (d ∷ ds) t e = tt
last_entry-Ends log [] t e =
    in_fuel-Ends (log_get_tail log) _ t e
      (if-Ends (t == log.len) (ok (0, 0)) _ tt (read_cases (log_get_entry log t)))
  where
    read_cases :
        (o : Option ℕ)
        → Ends {A = ℕ × ℕ} (elim o [
          | none ↦ crash
          | some entry ↦ ok (entry_idx log.mem entry, entry_term log.mem entry)
        ])
    read_cases none = tt
    read_cases (some entry) = tt

exit-bind-Ends :
    (b : Bool) (s : Server) (f : Server → Result Server)
    → Ends (f s)
    → Ends ((if b then ok s else shutdown) >>= f)
exit-bind-Ends true s f h = h
exit-bind-Ends false s f h = tt

crash-bind-Ends :
    (b : Bool) (s : Server) (f : Server → Result Server)
    → Ends (f s)
    → Ends ((if b then crash else ok s) >>= f)
crash-bind-Ends true s f h = tt
crash-bind-Ends false s f h = h

decide_vote-Ends :
    (net : Net) (old_sid best_sid : ℕ) (last : ℕ × ℕ) (s : Server)
    → Ends (decide_vote net old_sid best_sid last s)
unfolding decide_vote raise_term
decide_vote-Ends net old_sid best_sid last s =
    let c = for_range (get_group_size s.config.cid) choose (start_choice old_sid last best_sid s) in
    if-Ends (c.best.sid == old_sid) _ _
      (server_update_sid-Ends _ s.ctrl.sid (set_requests c.reqs s))
      (vote_for-Ends net c.best (set_requests c.reqs s))

module _ (s : Server) (xs ys zs : List Entry) (w : IsWindow s.log xs ys zs) where
  examine-Ends :
      (net : Net) (old_sid best_sid : ℕ) (reqs : List VoteReq)
      → Ends (examine net old_sid best_sid (set_requests reqs s))
  unfolding examine fill_nc_buf
  examine-Ends net old_sid best_sid reqs =
      let start = call revoke_log_access (set_requests reqs s) in
      let (ds, e, k) = log_entries_to_nc_buf-AreDets s.log xs ys zs w in
      let (t, q, h) = log_get_tail-IsTail s.log xs ys zs w in
      exit-bind-Ends (net.revoke_rc (set_requests reqs s) == 0) start _ (
        subst
          (λ o. Ends (
            (in_fuel o >>= λ ds.
            if ltb max_nc_entries (length ds) then crash else ok (set_log (filled start ds) start))
            >>= λ u. last_entry u.log (get_or u.log.nc_buf u.config.idx []) >>= λ last.
                decide_vote net old_sid best_sid last u))
          (sym e)
          (crash-bind-Ends (ltb max_nc_entries (length ds)) (set_log (filled start ds) start) _ (
            bind-Ends
              (last_entry (filled start ds) (get_or (filled start ds).nc_buf s.config.idx [])) _
              (last_entry-Ends (filled start ds) _ t (log_get_tail-filled start ds ∙ q))
              (λ last e.
                decide_vote-Ends net old_sid best_sid last (set_log (filled start ds) start)))))

  poll_vote_requests-Ends : (net : Net) → Ends (poll_vote_requests net s)
  unfolding poll_vote_requests
  poll_vote_requests-Ends net =
      let sid = s.ctrl.sid in
      let hb = get_or s.ctrl.hb (sid_get_idx sid) 0 in
      let look =
        for_range (get_group_size s.config.cid) (look_at s.config.idx)
          (sid_set_l sid, s.ctrl.vote_req) in
      if-Ends (sid_get_l sid) (ok s) _ tt (
        if-Ends (not (hb == 0) && sid_get_term hb == sid_get_term sid) (server_update_sid hb sid s)
          _ (server_update_sid-Ends hb sid s)
          (if-Ends (look.0 == sid_set_l sid) (ok (set_requests look.1 s))
            (examine net (sid_set_l sid) look.0 (set_requests look.1 s)) tt
            (examine-Ends net (sid_set_l sid) look.0 look.1)))

-- On a well-formed log, the searches of poll_vote_requests end, whatever the requests, the
-- heartbeats and the answers of the network are.
pub poll_vote_requests_ends :
    (net : Net) (s : Server) (xs ys zs : List Entry)
    → IsWindow s.log xs ys zs
    → poll_vote_requests net s ≢ no_fuel
poll_vote_requests_ends net s xs ys zs w e = subst Ends e (poll_vote_requests-Ends s xs ys zs w net)
