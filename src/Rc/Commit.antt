-- ===== src/Rc/Commit.antt =====
-- src/dare/dare_ibv_rc.c: update_remote_logs commits the entries that are on a majority.
use apus.Base.{
  leb→le, ℕ, zero, suc, ◌+◌, ◌*◌, ◌^◌, ◌≤◌, ◌<◌, ◌≡◌, ◌⊎◌, inl, inr, refl, ap, arith, true, false,
  some, List, [], ◌∷◌, ◌++◌, map, length, length-map, Bool-cases, add64, ◌==◌, lt→ltb,
}
use apus.Log.Mem.{Mem}
use apus.Log.State.{Log, Entry}
use apus.Log.Entry.{log_entry_len, read_entry}
use apus.Log.Offsets.{log_fit_entry, log_get_entry, log_offset_end_distance, log_is_offset_larger}
use apus.Log.Scan.{scan_fuel}
use apus.Log.Layout.{Holds, Holds-length}
use apus.Log.Route.{Route, stop, entry, gap, Holds-Route, IsCloser}
use apus.Server.Reconfig.{round_fuel}
use apus.Rc.State.{Rc, done, ◌>>=◌}
use apus.Rc.Replicate.{
  find_replicated, is_replicated, count_replies, counted_size, commit_replicated, set_commit,
  advance_commit,
}

replicated-majority :
    (m : Mem) (idx size a : ℕ)
    → is_replicated m idx size a ≡ true
    → size < 2 * count_replies m idx a size
unfolding is_replicated
replicated-majority m idx size a h = omega (arith, leb→le _ _ h)

replicated-minority :
    (m : Mem) (idx size a : ℕ)
    → is_replicated m idx size a ≡ false
    → 2 * count_replies m idx a size ≤ size
unfolding is_replicated
replicated-minority m idx size a h = ground (arith, h)

-- Each of these entries is on a majority.
pub data AllReplicated (log : Log) (idx size : ℕ) : List ℕ → Type 0 where
  none_is : AllReplicated log idx size []
  one_is :
      {a : ℕ} {xs : List ℕ}
      → size < 2 * count_replies log.mem idx a size
      → AllReplicated log idx size xs
      → AllReplicated log idx size (a ∷ xs)

-- The search ends at this offset: the log ends there, or the first of these entries, which is there,
-- is not on a majority.
pub data Stops (log : Log) (idx size c : ℕ) : List ℕ → Type 0 where
  at_end : log_offset_end_distance log c ≡ 0 → Stops log idx size c []
  at_entry :
      {xs : List ℕ} → 2 * count_replies log.mem idx c size ≤ size → Stops log idx size c (c ∷ xs)

-- The entries are split where the search ends.
pub record Split (log : Log) (idx size c : ℕ) (xs : List ℕ) : Type 0 where
  pub before : List ℕ
  pub behind : List ℕ
  pub splits : xs ≡ before ++ behind
  pub replicated : AllReplicated log idx size before
  pub stops : Stops log idx size c behind

-- The fuel for a route: two rounds for each entry, and one for its end.
abbrev rounds : List ℕ → ℕ
rounds xs = 2 * length xs + 1

abbrev distance : Log → ℕ → ℕ
distance log o = log_offset_end_distance log o

module _ (log : Log) (idx size : ℕ) where
  -- What the search finds from an offset on, and that it goes towards the end.
  abbrev IsFound : ℕ → ℕ → List ℕ → Type 0
  IsFound fuel o xs =
      (c : ℕ) × (find_replicated fuel log idx size o ≡ done c)
      × (distance log c ≤ distance log o)
      × (s : Split log idx size c xs) × ((s.before ≡ []) ⊎ IsCloser log c o)

  -- The entry that an offset stands for, with one more unit of fuel.
  with_entry :
      (fuel o a : ℕ) {xs : List ℕ}
      → distance log a ≤ distance log o
      → IsCloser log (add64 a (log_entry_len log.mem a)) o
      → log_get_entry log o ≡ some a
      → log_fit_entry log a a ≡ true
      → (is_replicated log.mem idx size a ≡ true
          → IsFound fuel (add64 a (log_entry_len log.mem a)) xs)
      → IsFound (suc fuel) o (a ∷ xs)
  unfolding find_replicated
  with_entry fuel o a {xs} b d g f k = elim (Bool-cases (is_replicated log.mem idx size a)) [
    | inr no_majority ↦ (
      a,
      rw (distance_ne d, g, f, no_majority) refl,
      b,
      record {
        before = [];
        behind = a ∷ xs;
        splits = refl;
        replicated = none_is;
        stops = at_entry (replicated-minority log.mem idx size a no_majority);
      },
      inl refl,
    )
    | inl majority ↦
        let (c, e, l, s, m) = k majority in
        (
          c,
          rw (distance_ne d, g, f, majority) e,
          omega (arith, l, d),
          record {
            before = a ∷ s.before;
            behind = s.behind;
            splits = ap (λ ys. a ∷ ys) s.splits;
            replicated = one_is (replicated-majority log.mem idx size a majority) s.replicated;
            stops = s.stops;
          },
          inr (omega (arith, l, d)),
        )
  ]
    where
      distance_ne :
          IsCloser log (add64 a (log_entry_len log.mem a)) o → (distance log o == 0) ≡ false
      distance_ne h = ground (arith, h)

  -- At a gap the search goes on at the start.
  with_gap :
      (fuel o : ℕ) (xs : List ℕ)
      → IsCloser log 0 o
      → log_get_entry log o ≡ some o
      → log_fit_entry log o o ≡ false
      → IsFound fuel 0 xs
      → IsFound (suc fuel) o xs
  unfolding find_replicated
  with_gap fuel o xs d g f (c, e, l, s, m) =
      (c, rw (distance_ne d, g, f) e, omega (arith, l, d), s, inr (omega (arith, l, d)))
    where
      distance_ne : IsCloser log 0 o → (distance log o == 0) ≡ false
      distance_ne h = ground (arith, h)

  find_replicated-Route :
      (fuel : ℕ) {o : ℕ} {xs : List ℕ} → Route log o xs → rounds xs < fuel → IsFound fuel o xs
  unfolding find_replicated
  find_replicated-Route zero p h = absurd (omega (arith, h))
  find_replicated-Route (suc fuel) {o} (stop e) h = (
    o,
    rw e refl,
    omega arith,
    record { before = []; behind = []; splits = refl; replicated = none_is; stops = at_end e },
    inl refl,
  )
  find_replicated-Route (suc fuel) {o} (entry a b d g f p) h =
      with_entry fuel o a b d g f (λ m. find_replicated-Route fuel p (omega (arith, h)))
  find_replicated-Route (suc zero) (gap d g f d' g' f' p) h = absurd (omega (arith, h))
  find_replicated-Route (suc (suc fuel)) {o} (gap d g f d' g' f' p) h =
      with_gap (suc fuel) o _ d g f (
        with_entry fuel 0 0 (omega arith) d' g' f'
          (λ m. find_replicated-Route fuel p (omega (arith, h))))

commit_larger :
    (c : ℕ) (rc : Rc)
    → IsCloser rc.server.log c rc.server.log.commit
    → commit_replicated c rc ≡ set_commit c rc
unfolding commit_replicated log_is_offset_larger
commit_larger c rc h = rw (lt→ltb _ _ h) refl

commit_same :
    (c : ℕ) (rc : Rc) → (commit_replicated c rc ≡ set_commit c rc) ⊎ (commit_replicated c rc ≡ rc)
unfolding commit_replicated
commit_same c rc = elim (Bool-cases (log_is_offset_larger rc.server.log c rc.server.log.commit)) [
  | inl e ↦ inl (rw e refl)
  | inr e ↦ inr (rw e refl)
]

committed_at :
    (c : ℕ) (rc : Rc) (xs : List ℕ)
    → (xs ≡ []) ⊎ IsCloser rc.server.log c rc.server.log.commit
    → ((commit_replicated c rc).server.log.commit ≡ c) ⊎ ((xs ≡ []) × (commit_replicated c rc ≡ rc))
unfolding set_commit
committed_at c rc xs (inr closer) = inl (ap (λ t. t.server.log.commit) (commit_larger c rc closer))
committed_at c rc xs (inl none_new) = elim (commit_same c rc) [
  | inl e ↦ inl (ap (λ t. t.server.log.commit) e)
  | inr e ↦ inr (none_new, e)
]

enough_rounds :
    (log : Log) {o : ℕ} {es : List Entry} (xs : List ℕ)
    → Holds log o es
    → map (read_entry log.mem) xs ≡ es
    → rounds xs < round_fuel log
unfolding scan_fuel
enough_rounds log {o} {es} xs h k =
    omega (arith, Holds-length h, length-map (read_entry log.mem) xs, ap length k)

-- Where the log holds some entries from its commit offset on, their offsets are split in two: the
-- first ones are each on a majority, and the others are none, or begin with one that is not. The
-- search ends, and the new commit offset is that of the first of the others, or, where there are no
-- others, the end of the log; if no entry is on a majority, the state may also stay as it is.
pub advance_commit-replicated :
    (rc : Rc) (es : List Entry)
    → rc.server.log.len < 2 ^ 64
    → Holds rc.server.log rc.server.log.commit es
    → (t : Rc) × (advance_commit rc ≡ done t)
      × (xs : List ℕ) × (map (read_entry rc.server.log.mem) xs ≡ es)
      × (c : ℕ) × (s : Split rc.server.log rc.server.config.idx
          (counted_size rc.server.config.cid)
          c
          xs)
      × ((t.server.log.commit ≡ c) ⊎ ((s.before ≡ []) × (t ≡ rc)))
unfolding advance_commit set_commit
advance_commit-replicated rc es small h =
    let log = rc.server.log in
    let (xs, p, k) = Holds-Route log small h in
    let (c, e, l, s, m) =
      find_replicated-Route log rc.server.config.idx (counted_size rc.server.config.cid)
        (round_fuel log) p (enough_rounds log xs h k) in
    (
      commit_replicated c rc,
      ap (λ r. r >>= λ c. done (commit_replicated c rc)) e,
      xs,
      k,
      c,
      s,
      committed_at c rc s.before m,
    )
