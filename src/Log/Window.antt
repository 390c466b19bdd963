-- ===== src/Log/Window.antt =====
-- The log as three lists: the entries that are applied and not pruned, those that are committed
-- and not applied, and those that are not committed. The search for the tail among them.
use apus.Base.{
  ℕ, ◌^◌, ◌≤◌, ◌<◌, ◌≡◌, ◌≢◌, ◌⊎◌, refl, arith, List, [], ◌∷◌, ◌++◌, length, some, add64,
}
use apus.Log.State.{Log, Entry}
use apus.Log.Offsets.{log_get_entry}
use apus.Log.Scan.{find_tail, scan_fuel}
use apus.Log.Layout.{Run-le, Holds, empty, linear, wrapped, Holds-length}
use apus.Log.Walk.{Holds-Walk, IsAt, Last, tail-Walk}

-- The offset lies in the part of the buffer that the log takes up.
abbrev pub Inside : Log → ℕ → Type 0
Inside log o =
    ((log.head ≤ log.end) × (log.head ≤ o) × (o ≤ log.end))
    ⊎ ((log.end < log.head) × ((log.head ≤ o) ⊎ (o ≤ log.end)))

-- Where the last of these entries is; the length of the buffer if there is none.
abbrev pub IsTail : Log → List Entry → ℕ → Type 0
IsTail log es t = Last log (λ k. k ≡ log.len) es t

pub record IsWindow (log : Log) (applied committed pending : List Entry) : Type 0 where
  pub len_fits : log.len < 2 ^ 64
  pub len_pos : 0 < log.len
  pub whole : Holds log log.head (applied ++ (committed ++ pending))
  pub unapplied : Holds log log.apply (committed ++ pending)
  pub uncommitted : Holds log log.commit pending
  pub apply_inside : Inside log log.apply
  pub commit_inside : Inside log log.commit
  -- The tail is not known, or it is right.
  pub tail_right : (log.tail ≡ log.len) ⊎ IsTail log (applied ++ (committed ++ pending)) log.tail

-- The index of the next entry: 1 in an empty log.
abbrev pub last_idx : ℕ → List Entry → ℕ
last_idx n [] = n
last_idx n (e ∷ es) = last_idx e.idx es

abbrev pub idx_after : List Entry → ℕ
idx_after es = add64 (last_idx 0 es) 1

pub Last-suffix :
    (log : Log) (P Q : ℕ → Type 0) (xs : List Entry) (c : Entry) (cs : List Entry) (t : ℕ)
    → Last log P (c ∷ cs) t
    → Last log Q (xs ++ (c ∷ cs)) t
Last-suffix log P Q [] c cs t h = h
Last-suffix log P Q (x ∷ xs) c cs t h = Last-suffix log P (IsAt log x) xs c cs t h

pub get_entry-ne-len :
    (log : Log) (t : ℕ) → 0 < log.len → log_get_entry log t ≡ some t → t ≢ log.len
unfolding log_get_entry
get_entry-ne-len log t p h e = ground arith

pub Last-ne-len :
    (log : Log) (P : ℕ → Type 0) (c : Entry) (cs : List Entry) (t : ℕ)
    → 0 < log.len
    → Last log P (c ∷ cs) t
    → t ≢ log.len
Last-ne-len log P c [] t p h = get_entry-ne-len log t p h.0
Last-ne-len log P c (d ∷ cs) t p h = Last-ne-len log (IsAt log c) d cs t p h

pub Holds-none :
    {log : Log} {o : ℕ} {es : List Entry} → Holds log o es → log.end ≡ log.len → es ≡ []
Holds-none (empty e z) h = refl
Holds-none (linear lt r) h = absurd (omega arith)
Holds-none (wrapped w fs gs p lt le g r s e) h = absurd (omega (arith, Run-le r))

-- One of the three searches: it finds nothing where there are no entries.
pub search_from :
    (log : Log) (o : ℕ) (es : List Entry)
    → log.len < 2 ^ 64
    → Holds log o es
    → (t : ℕ) × (find_tail (scan_fuel log) log o log.len ≡ some t) × IsTail log es t
search_from log o es small h =
    tail-Walk (scan_fuel log) log.len (λ k. k ≡ log.len) (Holds-Walk log small h) enough refl
  where
    enough : length es < scan_fuel log
    enough = unfold scan_fuel in omega (arith, Holds-length h)
