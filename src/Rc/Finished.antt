-- ===== src/Rc/Finished.antt =====
-- src/dare/dare_ibv_rc.c: the servers to which all the posted sends have been completed.
use apus.Base.{
  ℕ, zero, suc, ◌+◌, ◌≤◌, ◌<◌, ◌≡◌, ◌⊎◌, inl, inr, refl, ap, ◌∙◌, subst, arith, Bool, true, false,
  not, ◌&&◌, List, [], ◌∷◌, if◌then◌else◌, for_range, set, ℤ, pos, negsuc, decrement, is_zero,
}
use native.Mathlib.Decide.{ℕ_discrete}
use apus.Rc.Wait.{posted_at, count_zeros}

-- Below zero: nothing was posted.
abbrev pub is_negative : ℤ → Bool
is_negative (pos n) = false
is_negative (negsuc n) = true

-- Not above zero: nothing is left.
abbrev is_over : ℤ → Bool
is_over (pos zero) = true
is_over (pos (suc n)) = false
is_over (negsuc n) = true

-- There were sends, or nothing to send, and none is left.
unfoldable pub is_finished : List ℤ → List ℤ → ℕ → Bool
is_finished ps qs i = not (is_negative (posted_at ps i)) && is_over (posted_at qs i)

-- How many of the numbers below `n` pass a test.
abbrev tally : (ℕ → Bool) → ℕ → ℕ
tally f n = for_range n (λ i k. if f i then k + 1 else k) 0

unfoldable pub count_finished : List ℤ → List ℤ → ℕ → ℕ
count_finished ps qs size = tally (is_finished ps qs) size

-- A test that lets more through.
abbrev pub Lets : Bool → Bool → Type 0
Lets a b = a ≡ true → b ≡ true

bump_mono :
    (a b : Bool) (x y k : ℕ)
    → Lets a b
    → k + x ≤ y
    → k + (if a then x + 1 else x) ≤ (if b then y + 1 else y)
bump_mono true true x y k h l = omega (arith, l)
bump_mono true false x y k h l = absurd (ground (arith, h refl))
bump_mono false true x y k h l = omega (arith, l)
bump_mono false false x y k h l = l

bump_more :
    (a b : Bool) (x y : ℕ)
    → a ≡ false
    → b ≡ true
    → x ≤ y
    → 1 + (if a then x + 1 else x) ≤ (if b then y + 1 else y)
bump_more a b x y h k l = rw (h, k) (omega (arith, l))

module _ (f g : ℕ → Bool) (h : (i : ℕ) → Lets (f i) (g i)) where
  tally_mono : (n : ℕ) → tally f n ≤ tally g n
  tally_mono zero = omega arith
  tally_mono (suc n) =
      omega
        (arith, bump_mono (f n) (g n) (tally f n) (tally g n) 0 (h n) (omega (arith, tally_mono n)))

  tally_more : (n j : ℕ) → f j ≡ false → g j ≡ true → j < n → 1 + tally f n ≤ tally g n
  tally_more zero j a b l = absurd (omega (arith, l))
  tally_more (suc n) j a b l = elim (ℕ_discrete j n) [
    | yes e ↦
        bump_more (f n) (g n) _ _ (subst (λ i. f i ≡ false) e a) (subst (λ i. g i ≡ true) e b)
          (tally_mono n)
    | no ne ↦ bump_mono (f n) (g n) _ _ 1 (h n) (tally_more n j a b (omega (arith, l, ne)))
  ]

decrement-IsOver : (z : ℤ) → Lets (is_over z) (is_over (decrement z))
decrement-IsOver (pos zero) h = refl
decrement-IsOver (pos (suc zero)) h = refl
decrement-IsOver (pos (suc (suc n))) h = h
decrement-IsOver (negsuc n) h = refl

pub decrement-IsNegative : (z : ℤ) → Lets (is_negative z) (is_negative (decrement z))
decrement-IsNegative (pos zero) h = refl
decrement-IsNegative (pos (suc n)) h = h
decrement-IsNegative (negsuc n) h = refl

-- One send less to a server.
abbrev pub less_one : List ℤ → ℕ → List ℤ
less_one qs c = set qs c (decrement (posted_at qs c))

less_one_at :
    (qs : List ℤ) (c i : ℕ)
    → (posted_at (less_one qs c) i ≡ posted_at qs i)
      ⊎ (posted_at (less_one qs c) i ≡ decrement (posted_at qs i))
less_one_at [] c i = inl refl
less_one_at (x ∷ xs) zero zero = inr refl
less_one_at (x ∷ xs) zero (suc i) = inl refl
less_one_at (x ∷ xs) (suc c) zero = inl refl
less_one_at (x ∷ xs) (suc c) (suc i) = less_one_at xs c i

-- What taking one away keeps, at any server.
pub less_one_keeps :
    (f : ℤ → Bool)
    → ((z : ℤ) → Lets (f z) (f (decrement z)))
    → (qs : List ℤ) (c i : ℕ) → Lets (f (posted_at qs i)) (f (posted_at (less_one qs c) i))
less_one_keeps f k qs c i h = elim (less_one_at qs c i) [
  | inl e ↦ ap f e ∙ h
  | inr e ↦ ap f e ∙ k (posted_at qs i) h
]

-- The last send to a server, which is the list's.
last_send :
    (qs : List ℤ) (c : ℕ)
    → is_zero (decrement (posted_at qs c)) ≡ true
    → (is_over (posted_at qs c) ≡ false) × (is_over (posted_at (less_one qs c) c) ≡ true)
last_send [] c h = absurd (ground (arith, h))
last_send (pos zero ∷ xs) zero h = absurd (ground (arith, h))
last_send (pos (suc zero) ∷ xs) zero h = (refl, refl)
last_send (pos (suc (suc n)) ∷ xs) zero h = absurd (ground (arith, h))
last_send (negsuc n ∷ xs) zero h = absurd (ground (arith, h))
last_send (x ∷ xs) (suc c) h = last_send xs c h

and_right : (a b c : Bool) → Lets b c → Lets (a && b) (a && c)
and_right true b c h k = h k
and_right false b c h k = k

zero_finished :
    (x y : ℤ)
    → Lets (is_negative x) (is_negative y)
    → Lets (is_zero y) (not (is_negative x) && is_over y)
zero_finished (pos n) (pos zero) h z = refl
zero_finished (negsuc n) (pos zero) h z = absurd (ground (arith, h refl))
zero_finished x (pos (suc m)) h z = absurd (ground (arith, z))
zero_finished x (negsuc m) h z = absurd (ground (arith, z))

last-nonneg :
    (x y : ℤ)
    → Lets (is_negative x) (is_negative y)
    → is_zero (decrement y) ≡ true
    → is_negative x ≡ false
last-nonneg (pos n) y h z = refl
last-nonneg (negsuc n) (pos m) h z = absurd (ground (arith, h refl))
last-nonneg (negsuc n) (negsuc m) h z = absurd (ground (arith, z))

module _ (ps qs : List ℤ) (c : ℕ) where
  finished_keeps : (i : ℕ) → Lets (is_finished ps qs i) (is_finished ps (less_one qs c) i)
  unfolding is_finished
  finished_keeps i h =
      and_right (not (is_negative (posted_at ps i))) _ _
        (less_one_keeps is_over decrement-IsOver qs c i) h

  pub count_finished_mono : (n : ℕ) → count_finished ps qs n ≤ count_finished ps (less_one qs c) n
  unfolding count_finished
  count_finished_mono n = tally_mono _ _ finished_keeps n

  -- The last send to a server that was to have some.
  pub count_finished_more :
      (n : ℕ)
      → is_zero (decrement (posted_at qs c)) ≡ true
      → Lets (is_negative (posted_at ps c)) (is_negative (posted_at qs c))
      → c < n
      → 1 + count_finished ps qs n ≤ count_finished ps (less_one qs c) n
  unfolding count_finished is_finished
  count_finished_more n z h l =
      let a = last-nonneg (posted_at ps c) (posted_at qs c) h z in
      tally_more _ _ finished_keeps n c (rw (a, (last_send qs c z).0) refl)
        (rw (a, (last_send qs c z).1) refl) l

-- The servers for which no send is left are finished, if there was not nothing to send to them.
pub count_zeros-finished :
    (ps qs : List ℤ)
    → ((i : ℕ) → Lets (is_negative (posted_at ps i)) (is_negative (posted_at qs i)))
    → (n : ℕ) → count_zeros qs n ≤ count_finished ps qs n
unfolding count_zeros count_finished is_finished
count_zeros-finished ps qs h n =
    tally_mono (λ i. is_zero (posted_at qs i)) _
      (λ i z. zero_finished (posted_at ps i) (posted_at qs i) (h i) z) n
