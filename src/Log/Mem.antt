-- ===== src/Log/Mem.antt =====
-- The bytes behind a pointer, little-endian: what `log->entries` is read and written by.
use apus.Base.{
  ℕ, zero, suc, ◌+◌, ◌*◌, ◌/◌, ◌%◌, ◌^◌, ◌≤◌, ◌<◌, ◌≡◌, ◌≢◌, ◌⊎◌, refl, ap₂, ◌∙◌, List, [], ◌∷◌,
  arith, ◌==◌, if◌then◌else◌, length,
}
use native.Mathlib.Nat.{pow-suc}

abbrev pub Mem : Type 0
Mem = ℕ → ℕ

pub poke : Mem → ℕ → ℕ → Mem
poke m a v x = if x == a then v else m x

-- an n-byte load from address a
unfoldable pub load : Mem → ℕ → ℕ → ℕ
load m a zero = 0
load m a (suc n) = m a + 256 * load m (a + 1) n

-- an n-byte store of v at address a; what does not fit into n bytes is cut off
unfoldable pub store : Mem → ℕ → ℕ → ℕ → Mem
unfolding poke
store m a zero v = m
store m a (suc n) v = store (poke m a (v % 256)) (a + 1) n (v / 256)

-- memcpy(a, bytes, length bytes)
unfoldable pub copy : Mem → ℕ → List ℕ → Mem
unfolding poke
copy m a [] = m
copy m a (b ∷ bs) = copy (poke m a b) (a + 1) bs

-- memset(a, 0, n)
unfoldable pub clear : Mem → ℕ → ℕ → Mem
unfolding poke
clear m a zero = m
clear m a (suc n) = clear (poke m a 0) (a + 1) n

-- The n bytes from address a on.
unfoldable pub bytes : Mem → ℕ → ℕ → List ℕ
bytes m a zero = []
bytes m a (suc n) = m a ∷ bytes m (a + 1) n

-- Two memories agree on the addresses from a up to b.
abbrev pub Same : Mem → Mem → ℕ → ℕ → Type 0
Same m m' a b = (x : ℕ) → a ≤ x → x < b → m' x ≡ m x

-- Address x is outside the n bytes from a on.
abbrev pub Outside : ℕ → ℕ → ℕ → Type 0
Outside a n x = (x < a) ⊎ (a + n ≤ x)

pub poke_self : (m : Mem) (a v : ℕ) → poke m a v a ≡ v
unfolding poke
poke_self m a v = ground arith

pub poke-ne : (m : Mem) (a v x : ℕ) → x ≢ a → poke m a v x ≡ m x
unfolding poke
poke-ne m a v x h = ground arith

pub store-Outside : (m : Mem) (a n v x : ℕ) → Outside a n x → store m a n v x ≡ m x
unfolding store
store-Outside m a zero v x h = refl
store-Outside m a (suc n) v x h =
    store-Outside (poke m a (v % 256)) (a + 1) n (v / 256) x (omega arith)
    ∙ poke-ne m a (v % 256) x (omega arith)

pub copy-Outside :
    (m : Mem) (a : ℕ) (bs : List ℕ) (x : ℕ) → Outside a (length bs) x → copy m a bs x ≡ m x
unfolding copy
copy-Outside m a [] x h = refl
copy-Outside m a (b ∷ bs) x h =
    copy-Outside (poke m a b) (a + 1) bs x (omega arith) ∙ poke-ne m a b x (omega arith)

pub clear-Outside : (m : Mem) (a n x : ℕ) → Outside a n x → clear m a n x ≡ m x
unfolding clear
clear-Outside m a zero x h = refl
clear-Outside m a (suc n) x h =
    clear-Outside (poke m a 0) (a + 1) n x (omega arith) ∙ poke-ne m a 0 x (omega arith)

pub load-Same : (m m' : Mem) (a n : ℕ) → Same m m' a (a + n) → load m' a n ≡ load m a n
unfolding load
load-Same m m' a zero h = refl
load-Same m m' a (suc n) h =
    ap₂ (λ x y. x + 256 * y) (h a (omega arith) (omega arith))
      (load-Same m m' (a + 1) n (λ x p q. h x (omega arith) (omega arith)))

pub bytes-Same : (m m' : Mem) (a n : ℕ) → Same m m' a (a + n) → bytes m' a n ≡ bytes m a n
unfolding bytes
bytes-Same m m' a zero h = refl
bytes-Same m m' a (suc n) h =
    ap₂ ◌∷◌ (h a (omega arith) (omega arith))
      (bytes-Same m m' (a + 1) n (λ x p q. h x (omega arith) (omega arith)))

-- Where two ranges are disjoint, a store to one does not change a load from the other.
pub load-store_ne :
    (m : Mem) (a n v b k : ℕ) → (b + k ≤ a) ⊎ (a + n ≤ b) → load (store m a n v) b k ≡ load m b k
load-store_ne m a n v b k h =
    load-Same m (store m a n v) b k (λ x p q. store-Outside m a n v x (omega arith))

-- A load of what was stored gives it back, cut to the width.
pub load-store_self : (m : Mem) (a n v : ℕ) → v < 256 ^ n → load (store m a n v) a n ≡ v
unfolding load store
load-store_self m a zero v h = omega arith
load-store_self m a (suc n) v h =
    ap₂ (λ x y. x + 256 * y)
      (store-Outside (poke m a (v % 256)) (a + 1) n (v / 256) a (omega arith)
        ∙ poke_self m a (v % 256))
      (load-store_self (poke m a (v % 256)) (a + 1) n (v / 256) smaller)
    ∙ omega arith
  where
    smaller : v / 256 < 256 ^ n
    smaller = omega (arith, pow-suc 256 n)

pub bytes-copy : (m : Mem) (a : ℕ) (bs : List ℕ) → bytes (copy m a bs) a (length bs) ≡ bs
unfolding bytes copy
bytes-copy m a [] = refl
bytes-copy m a (b ∷ bs) =
    ap₂ ◌∷◌ (copy-Outside (poke m a b) (a + 1) bs a (omega arith) ∙ poke_self m a b)
      (bytes-copy (poke m a b) (a + 1) bs)

pub load-clear_ne :
    (m : Mem) (a n b k : ℕ) → (b + k ≤ a) ⊎ (a + n ≤ b) → load (clear m a n) b k ≡ load m b k
load-clear_ne m a n b k h =
    load-Same m (clear m a n) b k (λ x p q. clear-Outside m a n x (omega arith))

pub load-copy_ne :
    (m : Mem) (a : ℕ) (bs : List ℕ) (b k : ℕ)
    → (b + k ≤ a) ⊎ (a + length bs ≤ b)
    → load (copy m a bs) b k ≡ load m b k
load-copy_ne m a bs b k h =
    load-Same m (copy m a bs) b k (λ x p q. copy-Outside m a bs x (omega arith))
