-- ===== src/Rc/Ends.antt =====
-- Properties of the state that the functions of src/dare/dare_ibv_rc.c leave, with an error code or
-- without one.
use apus.Base.{◌≡◌, refl, ℕ, zero, suc, Bool, true, false, if◌then◌else◌}
use apus.Rc.State.{Rc, Run, done, failed, endless, crash, ◌>>=◌, ignore_error}
use apus.Rc.Adjust.{each}

abbrev pub Ends {ℓ κ} : {A : Type ℓ} → (A → Rc) → (Rc → Type κ) → Run A → Type κ
Ends f P (done a) = P (f a)
Ends f P (failed rc) = P rc
Ends f P endless = Unit
Ends f P crash = Unit

-- The state that a function returns.
abbrev pub self : Rc → Rc
self rc = rc

-- The state behind another result.
abbrev pub state_of {ℓ} : {A : Type ℓ} → A × Rc → Rc
state_of r = r.1

pub bind-Ends {ℓ κ μ} :
    {A : Type ℓ} {B : Type κ} (f : A → Rc) (g : B → Rc) (P : Rc → Type μ) (m : Run A)
    (k : A → Run B)
    → Ends f P m
    → ((a : A) → P (f a) → Ends g P (k a))
    → Ends g P (m >>= k)
bind-Ends f g P (done a) k h n = n a h
bind-Ends f g P (failed rc) k h n = h
bind-Ends f g P endless k h n = tt
bind-Ends f g P crash k h n = tt

pub ignore-Ends {κ} : (P : Rc → Type κ) (m : Run Rc) → Ends self P m → Ends self P (ignore_error m)
ignore-Ends P (done a) h = h
ignore-Ends P (failed rc) h = h
ignore-Ends P endless h = tt
ignore-Ends P crash h = tt

pub if-Ends {ℓ κ} :
    {A : Type ℓ} (f : A → Rc) (P : Rc → Type κ) (b : Bool) (m n : Run A)
    → Ends f P m
    → Ends f P n
    → Ends f P (if b then m else n)
if-Ends f P true m n h k = h
if-Ends f P false m n h k = k

-- What every round keeps is kept by the loop over the servers.
pub each-Ends {ℓ κ} :
    {S : Type ℓ} (f : S → Rc) (P : Rc → Type κ) (n : ℕ) (k : ℕ → S → Run S) (s : S)
    → P (f s)
    → ((i : ℕ) (s : S) → P (f s) → Ends f P (k i s))
    → Ends f P (each n k s)
each-Ends f P zero k s h r = h
each-Ends f P (suc n) k s h r =
    bind-Ends f f P (each n k s) (λ t. k n t) (each-Ends f P n k s h r) (λ t q. r n t q)

-- A property of what a function returns, if it does.
abbrev pub Returns {ℓ κ} : {A : Type ℓ} → (A → Type κ) → Run A → Type κ
Returns P (done a) = P a
Returns P (failed rc) = Unit
Returns P endless = Unit
Returns P crash = Unit

pub bind-Returns {ℓ κ μ ν} :
    {A : Type ℓ} {B : Type κ} (P : A → Type μ) (Q : B → Type ν) (m : Run A) (f : A → Run B)
    → Returns P m
    → ((a : A) → P a → Returns Q (f a))
    → Returns Q (m >>= f)
bind-Returns P Q (done a) f h k = k a h
bind-Returns P Q (failed rc) f h k = tt
bind-Returns P Q endless f h k = tt
bind-Returns P Q crash f h k = tt

pub self-Returns {ℓ} : {A : Type ℓ} (m : Run A) → Returns (λ a. m ≡ done a) m
self-Returns (done a) = refl
self-Returns (failed rc) = tt
self-Returns endless = tt
self-Returns crash = tt

pub any-Returns {ℓ} : {A : Type ℓ} (m : Run A) → Returns {ℓ, 0} (λ a. Unit) m
any-Returns (done a) = tt
any-Returns (failed rc) = tt
any-Returns endless = tt
any-Returns crash = tt
