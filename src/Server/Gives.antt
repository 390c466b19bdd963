-- ===== src/Server/Gives.antt =====
-- Properties of what the handlers of src/dare/dare_server.c return.
use apus.Base.{ℕ, ◌≡◌, Option, none, some, Bool, true, false, ◌==◌, if◌then◌else◌, refl, subst}
use apus.Server.State.{Server}
use apus.Server.Step.{Result, ok, shutdown, crash, no_fuel, ◌>>=◌, in_fuel, exit_unless_zero}

-- A property of the state that a handler returns, if it returns one.
abbrev pub Gives {ℓ κ} : {A : Type ℓ} → (A → Type κ) → Result A → Type κ
Gives P (ok a) = P a
Gives P shutdown = Unit
Gives P crash = Unit
Gives P no_fuel = Unit

pub bind-Gives {ℓ κ μ ν} :
    {A : Type ℓ} {B : Type κ} (P : A → Type μ) (Q : B → Type ν) (m : Result A) (f : A → Result B)
    → Gives P m
    → ((a : A) → P a → Gives Q (f a))
    → Gives Q (m >>= f)
bind-Gives P Q (ok a) f h k = k a h
bind-Gives P Q shutdown f h k = tt
bind-Gives P Q crash f h k = tt
bind-Gives P Q no_fuel f h k = tt

pub map-Gives {ℓ κ μ} :
    {A : Type ℓ} (P : A → Type κ) (Q : A → Type μ) (m : Result A)
    → ((a : A) → P a → Q a)
    → Gives P m
    → Gives Q m
map-Gives P Q (ok a) k h = k a h
map-Gives P Q shutdown k h = tt
map-Gives P Q crash k h = tt
map-Gives P Q no_fuel k h = tt

pub self-Gives {ℓ} : {A : Type ℓ} (m : Result A) → Gives (λ a. m ≡ ok a) m
self-Gives (ok a) = refl
self-Gives shutdown = tt
self-Gives crash = tt
self-Gives no_fuel = tt

pub const-Gives {ℓ κ} : {A : Type ℓ} (Q : A → Type κ) (m : Result A) → ((a : A) → Q a) → Gives Q m
const-Gives Q (ok a) h = h a
const-Gives Q shutdown h = tt
const-Gives Q crash h = tt
const-Gives Q no_fuel h = tt

pub of-Gives {ℓ κ} :
    {A : Type ℓ} (P : A → Type κ) (m : Result A) (a : A) → Gives P m → m ≡ ok a → P a
of-Gives P m a h e = subst (Gives P) e h

pub if-Gives {ℓ κ} :
    {A : Type ℓ} (P : A → Type κ) (b : Bool) (x y : Result A)
    → (b ≡ true → Gives P x)
    → (b ≡ false → Gives P y)
    → Gives P (if b then x else y)
if-Gives P true x y h k = h refl
if-Gives P false x y h k = k refl

pub if-holds {ℓ κ} :
    {A : Type ℓ} (P : A → Type κ) (b : Bool) (x y : A) → P x → P y → P (if b then x else y)
if-holds P true x y h k = h
if-holds P false x y h k = k

pub if-cases {ℓ κ} :
    {A : Type ℓ} (P : A → Type κ) (b : Bool) (x y : A)
    → (b ≡ true → P x)
    → (b ≡ false → P y)
    → P (if b then x else y)
if-cases P true x y h k = h refl
if-cases P false x y h k = k refl

pub in_fuel-Gives {ℓ κ μ} :
    {A : Type ℓ} {B : Type κ} (Q : B → Type μ) (o : Option A) (f : A → Result B)
    → ((a : A) → o ≡ some a → Gives Q (f a))
    → Gives Q (in_fuel o >>= f)
in_fuel-Gives Q none f h = tt
in_fuel-Gives Q (some a) f h = h a refl

pub exit_unless_zero-Gives {κ} :
    (P : Server → Type κ) (rc : ℕ) (s : Server) → P s → Gives P (exit_unless_zero rc s)
exit_unless_zero-Gives P rc s h = if-Gives P (rc == 0) (ok s) shutdown (λ e. h) (λ e. tt)
