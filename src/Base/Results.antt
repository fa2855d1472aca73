-- ===== src/Base/Results.antt =====
-- `Result<T, AppError>` of error.rs, for any type of errors, with the `?` operator as bind.
use mathlib.Core.Path.{◌≡◌, refl}
use mathlib.Core.Logic.{◌⊎◌, inl, inr}
use mathlib.Core.Bool.{Bool, true, false}
use donkey.Base.Tests.{if◌then◌else◌}
use mathlib.Core.Option.{Option, none, some}

pub data Result {ℓ κ} (A : Type ℓ) (E : Type κ) : Type (ℓ ⊔ κ) where
  ok : A → Result A E
  err : E → Result A E

-- `if bad { return Err(e) }`
abbrev pub refuse_if {μ} : {E : Type μ} → Bool → E → Result (Unit {0}) E
refuse_if true e = err e
refuse_if false e = ok tt

-- `Option::ok_or`
abbrev pub ok_or {ℓ μ} : {A : Type ℓ} {E : Type μ} → Option A → E → Result A E
ok_or none e = err e
ok_or (some a) e = ok a

-- The `?` operator: an error is passed on.
infixl 5 ◌>>=◌ ◌>>◌
abbrev pub ◌>>=◌ {ℓ κ μ} :
    {A : Type ℓ} {B : Type κ} {E : Type μ} → Result A E → (A → Result B E) → Result B E
m >>= f = elim m [ err e ↦ err e | ok a ↦ f a ]

abbrev pub ◌>>◌ {κ μ} : {B : Type κ} {E : Type μ} → Result (Unit {0}) E → Result B E → Result B E
first >> second = first >>= (λ done. second)

-- Where a chain succeeds, its first part does.
pub ok_parts {ℓ κ μ} :
    {A : Type ℓ} {B : Type κ} {E : Type μ} {b : B} (f : A → Result B E) (m : Result A E)
    → (m >>= f) ≡ ok b
    → (a : A) × ((m ≡ ok a) × (f a ≡ ok b))
ok_parts f (err e) h = cc
ok_parts f (ok a) h = (a, (refl, h))

pub ok-inj {ℓ κ} : {A : Type ℓ} {E : Type κ} {a b : A} → ◌≡◌ {A = Result A E} (ok a) (ok b) → a ≡ b
ok-inj h = cc

-- Where a result is not an error, no guard has refused.
pub passed_guard {ℓ μ} :
    {A : Type ℓ} {E : Type μ} {a : A} (bad : Bool) (e : E) (m : Result A E)
    → (refuse_if bad e >>= (λ done. m)) ≡ ok a
    → (bad ≡ false) × (m ≡ ok a)
passed_guard true e m h = cc
passed_guard false e m h = (refl, h)

pub passed_if {ℓ μ} :
    {A : Type ℓ} {E : Type μ} {a : A} (bad : Bool) (e : E) (m : Result A E)
    → (if bad then err e else m) ≡ ok a
    → (bad ≡ false) × (m ≡ ok a)
passed_if true e m h = cc
passed_if false e m h = (refl, h)

pub Result-cases {ℓ μ} :
    {A : Type ℓ} {E : Type μ} (m : Result A E) → ((a : A) × (m ≡ ok a)) ⊎ ((e : E) × (m ≡ err e))
Result-cases (ok a) = inl (a, refl)
Result-cases (err e) = inr (e, refl)

pub ok_or-some {ℓ μ} :
    {A : Type ℓ} {E : Type μ} {a : A} (o : Option A) (e : E) → ok_or o e ≡ ok a → o ≡ some a
ok_or-some none e h = cc
ok_or-some (some x) e h = cc

pub passed_then {ℓ μ} :
    {A : Type ℓ} {E : Type μ} {a : A} (good : Bool) (e : E) (m : Result A E)
    → (if good then m else err e) ≡ ok a
    → (good ≡ true) × (m ≡ ok a)
passed_then false e m h = cc
passed_then true e m h = (refl, h)

pub passed_last {μ} :
    {E : Type μ} {u : Unit {0}} (bad : Bool) (e : E) → refuse_if bad e ≡ ok u → bad ≡ false
passed_last true e h = cc
passed_last false e h = refl
