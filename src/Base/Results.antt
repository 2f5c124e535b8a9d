-- ===== src/Base/Results.antt =====
-- Go's pair of a value and an `error`: the value, or the text of the error.
use mathlib.Core.Path.{◌≡◌, refl}
use mathlib.Core.Bool.{true}
use distribute_pki.Base.Tests.{is_some}
use mathlib.Core.Logic.{◌⊎◌, inl, inr}
use mathlib.Core.Option.{Option, none, some}
use Prim.Native.String.{String}

pub data Result {ℓ} (A : Type ℓ) : Type ℓ where
  ok : A → Result A
  err : String → Result A

infixl 5 ◌>>=◌
abbrev pub ◌>>=◌ {ℓ κ} : {A : Type ℓ} {B : Type κ} → Result A → (A → Result B) → Result B
ok a >>= f = f a
err e >>= f = err e

pub Result-cases {ℓ} :
    {A : Type ℓ} (r : Result A) → ((e : String) × (r ≡ err e)) ⊎ ((a : A) × (r ≡ ok a))
Result-cases (ok a) = inr (a, refl)
Result-cases (err e) = inl (e, refl)

-- A step that may end the process: `none` is a panic or a fatal log.
abbrev pub and_then {ℓ κ} : {A : Type ℓ} {B : Type κ} → Option A → (A → Option B) → Option B
and_then none f = none
and_then (some a) f = f a

-- What holds of the value, if the process goes on.
abbrev pub Holds {ℓ κ} : {A : Type ℓ} → (A → Type κ) → Option A → Type κ
Holds P none = Unit
Holds P (some a) = P a

pub Holds-any {ℓ} : {A : Type ℓ} (o : Option A) → Holds (λ _. Unit {0}) o
Holds-any none = tt
Holds-any (some a) = tt

pub Holds-map {ℓ κ μ} :
    {A : Type ℓ} (P : A → Type κ) (Q : A → Type μ) (o : Option A)
    → ((a : A) → P a → Q a)
    → Holds P o
    → Holds Q o
Holds-map P Q none f h = tt
Holds-map P Q (some a) f h = f a h

pub Holds-both {ℓ κ μ} :
    {A : Type ℓ} (P : A → Type κ) (Q : A → Type μ) (o : Option A)
    → Holds P o
    → Holds Q o
    → Holds (λ a. P a × Q a) o
Holds-both P Q none h k = tt
Holds-both P Q (some a) h k = (h, k)

pub and_then-Holds {ℓ κ μ ν} :
    {A : Type ℓ} {B : Type κ} (P : A → Type μ) (Q : B → Type ν) (o : Option A) (f : A → Option B)
    → Holds P o
    → ((a : A) → P a → Holds Q (f a))
    → Holds Q (and_then o f)
and_then-Holds P Q none f h k = tt
and_then-Holds P Q (some a) f h k = k a h

pub is_some-and_then {ℓ κ μ} :
    {A : Type ℓ} {B : Type κ} (P : A → Type μ) (o : Option A) (f : A → Option B)
    → is_some o ≡ true
    → Holds P o
    → ((a : A) → P a → is_some (f a) ≡ true)
    → is_some (and_then o f) ≡ true
is_some-and_then P none f s h k = cc
is_some-and_then P (some a) f s h k = k a h
