-- ===== src/Base/Maps.antt =====
-- Go's maps as association lists. `len` is `length`; the order of a list stands for one order in
-- which `range` may visit the map, so what holds for every list holds for every order.
use Prim.Native.Nat.{◌≤◌}
use mathlib.Core.Path.{◌≡◌, refl}
use mathlib.Core.Logic.{◌≢◌, inl, inr}
use mathlib.Core.Option.{Option, none, some}
use mathlib.Core.List.{List, [], ◌∷◌}
use native.Mathlib.Omega.{arith}
use distribute_pki.Base.Tests.{Eq, if◌then◌else◌, Bool-cases}
use distribute_pki.Base.Lists.{length, All}

abbrev pub Map {ℓ κ} : Type ℓ → Type κ → Type (ℓ ⊔ κ)
Map K V = List (K × V)

module _ {ℓ κ} {K : Type ℓ} {V : Type κ} ⦃e : Eq K⦄ where
  -- v, ok := m[k]
  unfoldable pub get : K → Map K V → Option V
  get k [] = none
  get k ((j, v) ∷ m) = if e.beq j k then some v else get k m

  -- m[k] = v
  unfoldable pub put : K → V → Map K V → Map K V
  put k v [] = (k, v) ∷ []
  put k v ((j, w) ∷ m) = if e.beq j k then (j, v) ∷ m else (j, w) ∷ put k v m

  -- delete(m, k)
  unfoldable pub remove : K → Map K V → Map K V
  remove k [] = []
  remove k ((j, w) ∷ m) = let rest = remove k m in if e.beq j k then rest else (j, w) ∷ rest

  pub get-put :
      (k j : K) (v : V) (m : Map K V) → get j (put k v m) ≡ (if e.beq k j then some v else get j m)
  unfolding get put
  get-put k j v [] = refl
  get-put k j v ((i, w) ∷ m) =
      ground (arith, get-put k j v m, e.beq_iff i k, e.beq_iff i j, e.beq_iff k j)

  pub get-put_self : (k : K) (v : V) (m : Map K V) → get k (put k v m) ≡ some v
  get-put_self k v m = ground (arith, get-put k k v m, e.beq_iff k k)

  pub get-put_ne : (k j : K) (v : V) (m : Map K V) → k ≢ j → get j (put k v m) ≡ get j m
  get-put_ne k j v m h = ground (arith, get-put k j v m, e.beq_iff k j)

  pub get-remove :
      (k j : K) (m : Map K V) → get j (remove k m) ≡ (if e.beq k j then none else get j m)
  unfolding get remove
  get-remove k j [] = ground arith
  get-remove k j ((i, w) ∷ m) =
      ground (arith, get-remove k j m, e.beq_iff i k, e.beq_iff i j, e.beq_iff k j)

  -- An entry satisfies what all entries do.
  pub get-All {μ} :
      (P : K × V → Type μ) (k : K) (m : Map K V) {v : V} → All P m → get k m ≡ some v → P (k, v)
  unfolding get
  get-All P k [] h g = cc
  get-All P k ((j, w) ∷ m) h g = elim (Bool-cases (e.beq j k)) [
    | inl hit ↦ ground (arith, (e.beq_iff j k).0 hit)
    | inr miss ↦ get-All P k m h.1 (ground arith)
  ]

  pub All-put {μ} :
      (P : K × V → Type μ) (k : K) (v : V) (m : Map K V) → P (k, v) → All P m → All P (put k v m)
  unfolding put
  All-put P k v [] p h = (p, tt)
  All-put P k v ((j, w) ∷ m) p h = ground (arith, e.beq_iff j k, All-put P k v m p h.1)

  pub All-remove {μ} : (P : K × V → Type μ) (k : K) (m : Map K V) → All P m → All P (remove k m)
  unfolding remove
  All-remove P k [] h = tt
  All-remove P k ((j, w) ∷ m) h = ground (arith, All-remove P k m h.1)

  -- No key stands twice, so that `length` counts keys.
  abbrev pub Distinct : Map K V → Type κ
  Distinct [] = Unit
  Distinct ((k, v) ∷ m) = (get k m ≡ none) × Distinct m

  pub put-Distinct : (k : K) (v : V) (m : Map K V) → Distinct m → Distinct (put k v m)
  unfolding get put
  put-Distinct k v [] d = (refl, tt)
  put-Distinct k v ((j, w) ∷ m) d =
      ground (arith, put-Distinct k v m d.1, get-put k j v m, e.beq_iff k j, e.beq_iff j k)

  pub length-put-le : (k : K) (v : V) (m : Map K V) → length m ≤ length (put k v m)
  unfolding put
  length-put-le k v [] = omega arith
  length-put-le k v ((j, w) ∷ m) = ground (arith, length-put-le k v m)
