-- ===== src/Base/Tally.antt =====
-- Sums over the values of a map, and over a list.
use Prim.Native.Nat.{ℕ, ◌+◌}
use mathlib.Core.Path.{◌≡◌, refl}
use mathlib.Core.Logic.{ite}
use mathlib.Core.Option.{none, some}
use mathlib.Core.List.{List, [], ◌∷◌, ◌++◌}
use native.Mathlib.Omega.{arith}
use rabbitmq.Base.Map
use rabbitmq.Base.Map.{Ident, Table, get-delete}

abbrev pub sum_list {ℓ} : {A : Type ℓ} → (A → ℕ) → List A → ℕ
sum_list f [] = 0
sum_list f (a ∷ bs) = f a + sum_list f bs

abbrev pub sum_values {ℓ} : {K V : Type ℓ} → (V → ℕ) → Table K V → ℕ
sum_values f [] = 0
sum_values f ((k, v) ∷ t) = f v + sum_values f t

pub sum_list-append {ℓ} :
    {A : Type ℓ} (f : A → ℕ) (xs ys : List A)
    → sum_list f (xs ++ ys) ≡ sum_list f xs + sum_list f ys
sum_list-append f [] ys = omega arith
sum_list-append f (x ∷ xs) ys = omega (arith, sum_list-append f xs ys)

module _ {ℓ} {K V : Type ℓ} ⦃i : Ident K⦄ (f : V → ℕ) where
  pub sum_values-set :
      (t : Table K V) (k : K) (v : V)
      → Map.get t k ≡ none
      → sum_values f (Map.set t k v) ≡ sum_values f t + f v
  unfolding Map.get Map.set
  sum_values-set [] k v h = omega arith
  sum_values-set ((j, w) ∷ t) k v h = ground (arith, sum_values-set t k v)

  pub sum_values-update :
      (t : Table K V) (k : K) (v w : V)
      → Map.get t k ≡ some w
      → sum_values f (Map.set t k v) + f w ≡ sum_values f t + f v
  unfolding Map.get Map.set
  sum_values-update [] k v w h = cc
  sum_values-update ((j, u) ∷ t) k v w h = ground (arith, sum_values-update t k v w)

  pub delete_absent : (t : Table K V) (k : K) → Map.get t k ≡ none → Map.delete t k ≡ t
  unfolding Map.get Map.delete
  delete_absent [] k h = refl
  delete_absent ((j, w) ∷ t) k h = ground (arith, delete_absent t k)

  pub sum_values-delete :
      (t : Table K V) (k : K) (v : V)
      → Map.IsDistinct t
      → Map.get t k ≡ some v
      → sum_values f (Map.delete t k) + f v ≡ sum_values f t
  unfolding Map.get Map.delete
  sum_values-delete [] k v d h = cc
  sum_values-delete ((j, w) ∷ t) k v d h =
      ground (arith, sum_values-delete t k v d.1, delete_absent t k)

-- Entries that stand in a map, no key twice: what a loop over a map has left.
module _ {ℓ} {K V : Type ℓ} ⦃i : Ident K⦄ where
  abbrev pub IsPart : Table K V → Table K V → Type ℓ
  IsPart [] t = Unit
  IsPart ((k, v) ∷ es) t = (Map.get t k ≡ some v) × (Map.get es k ≡ none) × IsPart es t

  pub delete-IsPart :
      (es t : Table K V) (k : K) → Map.get es k ≡ none → IsPart es t → IsPart es (Map.delete t k)
  unfolding Map.get
  delete-IsPart [] t k a h = tt
  delete-IsPart ((j, v) ∷ es) t k a h =
      let b : (Map.get es k ≡ none) × (Map.get (Map.delete t k) j ≡ some v) =
        ground (arith, get-delete t k j) in
      (b.1, h.1, delete-IsPart es t k b.0 h.2)

  cons-IsPart :
      (es t : Table K V) (k : K) (v : V)
      → Map.get es k ≡ none
      → IsPart es t
      → IsPart es ((k, v) ∷ t)
  unfolding Map.get
  cons-IsPart [] t k v a h = tt
  cons-IsPart ((j, w) ∷ es) t k v a h =
      let b : (Map.get es k ≡ none) × (ite (i.same k j) (some v) (Map.get t j) ≡ some w) =
        ground arith in
      (b.1, h.1, cons-IsPart es t k v b.0 h.2)

  pub self-IsPart : (t : Table K V) → Map.IsDistinct t → IsPart t t
  unfolding Map.get
  self-IsPart [] d = tt
  self-IsPart ((k, v) ∷ t) d =
      (Map.get_head k v t, d.0, cons-IsPart t t k v d.0 (self-IsPart t d.1))
