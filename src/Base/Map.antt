-- ===== src/Base/Map.antt =====
-- A JavaScript `Map`: an association list in insertion order. `set` keeps the place of a key that
-- is there. Keys are compared and nothing else, so they are any type with a decidable equality.
use Prim.Native.Nat.{ℕ}
use mathlib.Core.Path.{◌≡◌, refl}
use mathlib.Core.Logic.{ite, if_pos, if_neg, inl, inr}
use mathlib.Core.Option
use mathlib.Core.Option.{Option, none, some}
use mathlib.Core.List.{List, [], ◌∷◌}
use native.Mathlib.Decide.{ℕ_discrete}
use native.Mathlib.Omega.{arith}
use rabbitmq.Base.Tests.{Option-cases}

pub record Ident {ℓ} (K : Type ℓ) : Type ℓ where
  pub same : Discrete K

instance abbrev pub ident_ℕ : Ident ℕ
unfolding ℕ_discrete
ident_ℕ = record { same = ℕ_discrete }

abbrev pub Table {ℓ} : Type ℓ → Type ℓ → Type ℓ
Table K V = List (K × V)

abbrev pub or_else {ℓ} : {V : Type ℓ} → Option V → Option V → Option V
or_else none o = o
or_else (some v) o = some v

module _ {ℓ} {K V : Type ℓ} ⦃i : Ident K⦄ where
  unfoldable pub get : Table K V → K → Option V
  get [] k = none
  get ((j, v) ∷ t) k = ite (i.same j k) (some v) (get t k)

  unfoldable pub set : Table K V → K → V → Table K V
  set [] k v = (k, v) ∷ []
  set ((j, w) ∷ t) k v = ite (i.same j k) ((j, v) ∷ t) ((j, w) ∷ set t k v)

  unfoldable pub delete : Table K V → K → Table K V
  delete [] k = []
  delete ((j, w) ∷ t) k = ite (i.same j k) (delete t k) ((j, w) ∷ delete t k)

  pub get_head : (k : K) (v : V) (t : Table K V) → get ((k, v) ∷ t) k ≡ some v
  unfolding get
  get_head k v t = let e : k ≡ k = refl in if_pos (i.same k k) e (some v) (get t k)

  pub get-set :
      (t : Table K V) (k j : K) (v : V) → get (set t k v) j ≡ ite (i.same k j) (some v) (get t j)
  unfolding get set
  get-set [] k j v = ground arith
  get-set ((h, w) ∷ t) k j v = ground (arith, get-set t k j v)

  -- `set` where there is something to write.
  unfoldable pub store : Table K V → K → Option V → Table K V
  store t k none = t
  store t k (some v) = set t k v

  pub get-store :
      (t : Table K V) (k j : K) (o : Option V)
      → get (store t k o) j ≡ ite (i.same k j) (or_else o (get t j)) (get t j)
  unfolding store
  get-store t k j none = ground arith
  get-store t k j (some v) = get-set t k j v

  pub get-delete : (t : Table K V) (k j : K) → get (delete t k) j ≡ ite (i.same k j) none (get t j)
  unfolding get delete
  get-delete [] k j = ground arith
  get-delete ((h, w) ∷ t) k j = ground (arith, get-delete t k j)

  -- No key twice. What `set` and `delete` build is so.
  abbrev pub IsDistinct : Table K V → Type ℓ
  IsDistinct [] = Unit
  IsDistinct ((k, v) ∷ t) = (get t k ≡ none) × IsDistinct t

  pub set-IsDistinct : (t : Table K V) (k : K) (v : V) → IsDistinct t → IsDistinct (set t k v)
  unfolding get set
  set-IsDistinct [] k v d = (refl, tt)
  set-IsDistinct ((h, w) ∷ t) k v d = elim (i.same h k) [
    | yes p ↦ rw (if_pos _ p) d
    | no p ↦ rw (if_neg _ p) (ground (arith, get-set t k h v), set-IsDistinct t k v d.1)
  ]

  pub store-IsDistinct :
      (t : Table K V) (k : K) (o : Option V) → IsDistinct t → IsDistinct (store t k o)
  unfolding store
  store-IsDistinct t k none d = d
  store-IsDistinct t k (some v) d = set-IsDistinct t k v d

  pub delete-IsDistinct : (t : Table K V) (k : K) → IsDistinct t → IsDistinct (delete t k)
  unfolding get delete
  delete-IsDistinct [] k d = tt
  delete-IsDistinct ((h, w) ∷ t) k d = elim (i.same h k) [
    | yes p ↦ rw (if_pos _ p) (delete-IsDistinct t k d.1)
    | no p ↦ rw (if_neg _ p) (ground (arith, get-delete t k h), delete-IsDistinct t k d.1)
  ]

  -- `for (const [k, v] of m)` whose body changes `v` in place, or deletes `k`.
  cons_some : K → Option V → Table K V → Table K V
  cons_some k none t = t
  cons_some k (some v) t = (k, v) ∷ t

  unfoldable pub sweep : (V → Option V) → Table K V → Table K V
  unfolding cons_some
  sweep f [] = []
  sweep f ((k, v) ∷ t) = cons_some k (f v) (sweep f t)

  -- Seen by a reader of the map, a sweep acts on each key alone.
  pub get-sweep :
      (f : V → Option V) (t : Table K V) (k : K)
      → IsDistinct t
      → get (sweep f t) k ≡ Option.bind (get t k) f
  unfolding get sweep Option.bind
  get-sweep f [] k d = refl
  get-sweep f ((h, w) ∷ t) k d = ground (arith, get-sweep f t k d.1)

  pub sweep-IsDistinct : (f : V → Option V) (t : Table K V) → IsDistinct t → IsDistinct (sweep f t)
  unfolding sweep Option.bind
  sweep-IsDistinct f [] d = tt
  sweep-IsDistinct f ((h, w) ∷ t) d = elim (Option-cases (f w)) [
    | inl e ↦ rw (e, cons_some) (sweep-IsDistinct f t d.1)
    | inr (v, e) ↦
        rw (e, cons_some)
          (rw (get-sweep f t h d.1, d.0, Option.bind) refl, sweep-IsDistinct f t d.1)
  ]
