-- ===== src/Messaging/Routable/Watched/Tokens.antt =====
-- How many tokens a registry holds.
use rabbitmq.Base.{
  ℕ, ◌+◌, ◌<◌, ◌≡◌, ◌≢◌, refl, Bool, true, false, ◌||◌, Option, none, some, ◌==◌, Table, ident_ℕ,
  List, [], ◌∷◌, length, length-append, sym, arith,
}
use mathlib.Core.Path.{subst}
use rabbitmq.Base.Map
use rabbitmq.Base.Map.{get-set, get-delete, set-IsDistinct, delete-IsDistinct}
use rabbitmq.Base.Tally.{sum_values, sum_values-set, sum_values-update, sum_values-delete}
use rabbitmq.Messaging.Routable.{
  Channel, Event, publishes, returns, confirms, Step, registry_for, watch, publish_watched, mark,
  on_return, settle, on_confirm, size, step, run,
}

-- What the registry says of a token.
abbrev pub entry_in : Option (Table ℕ Bool) → ℕ → Option Bool
entry_in none token = none
entry_in (some registry) token = Map.get registry token

-- Whether the token's message comes back in a history.
abbrev pub is_return : ℕ → Event → Bool
is_return token publishes = false
is_return token (returns t) = t == token
is_return token (confirms t ok) = false

abbrev pub was_returned : ℕ → List Event → Bool
was_returned token [] = false
was_returned token (e ∷ es) = is_return token e || was_returned token es

-- A history in which the token's publish is not confirmed.
abbrev pub NotConfirmed : ℕ → List Event → Type 0
NotConfirmed token [] = Unit
NotConfirmed token (confirms t ok ∷ es) = (t ≢ token) × NotConfirmed token es
NotConfirmed token (publishes ∷ es) = NotConfirmed token es
NotConfirmed token (returns t ∷ es) = NotConfirmed token es

-- The tokens of the registry are distinct and older than the next, and it has one listener.
abbrev pub IsFit : Option (Table ℕ Bool) → ℕ → ℕ → Type 0
IsFit none next listeners = listeners ≡ 0
IsFit (some t) next listeners =
    Map.IsDistinct t × ((k : ℕ) → Map.get t k ≢ none → k < next) × (listeners ≡ 1)

abbrev pub Inv : Channel → Type 0
Inv s = IsFit s.registry s.next_token s.listeners

-- The publishes that an event begins, and those that it settles.
abbrev pub begun : Event → ℕ
begun publishes = 1
begun _ = 0

abbrev pub all_begun : List Event → ℕ
all_begun [] = 0
all_begun (e ∷ es) = begun e + all_begun es

length-values : (t : Table ℕ Bool) → length t ≡ sum_values (λ b. 1) t
length-values [] = refl
length-values ((k, b) ∷ t) = omega (arith, length-values t)

-- An event keeps the invariant, and the size of the registry is that of the publishes in flight.
abbrev Good : Channel → Option (Table ℕ Bool) → ℕ → Step → Type 0
Good s o n r = Inv r.0 × (size r.0.registry + length r.1 ≡ size o + n)

newest-absent :
    (t : Table ℕ Bool) (n : ℕ) → ((k : ℕ) → Map.get t k ≢ none → k < n) → Map.get t n ≡ none
newest-absent t n h = by_entry (Map.get t n) refl
  where
    by_entry : (o : Option Bool) → Map.get t n ≡ o → o ≡ none
    by_entry none e = refl
    by_entry (some b) e = absurd (omega (arith, h n (λ x. ground (arith, x, e))))

publish-Good :
    (s : Channel) (o : Option (Table ℕ Bool))
    → IsFit o s.next_token s.listeners
    → Good s o 1 (watch (registry_for s o), [])
unfolding watch registry_for size Map.get Map.set
publish-Good s none v = (((refl, tt), λ k h. ground arith, omega (arith, v)), refl)
publish-Good s (some t) v =
    let a = newest-absent t s.next_token v.1 in
    let n = s.next_token in
    (
      (set-IsDistinct t n false v.0, λ k h. ground (arith, get-set t n k false, v.1 k), v.2),
      omega (
        arith,
        length-values t,
        length-values (Map.set t n false),
        sum_values-set (λ b. 1) t n false a,
      ),
    )

return-Good :
    (s : Channel) (token : ℕ) (o : Option (Table ℕ Bool))
    → s.registry ≡ o
    → IsFit o s.next_token s.listeners
    → Good s o 0 (on_return s token o, [])
unfolding on_return
return-Good s token none e v =
    (subst (λ o. IsFit o s.next_token s.listeners) (sym e) v, unfold size in rw e refl)
return-Good s token (some t) e v = by_entry (Map.get t token) refl
  where
    by_entry :
        (b : Option Bool)
        → Map.get t token ≡ b
        → Good s (some t) 0 (record s { registry = some (mark t token b) }, [])
    by_entry none h = unfold mark size in (v, omega arith)
    by_entry (some b) h =
        unfold mark size in
        (
          (
            set-IsDistinct t token true v.0,
            λ k g. ground (arith, get-set t token k true, v.1 k, h),
            v.2,
          ),
          omega (
            arith,
            length-values t,
            length-values (Map.set t token true),
            sum_values-update (λ c. 1) t token true b h,
          ),
        )

confirm-Good :
    (s : Channel) (token : ℕ) (ok : Bool) (o : Option (Table ℕ Bool))
    → s.registry ≡ o
    → IsFit o s.next_token s.listeners
    → Good s o 0 (on_confirm s token ok o)
unfolding on_confirm
confirm-Good s token ok none e v =
    (subst (λ o. IsFit o s.next_token s.listeners) (sym e) v, unfold size in rw e refl)
confirm-Good s token ok (some t) e v = by_entry (Map.get t token) refl
  where
    by_entry : (b : Option Bool) → Map.get t token ≡ b → Good s (some t) 0 (settle s t token ok b)
    by_entry none h =
        unfold settle in
        (subst (λ o. IsFit o s.next_token s.listeners) (sym e) v, unfold size in rw e (omega arith))
    by_entry (some b) h =
        unfold settle size in
        (
          (delete-IsDistinct t token v.0, λ k g. ground (arith, get-delete t token k, v.1 k), v.2),
          omega (
            arith,
            length-values t,
            length-values (Map.delete t token),
            sum_values-delete (λ c. 1) t token b v.0 h,
          ),
        )

pub step-Good : (s : Channel) (e : Event) → Inv s → Good s s.registry (begun e) (step s e)
unfolding step publish_watched
step-Good s publishes v = publish-Good s s.registry v
step-Good s (returns token) v = return-Good s token s.registry refl v
step-Good s (confirms token ok) v = confirm-Good s token ok s.registry refl v

pub run-Good : (es : List Event) (s : Channel) → Inv s → Good s s.registry (all_begun es) (run s es)
unfolding run
run-Good [] s v = (v, omega arith)
run-Good (e ∷ es) s v =
    let r = step s e in
    let a = step-Good s e v in
    let b = run-Good es r.0 a.0 in (b.0, omega (arith, a.1, b.1, length-append r.1 (run r.0 es).1))
