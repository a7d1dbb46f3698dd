-- ===== src/Messaging/Batch/Confirms.antt =====
-- Which messages of a batch go out, and how often.
use rabbitmq.Base.{
  ◌∙◌, ℕ, zero, suc, ◌+◌, ◌≤◌, ◌<◌, ◌≡◌, refl, sym, ap, Bool, true, false, ◌&&◌, ◌||◌, not, Option,
  none, some, ltb, leb, ◌==◌, if◌then◌else◌, List, [], ◌∷◌, ◌++◌, arith, Bool-cases, inl, inr,
}
use mathlib.Core.Option.{some-injective}
use rabbitmq.Base.Tally.{sum_list, sum_list-append}
use rabbitmq.Messaging.Batch.{
  keys_from, settle, all_confirmed, Attempted, batch_operation, try_batch, attempts_of,
  publish_batch, Try, circuit_open, no_channel, not_encoded, sends, refused, is_open,
}

abbrev pub same : ℕ → ℕ → ℕ
same i j = if j == i then 1 else 0

-- How often an index is in a list.
abbrev pub times : ℕ → List ℕ → ℕ
times i is = sum_list (same i) is

-- Whether an attempt comes to publishing, and whether it confirms a message.
abbrev pub goes_out : Try → ℕ
goes_out (sends confirms) = 1
goes_out _ = 0

abbrev pub confirms_in : Try → ℕ → Bool
confirms_in (sends confirms) i = confirms i
confirms_in _ i = false

-- How often a message is published: once in each attempt that comes to publishing, up to the first that
-- confirms it, and none after an open circuit.
unfoldable pub sendings : (ℕ → Try) → ℕ → ℕ → ℕ → ℕ
sendings tries i a zero = 0
sendings tries i a (suc n) =
    goes_out (tries a)
    + (if confirms_in (tries a) i || is_open (tries a) then 0 else sendings tries i (a + 1) n)

unfoldable pub is_confirmed : (ℕ → Try) → ℕ → ℕ → ℕ → Bool
is_confirmed tries i a zero = false
is_confirmed tries i a (suc n) =
    confirms_in (tries a) i || (not (is_open (tries a)) && is_confirmed tries i (a + 1) n)

times-settle :
    (confirms : ℕ → Bool) (i : ℕ) (is : List ℕ)
    → times i (settle confirms is) ≡ (if confirms i then 0 else times i is)
unfolding settle
times-settle confirms i [] = ground arith
times-settle confirms i (j ∷ is) = ground (arith, times-settle confirms i is)

all_confirmed-times :
    (confirms : ℕ → Bool) (i : ℕ) (is : List ℕ)
    → all_confirmed confirms is ≡ true
    → 0 < times i is
    → confirms i ≡ true
unfolding all_confirmed
all_confirmed-times confirms i [] e h = absurd (omega (arith, h))
all_confirmed-times confirms i (j ∷ is) e h =
    ground (arith, e, h, all_confirmed-times confirms i is)

choose :
    (P : Attempted → Type 0) (b : Bool) (x y : Attempted)
    → (b ≡ true → P x)
    → (b ≡ false → P y)
    → P (if b then x else y)
choose P true x y p q = p refl
choose P false x y p q = q refl

-- An attempt, for a message that is there once, and for one that is not there.
batch_operation-once :
    (t : Try) (i : ℕ) (is : List ℕ)
    → times i is ≡ 1
    → let r = batch_operation t is in
      (times i r.published ≡ goes_out t)
      × (times i r.unconfirmed ≡ (if confirms_in t i then 0 else 1))
      × (r.resolves ≡ true → confirms_in t i ≡ true)
unfolding batch_operation refused
batch_operation-once circuit_open i is h = (refl, h, λ e. cc)
batch_operation-once no_channel i is h = (refl, h, λ e. cc)
batch_operation-once not_encoded i is h = (refl, h, λ e. cc)
batch_operation-once (sends confirms) i is h = (
  h,
  ground (arith, times-settle confirms i is, h),
  λ e. all_confirmed-times confirms i is e (omega (arith, h)),
)

batch_operation-never :
    (t : Try) (i : ℕ) (is : List ℕ)
    → times i is ≡ 0
    → let r = batch_operation t is in (times i r.published ≡ 0) × (times i r.unconfirmed ≡ 0)
unfolding batch_operation refused
batch_operation-never circuit_open i is h = (refl, h)
batch_operation-never no_channel i is h = (refl, h)
batch_operation-never not_encoded i is h = (refl, h)
batch_operation-never (sends confirms) i is h = (h, ground (arith, times-settle confirms i is, h))

-- A message that has been confirmed is not published again.
try_batch-skips :
    (tries : ℕ → Try) (i n a : ℕ) (is : List ℕ)
    → times i is ≡ 0
    → times i (try_batch tries a n is).published ≡ 0
unfolding try_batch refused
try_batch-skips tries i zero a is h = refl
try_batch-skips tries i (suc n) a is h =
    let t = batch_operation (tries a) is in
    let rest = try_batch tries (a + 1) n t.unconfirmed in
    let b = batch_operation-never (tries a) i is h in
    choose (λ r. times i r.published ≡ 0) (t.resolves || is_open (tries a)) t
      (record rest { published = t.published ++ rest.published }) (λ _. b.0)
      (λ _. omega (
        arith,
        sum_list-append (same i) t.published rest.published,
        try_batch-skips tries i n (a + 1) t.unconfirmed b.1,
        b.0,
      ))

-- What a batch does for one message.
Serves : (ℕ → Try) → ℕ → ℕ → ℕ → Attempted → Type 0
Serves tries a n i r =
    (times i r.published ≡ sendings tries i a n)
    × (r.resolves ≡ true → is_confirmed tries i a n ≡ true)

try_batch-Serves :
    (tries : ℕ → Try) (i n a : ℕ) (is : List ℕ)
    → times i is ≡ 1
    → Serves tries a n i (try_batch tries a n is)
unfolding try_batch sendings is_confirmed Serves refused
try_batch-Serves tries i zero a is h = (refl, λ e. cc)
try_batch-Serves tries i (suc n) a is h =
    let t = batch_operation (tries a) is in
    let rest = try_batch tries (a + 1) n t.unconfirmed in
    let b = batch_operation-once (tries a) i is h in
    let p = sum_list-append (same i) t.published rest.published in
    choose (Serves tries a (suc n) i) (t.resolves || is_open (tries a)) t
      (record rest { published = t.published ++ rest.published }) (λ e. last (tries a) t e b.0 b.2)
      (elim (Bool-cases (confirms_in (tries a) i)) [
        | inl c ↦ λ e. ground (
          arith,
          e,
          c,
          b.0,
          p,
          try_batch-skips tries i n (a + 1) t.unconfirmed (ground (arith, b.1, c)),
        )
        | inr c ↦
            let z = try_batch-Serves tries i n (a + 1) t.unconfirmed (ground (arith, b.1, c)) in
            λ e. (ground (arith, e, c, b.0, p, z.0), λ f. ground (arith, e, c, z.1 f))
      ])
  where
    last :
        (k : Try) (t : Attempted)
        → (t.resolves || is_open k) ≡ true
        → times i t.published ≡ goes_out k
        → (t.resolves ≡ true → confirms_in k i ≡ true)
        → (times i t.published
            ≡ goes_out k + (if confirms_in k i || is_open k then 0 else sendings tries i (a + 1) n))
          × (t.resolves ≡ true
              → (confirms_in k i || (not (is_open k) && is_confirmed tries i (a + 1) n)) ≡ true)
    last k t e u v = (ground (arith, e, u, v), λ f. ground (arith, v f))

keys_from-times :
    (n a i : ℕ) → times i (keys_from a n) ≡ (if leb a i && ltb i (a + n) then 1 else 0)
unfolding keys_from
keys_from-times zero a i = ground arith
keys_from-times (suc n) a i = ground (arith, keys_from-times n (a + 1) i)

sendings-goes : (t : ℕ → Try) (i a n : ℕ) → 1 ≤ n → goes_out (t a) ≤ sendings t i a n
unfolding sendings
sendings-goes t i a zero h = absurd (omega (arith, h))
sendings-goes t i a (suc n) h = omega arith

attempts_positive : (o : Option ℕ) → 1 ≤ attempts_of o
unfolding attempts_of
attempts_positive none = omega arith
attempts_positive (some n) = omega arith

-- Each message of a batch is published once in each attempt that comes to publishing (the breaker lets
-- it through, there is a channel, and the messages are encoded), up to the first that confirms it, and
-- not after that or after an open circuit; the first attempt is made whatever `maxRetries` is; and if
-- the batch resolves, every message of it has been confirmed.
pub publish_batch-Serves :
    (tries : ℕ → Try) (n : ℕ) (max_retries : Option ℕ) (r : Attempted) (i : ℕ)
    → publish_batch tries n max_retries ≡ some r
    → i < n
    → (times i r.published ≡ sendings tries i 0 (attempts_of max_retries))
      × (goes_out (tries 0) ≤ times i r.published)
      × (r.resolves ≡ true → is_confirmed tries i 0 (attempts_of max_retries) ≡ true)
unfolding publish_batch Serves
publish_batch-Serves tries zero max_retries r i e h = absurd (omega (arith, h))
publish_batch-Serves tries (suc n) max_retries r i e h =
    let is = keys_from 0 (suc n) in
    let k = keys_from-times (suc n) 0 i in
    let s = try_batch-Serves tries i (attempts_of max_retries) 0 is (ground (arith, k, h)) in
    let p = sendings-goes tries i 0 (attempts_of max_retries) (attempts_positive max_retries) in
    let q : try_batch tries 0 (attempts_of max_retries) is ≡ r = some-injective _ _ e in
    (
      sym (ap (λ (t : Attempted). times i t.published) q) ∙ s.0,
      omega (arith, p, s.0, ap (λ (t : Attempted). times i t.published) q),
      λ f. s.1 (ap (λ (t : Attempted). t.resolves) q ∙ f),
    )
