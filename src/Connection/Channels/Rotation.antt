-- ===== src/Connection/Channels/Rotation.antt =====
-- Which channel `getChannel` gives out.
use rabbitmq.Base.{
  ◌∙◌, ℕ, zero, suc, ◌+◌, ◌%◌, ◌≤◌, ◌<◌, ◌≡◌, refl, sym, ap, Option, none, some, List, [], ◌∷◌,
  length, ◌⊎◌, arith, Option-cases, inl, inr,
}
use native.Mathlib.Nat.{mod-lt, mod-add-mod, mod-eq_of_lt}
use rabbitmq.Connection.Channels.{
  ChannelPool, Attempt, Event, opens, open_fails, wakes, channel_closes, close, closes_settle, gets,
  at, put, scan, get_channel, opens_step, claim, fails_step, wakes_step, try_again,
  channel_closes_step, take, step, run, initialize,
}

-- The slot that is k turns on.
abbrev pub turn : List (Option ℕ) → ℕ → ℕ → ℕ
turn cs index k = (index + k) % length cs

turn_next :
    (cs : List (Option ℕ)) (index k : ℕ)
    → turn cs ((index + 1) % length cs) k ≡ turn cs index (suc k)
turn_next cs index k =
    mod-add-mod (index + 1) (length cs) k ∙ ap (λ (n : ℕ). n % length cs) (omega arith)

-- What a scan finds: the first live slot in the order of the turns, and none only if all are dead.
abbrev pub Finds : List (Option ℕ) → ℕ → ℕ → Option ℕ → ℕ → Type 0
Finds cs index n none after = (k : ℕ) → k < n → at cs (turn cs index k) ≡ none
Finds cs index n (some c) after =
    (k : ℕ) × (k < n)
    × (at cs (turn cs index k) ≡ some c)
    × ((j : ℕ) → j < k → at cs (turn cs index j) ≡ none)
    × (after ≡ turn cs index (suc k))

first :
    (cs : List (Option ℕ)) (index : ℕ) → index < length cs → at cs (turn cs index 0) ≡ at cs index
first cs index h = ap (at cs) (ap (λ (n : ℕ). n % length cs) (omega arith) ∙ mod-eq_of_lt h)

dead_later :
    (cs : List (Option ℕ)) (index n : ℕ)
    → at cs (turn cs index 0) ≡ none
    → ((k : ℕ) → k < n → at cs (turn cs ((index + 1) % length cs) k) ≡ none)
    → (k : ℕ) → k < suc n
    → at cs (turn cs index k) ≡ none
dead_later cs index n e h zero l = e
dead_later cs index n e h (suc k) l =
    ap (at cs) (sym (turn_next cs index k)) ∙ h k (omega (arith, l))

-- What is found after a dead slot is found one turn later.
later :
    (cs : List (Option ℕ)) (index n : ℕ) (found : Option ℕ) (after : ℕ)
    → at cs (turn cs index 0) ≡ none
    → Finds cs ((index + 1) % length cs) n found after
    → Finds cs index (suc n) found after
later cs index n none after e h = dead_later cs index n e h
later cs index n (some c) after e (k, l, a, b, f) = (
  suc k,
  omega (arith, l),
  ap (at cs) (sym (turn_next cs index k)) ∙ a,
  dead_later cs index k e b,
  f ∙ turn_next cs index (suc k),
)

scan-Finds :
    (n : ℕ) (cs : List (Option ℕ)) (index : ℕ)
    → index < length cs
    → Finds cs index n (scan n cs index).0 (scan n cs index).1
unfolding scan
scan-Finds zero cs index h = λ k l. absurd (omega arith)
scan-Finds (suc n) cs index h = elim (Option-cases (at cs index)) [
  | inl e ↦
      let next = (index + 1) % length cs in
      rw (e, scan)
        (later cs index n (scan n cs next).0 (scan n cs next).1 (first cs index h ∙ e)
          (scan-Finds n cs next (mod-lt (index + 1) (omega (arith, h)))))
  | inr (c, e) ↦
      rw (e, scan) (0, omega arith, first cs index h ∙ e, λ j l. absurd (omega arith), refl)
]

-- The index is that of a slot, or there are no slots yet.
abbrev pub InRange : ChannelPool → Type 0
InRange s = (s.index < length s.channels) ⊎ (s.index ≡ 0)

scan-InRange :
    (n : ℕ) (cs : List (Option ℕ)) (index : ℕ)
    → 0 < length cs
    → index < length cs
    → (scan n cs index).1 < length cs
unfolding scan
scan-InRange zero cs index p h = h
scan-InRange (suc n) cs index p h =
    let next = mod-lt (index + 1) p in
    elim (Option-cases (at cs index)) [
      | inl e ↦ rw (e, scan) (scan-InRange n cs ((index + 1) % length cs) p next)
      | inr (c, e) ↦ rw (e, scan) next
    ]

scan_all-InRange :
    (n : ℕ) (cs : List (Option ℕ)) (index : ℕ)
    → length cs ≡ n
    → (index < length cs) ⊎ (index ≡ 0)
    → ((scan n cs index).1 < length cs) ⊎ ((scan n cs index).1 ≡ 0)
scan_all-InRange zero cs index e h = unfold scan in h
scan_all-InRange (suc n) cs index e h =
    inl (scan-InRange (suc n) cs index (omega (arith, e)) (ground (arith, e, h)))

get_channel-InRange : (s : ChannelPool) → InRange s → InRange (get_channel s).0
unfolding get_channel
get_channel-InRange s h = scan_all-InRange (length s.channels) s.channels s.index refl h

put-length : (cs : List (Option ℕ)) (i : ℕ) (c : Option ℕ) → length cs ≤ length (put cs i c)
unfolding put
put-length [] zero c = omega arith
put-length [] (suc i) c = omega arith
put-length (d ∷ cs) zero c = omega arith
put-length (d ∷ cs) (suc i) c = omega (arith, put-length cs i c)

opens-InRange :
    (s : ChannelPool) (c : ℕ) (t : Option (Attempt × List Attempt))
    → InRange s
    → InRange (opens_step s c t)
unfolding opens_step claim
opens-InRange s c none h = h
opens-InRange s c (some (a, rest)) h = ground (arith, h, put-length s.channels a.slot (some c))

fails-InRange :
    (s : ChannelPool) (t : Option (Attempt × List Attempt)) → InRange s → InRange (fails_step s t)
unfolding fails_step
fails-InRange s none h = h
fails-InRange s (some (a, rest)) h = ground (arith, h)

wakes-InRange :
    (s : ChannelPool) (t : Option (Attempt × List Attempt)) → InRange s → InRange (wakes_step s t)
unfolding wakes_step try_again
wakes-InRange s none h = h
wakes-InRange s (some (a, rest)) h = ground (arith, h)

closes-InRange : (s : ChannelPool) (slot c : ℕ) → InRange s → InRange (channel_closes_step s slot c)
unfolding channel_closes_step try_again
closes-InRange s slot c h = ground (arith, h, put-length s.channels slot none)

run-InRange : (es : List Event) (s : ChannelPool) → InRange s → InRange (run s es)
unfolding run step
run-InRange [] s h = h
run-InRange (opens n c ∷ es) s h = run-InRange es _ (opens-InRange s c (take s.opening n) h)
run-InRange (open_fails n ∷ es) s h = run-InRange es _ (fails-InRange s (take s.opening n) h)
run-InRange (wakes n ∷ es) s h = run-InRange es _ (wakes-InRange s (take s.sleeping n) h)
run-InRange (channel_closes slot c ∷ es) s h = run-InRange es _ (closes-InRange s slot c h)
run-InRange (close ∷ es) s h = run-InRange es _ h
run-InRange (closes_settle ∷ es) s h = run-InRange es _ (ground (arith, h))
run-InRange (gets ∷ es) s h = run-InRange es _ (get_channel-InRange s h)

scan_all-Finds :
    (n : ℕ) (cs : List (Option ℕ)) (index : ℕ)
    → length cs ≡ n
    → (index < length cs) ⊎ (index ≡ 0)
    → Finds cs index n (scan n cs index).0 (scan n cs index).1
scan_all-Finds zero cs index e h = unfold scan in λ k l. absurd (omega (arith, l))
scan_all-Finds (suc n) cs index e h = scan-Finds (suc n) cs index (ground (arith, e, h))

-- In every state that the pool reaches, a call finds the first live channel in a round from the index,
-- and moves the index past it; it fails only where no channel is live.
pub get_channel-Finds :
    (size : ℕ) (es : List Event)
    → let s = run (initialize size) es in
      Finds s.channels s.index (length s.channels) (get_channel s).1 (get_channel s).0.index
unfolding initialize get_channel
get_channel-Finds size es =
    let s = run (initialize size) es in
    scan_all-Finds (length s.channels) s.channels s.index refl
      (run-InRange es (initialize size) (inr refl))
