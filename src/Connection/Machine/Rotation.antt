-- ===== src/Connection/Machine/Rotation.antt =====
-- The order in which the endpoints are dialled.
use rabbitmq.Base.{
  ◌∙◌, ℕ, zero, suc, ◌+◌, ◌%◌, ◌<◌, ◌≡◌, refl, ap, false, none, some, List, [], ◌∷◌, ◌++◌, length,
  get_elem?, arith,
}
use native.Mathlib.Nat.{mod-lt, mod-add-mod, mod-eq_of_lt, add-mod_right}
use rabbitmq.Connection.Machine.{
  connecting, connected, Connection, Event, dial_succeeds, dial_fails, step, run, connected_to,
  state_changed, start_reconnection, dial_event, dial_fails_step, dial_succeeds_step, dialing,
  reconnected_events, give_up,
}

abbrev pub fails : ℕ → List Event
fails zero = []
fails (suc k) = dial_fails ∷ fails k

-- After k more failures of the loop.
abbrev pub turned : Connection → ℕ → ℕ → Connection
turned s a k = record s {
  current_endpoint_index = (s.current_endpoint_index + k) % length s.endpoints;
  connect_promise = some (dialing (a + k));
}

one_turn :
    (s : Connection) (a : ℕ)
    → s.connect_promise ≡ some (dialing a)
    → a + 1 < length s.endpoints
    → (step s dial_fails).0 ≡ turned s a 1
unfolding step
one_turn s a p h = unfold dial_event dial_fails_step in ground arith

turned_twice : (s : Connection) (a k : ℕ) → turned (turned s a 1) (a + 1) k ≡ turned s a (suc k)
turned_twice s a k =
    ground (arith, mod-add-mod (s.current_endpoint_index + 1) (length s.endpoints) k)

not_turned :
    (s : Connection) (a : ℕ)
    → s.connect_promise ≡ some (dialing a)
    → s.current_endpoint_index < length s.endpoints
    → s ≡ turned s a 0
not_turned s a p r = ground (arith, mod-eq_of_lt r)

-- A loop of failures visits the endpoints in their order, round from the current one.
fails_turn :
    (k : ℕ) (s : Connection) (a : ℕ)
    → s.connect_promise ≡ some (dialing a)
    → s.current_endpoint_index < length s.endpoints
    → a + k < length s.endpoints
    → run s (fails k) ≡ turned s a k
unfolding run
fails_turn zero s a p r h = not_turned s a p r
fails_turn (suc k) s a p r h =
    ap (λ (t : Connection). run t (fails k)) (one_turn s a p (omega arith))
    ∙ fails_turn k (turned s a 1) (a + 1) refl (mod-lt (s.current_endpoint_index + 1) (omega arith))
        (omega arith)
    ∙ turned_twice s a k

-- A dial of a running attempt that succeeds after k failures announces the k-th endpoint after the
-- current one, and the connection is in place.
pub run-fails-announces :
    (s : Connection) (k c : ℕ)
    → s.connect_promise ≡ some (dialing 0)
    → s.connection_state ≡ connecting
    → s.is_shutting_down ≡ false
    → s.current_endpoint_index < length s.endpoints
    → k < length s.endpoints
    → let t = run s (fails k) in
      ((step t (dial_succeeds c)).0.connection ≡ some c)
      × ((step t (dial_succeeds c)).0.connection_state ≡ connected)
      × ((step t (dial_succeeds c)).0.reconnect_attempt ≡ 0)
      × ((step t (dial_succeeds c)).1
          ≡ state_changed connected
            ∷ connected_to
                (get_elem? s.endpoints ((s.current_endpoint_index + k) % length s.endpoints))
            ∷ reconnected_events s.timer_waiters)
run-fails-announces s k c p d q r h =
    rw (fails_turn k s 0 p r (omega arith))
      (unfold step dial_event dial_succeeds_step in ground arith)

run_snoc :
    (es : List Event) (s : Connection) (e : Event) → run s (es ++ (e ∷ [])) ≡ (step (run s es) e).0
unfolding run
run_snoc [] s e = refl
run_snoc (d ∷ es) s e = run_snoc es (step s d).0 e

fails_snoc : (k : ℕ) → fails (suc k) ≡ fails k ++ (dial_fails ∷ [])
fails_snoc zero = refl
fails_snoc (suc k) = ap (λ (es : List Event). dial_fails ∷ es) (fails_snoc k)

last_fail :
    (t : Connection) (a : ℕ)
    → t.connect_promise ≡ some (dialing a)
    → a + 1 ≡ length t.endpoints
    → ((step t dial_fails).0.current_endpoint_index
        ≡ (t.current_endpoint_index + 1) % length t.endpoints)
      × ((step t dial_fails).0.connect_promise ≡ none)
      × ((step t dial_fails).0.connection ≡ none)
unfolding step
last_fail t a p h = unfold dial_event dial_fails_step give_up start_reconnection in ground arith

-- An attempt in which every endpoint fails ends with no connection, with no dial in flight, and at the
-- endpoint where it began: the next attempt starts there again.
pub run-fails-returns :
    (s : Connection) (m : ℕ)
    → s.connect_promise ≡ some (dialing 0)
    → s.current_endpoint_index < length s.endpoints
    → length s.endpoints ≡ suc m
    → let t = run s (fails (length s.endpoints)) in
      (t.current_endpoint_index ≡ s.current_endpoint_index)
      × (t.connect_promise ≡ none)
      × (t.connection ≡ none)
run-fails-returns s m p r h =
    let n = length s.endpoints in
    let c = s.current_endpoint_index in
    let e : run s (fails n) ≡ (step (turned s 0 m) dial_fails).0 =
      ap (λ (k : ℕ). run s (fails k)) h
      ∙ ap (λ (es : List Event). run s es) (fails_snoc m)
      ∙ run_snoc (fails m) s dial_fails
      ∙ ap (λ (t : Connection). (step t dial_fails).0) (fails_turn m s 0 p r (omega (arith, h))) in
    let back : ((c + m) % n + 1) % n ≡ c =
      mod-add-mod (c + m) n 1
      ∙ ap (λ (k : ℕ). k % n) (omega (arith, h))
      ∙ add-mod_right c n
      ∙ mod-eq_of_lt r in
    let l = last_fail (turned s 0 m) (0 + m) refl (omega (arith, h)) in
    (
      ap (λ (t : Connection). t.current_endpoint_index) e ∙ l.0 ∙ back,
      ap (λ (t : Connection). t.connect_promise) e ∙ l.1,
      ap (λ (t : Connection). t.connection) e ∙ l.2,
    )
