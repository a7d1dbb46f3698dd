-- ===== src/Messaging/Topology/Declared.antt =====
-- Whose channel a probe uses.
use rabbitmq.Base.{
  ℕ, ◌+◌, ◌≤◌, ◌≡◌, ◌≢◌, refl, Bool, false, ◌||◌, ◌==◌, Option, none, some, if◌then◌else◌, ident_ℕ,
  List, [], ◌∷◌, arith,
}
use rabbitmq.Base.Map
use rabbitmq.Base.Map.{get-set, get-delete}
use rabbitmq.Messaging.Topology.{
  Probes, Tried, Event, probes, closes, returns, found, probe_channel, lose_channel, end_probe,
  step, run,
}

-- A history in which the probe does not come back.
abbrev pub NoReturn : ℕ → List Event → Type 0
NoReturn id [] = Unit
NoReturn id (probes channel ∷ es) = NoReturn id es
NoReturn id (closes j ∷ es) = NoReturn id es
NoReturn id (returns j tried ∷ es) = (j ≢ id) × NoReturn id es

-- Whether its channel closes in it.
abbrev pub is_closed : ℕ → List Event → Bool
is_closed id [] = false
is_closed id (probes channel ∷ es) = is_closed id es
is_closed id (closes j ∷ es) = (j == id) || is_closed id es
is_closed id (returns j tried ∷ es) = is_closed id es

abbrev in_flight : ℕ → Probes → Option ℕ
in_flight id s = Map.get s.in_flight id

abbrev channel_of : ℕ → Probes → Option ℕ
channel_of id s = Map.get s.dedicated id

end-others :
    (s : Probes) (j id : ℕ) (tried : Tried) (o : Option ℕ)
    → j ≢ id
    → let t = (end_probe s j tried o).0 in
      (channel_of id t ≡ channel_of id s)
      × (in_flight id t ≡ in_flight id s)
      × (t.probe_sequence ≡ s.probe_sequence)
unfolding end_probe
end-others s j id tried none n = (refl, refl, refl)
end-others s j id tried (some channel) n = (
  ground (arith, n, get-delete s.dedicated j id),
  ground (arith, n, get-delete s.in_flight j id),
  refl,
)

-- The channel of a probe is its own; only its own close, or its own return, takes it away.
abbrev Keeps : ℕ → List Event → Probes → Probes → Type 0
Keeps id es s t =
    (in_flight id t ≡ in_flight id s)
    × (channel_of id t ≡ (if is_closed id es then none else channel_of id s))

run-Keeps :
    (es : List Event) (s : Probes) (id : ℕ)
    → id ≤ s.probe_sequence
    → NoReturn id es
    → Keeps id es s (run s es).0
unfolding run
run-Keeps [] s id h n = (refl, refl)
run-Keeps (probes channel ∷ es) s id h n =
    let t = probe_channel s channel in
    let a : (id ≤ t.probe_sequence)
        × (channel_of id t ≡ channel_of id s)
        × (in_flight id t ≡ in_flight id s) =
      unfold probe_channel in
      (
        omega (arith, h),
        ground (arith, h, get-set s.dedicated (s.probe_sequence + 1) id channel),
        ground (arith, h, get-set s.in_flight (s.probe_sequence + 1) id channel),
      ) in
    let b = run-Keeps es t id a.0 n in
    unfold step in (ground (arith, b.0, a.2), ground (arith, b.1, a.1))
run-Keeps (closes j ∷ es) s id h n =
    let t = lose_channel s j in
    let b = run-Keeps es t id (unfold lose_channel in h) n in
    unfold step lose_channel in (b.0, ground (arith, b.1, get-delete s.dedicated j id))
run-Keeps (returns j tried ∷ es) s id h n =
    let a = end-others s j id tried (Map.get s.in_flight j) n.0 in
    let t = (end_probe s j tried (Map.get s.in_flight j)).0 in
    let b = run-Keeps es t id (omega (arith, h, a.2)) n.1 in
    unfold step in (ground (arith, b.0, a.1), ground (arith, b.1, a.0))

-- However many probes for the delay plugin overlap, and however they end: until a probe itself comes
-- back, the pool keeps its channel exactly as long as that channel does not close, whatever becomes of
-- the others; and when it comes back it answers by what became of its own exchange, also where its
-- channel has closed, and leaves no channel behind.
pub probe-keeps_channel :
    (s : Probes) (channel : ℕ) (es : List Event) (tried : Tried)
    → NoReturn (s.probe_sequence + 1) es
    → let id = s.probe_sequence + 1 in
      let t = (run (step s (probes channel)).0 es).0 in
      (Map.get t.dedicated id ≡ (if is_closed id es then none else some channel))
      × ((step t (returns id tried)).1 ≡ found tried ∷ [])
      × (Map.get (step t (returns id tried)).0.dedicated id ≡ none)
unfolding step probe_channel
probe-keeps_channel s channel es tried n =
    let id = s.probe_sequence + 1 in
    let p = probe_channel s channel in
    let t = (run p es).0 in
    let k = run-Keeps es p id (unfold probe_channel in omega arith) n in
    let b : Map.get t.in_flight id ≡ some channel =
      unfold probe_channel in ground (arith, k.0, get-set s.in_flight id id channel) in
    let a : Map.get t.dedicated id ≡ (if is_closed id es then none else some channel) =
      unfold probe_channel in ground (arith, k.1, get-set s.dedicated id id channel) in
    let e = ended t id tried channel b in (a, e.0, e.1)
  where
    ended :
        (t : Probes) (id : ℕ) (tried : Tried) (channel : ℕ)
        → Map.get t.in_flight id ≡ some channel
        → ((end_probe t id tried (Map.get t.in_flight id)).1 ≡ found tried ∷ [])
          × (Map.get (end_probe t id tried (Map.get t.in_flight id)).0.dedicated id ≡ none)
    ended t id tried channel a = unfold end_probe in ground (arith, a, get-delete t.dedicated id id)
