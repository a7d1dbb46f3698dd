-- ===== src/Consumers/Registry/Recovery.antt =====
-- How often a lost consumer is set up again.
pub mod Budget
use rabbitmq.Base.{
  ℕ, zero, suc, ◌+◌, ◌-◌, ◌≤◌, ◌≡◌, refl, Bool, true, false, not, ◌&&◌, Option, none, some, ltb,
  ◌==◌, if◌then◌else◌, Table, ident_ℕ, List, [], ◌∷◌, arith, Bool-cases, inl, inr,
}
use rabbitmq.Base.Map
use rabbitmq.Base.Map.{get-set, get-delete}
use rabbitmq.Consumers.Registry.{
  Consumer, Owner, by_subscribe, by_recreate, by_loss, Phase, opening, releasing, cancelling,
  prefetching, consuming, Setup, Stage, sleeping, setting_up, Loss, Removal, Manager, Event,
  subscribes, setup_returns, unsubscribes, cancel_returns, drained, broker_cancels, channel_closes,
  wakes, recreates_all, pool_becomes, disposes_all, pools_terminate, Step, init, register_consumer,
  run_setup, find_consumer_id_by_tag, is_number, track, begin_removal, remove,
}
use rabbitmq.Consumers.Registry.Steps.{
  lose_consumer, channel_lost, still_ours, end_loss, try_again, wake_stage, wake, max_attempts,
  give_up, attempt_failed, setup_fails, setup_succeeds, end_setup, fail, enter, opened, consumed,
  advance, setup_step, subscribe, unsubscribe_consumer, unsubscribe, cancel_step, drain_step,
  recreate_one, recreate_each, dispose, step,
}
use rabbitmq.Consumers.Registry.Recovery.Budget.{
  recreate_each_quiet, budget, Inv, begins, Spends, quiet, end-Spends, put-Spends, choose-Spends,
  lose-Spends, channel_lost-Spends, try_again-Spends, give_up-Spends,
}

module _ (n : ℕ) where
  attempt_failed-Spends :
      (s : Manager) (m : ℕ) (o : Option Loss)
      → Map.get s.losses m ≡ o
      → Inv n s
      → Spends n 0 s (attempt_failed s m o)
  unfolding attempt_failed max_attempts
  attempt_failed-Spends s m none e v = quiet n s s refl refl v
  attempt_failed-Spends s m (some l) e v = elim (Bool-cases (ltb l.attempt 3)) [
    | inl t ↦
        let k : Loss = record l { attempt = l.attempt + 1; stage = sleeping } in
        let a = put-Spends n s m 0 l k e (ground (arith, t)) (ground (arith, t)) v in
        rw t (record { within = a.0.within; fresh = a.0.fresh }, ground (arith, a.1))
    | inr t ↦ rw t (give_up-Spends n s m l v)
  ]

  setup_fails-Spends :
      (s : Manager) (id : ℕ) (o : Owner) → Inv n s → Spends n 0 s (setup_fails s id o).0
  unfolding setup_fails begin_removal
  setup_fails-Spends s id by_subscribe v = quiet n s _ refl refl v
  setup_fails-Spends s id by_recreate v = quiet n s s refl refl v
  setup_fails-Spends s id (by_loss m) v = attempt_failed-Spends s m (Map.get s.losses m) refl v

  setup_succeeds-Spends :
      (s : Manager) (id tag : ℕ) (o : Owner) → Inv n s → Spends n 0 s (setup_succeeds s id tag o).0
  unfolding setup_succeeds
  setup_succeeds-Spends s id tag by_subscribe v = quiet n s s refl refl v
  setup_succeeds-Spends s id tag by_recreate v = quiet n s s refl refl v
  setup_succeeds-Spends s id tag (by_loss m) v = end-Spends n s m v

  then-Spends :
      (b : ℕ) (s t u : Manager) → Spends n 0 s t → (Inv n t → Spends n b t u) → Spends n b s u
  then-Spends b s t u a f = let c = f a.0 in (c.0, omega (arith, a.1, c.1))

  fail-Spends : (s : Manager) (i : ℕ) (u : Setup) → Inv n s → Spends n 0 s (fail s i u).0
  unfolding fail end_setup
  fail-Spends s i u v =
      let t = record s { setups = Map.delete s.setups i } in
      then-Spends 0 s t _ (quiet n s t refl refl v) (setup_fails-Spends t u.consumer u.owner)

  opened-Spends :
      (s : Manager) (i : ℕ) (u : Setup) (c : ℕ) (o : Option Consumer)
      → Inv n s
      → Spends n 0 s (opened s i u c o).0
  unfolding opened enter
  opened-Spends s i u c none v = quiet n s _ refl refl v
  opened-Spends s i u c (some q) v =
      choose-Spends n q.cancelled 0 s _ _ (fail-Spends s i u v)
        (choose-Spends n q.no_ack 0 s _ _ (quiet n s _ refl refl v) (quiet n s _ refl refl v))

  consumed-Spends :
      (s : Manager) (i : ℕ) (u : Setup) (c : ℕ) (o : Option Consumer)
      → Inv n s
      → Spends n 0 s (consumed s i u c o).0
  unfolding consumed enter end_setup track
  consumed-Spends s i u c none v = quiet n s _ refl refl v
  consumed-Spends s i u c (some q) v =
      choose-Spends n q.cancelled 0 s _ _ (quiet n s _ refl refl v) (
        let t = (track (end_setup s i) u.consumer q c).0 in
        then-Spends 0 s t _ (quiet n s t refl refl v)
          (setup_succeeds-Spends t u.consumer s.next_tag u.owner))

  advance-Spends :
      (s : Manager) (i : ℕ) (u : Setup) (f : Phase) (o : Option ℕ)
      → Inv n s
      → Spends n 0 s (advance s i u f o).0
  unfolding advance enter
  advance-Spends s i u opening none v = fail-Spends s i u v
  advance-Spends s i u opening (some c) v =
      opened-Spends s i u c (Map.get s.active_consumers u.consumer) v
  advance-Spends s i u releasing o v = fail-Spends s i u v
  advance-Spends s i u (prefetching c) none v = fail-Spends s i u v
  advance-Spends s i u (prefetching c) (some k) v = quiet n s _ refl refl v
  advance-Spends s i u (consuming c) none v = fail-Spends s i u v
  advance-Spends s i u (consuming c) (some k) v =
      consumed-Spends s i u c (Map.get s.active_consumers u.consumer) v
  advance-Spends s i u cancelling o v = fail-Spends s i u v

  setup_step-Spends :
      (s : Manager) (i : ℕ) (o : Option ℕ) (u : Option Setup)
      → Inv n s
      → Spends n 0 s (setup_step s i o u).0
  unfolding setup_step
  setup_step-Spends s i o none v = quiet n s s refl refl v
  setup_step-Spends s i o (some u) v = advance-Spends s i u u.phase o v

  wake-Spends :
      (s : Manager) (m : ℕ) (o : Option Loss)
      → Map.get s.losses m ≡ o
      → Inv n s
      → Spends n (if m == n then (wake s m o).next_setup - s.next_setup else 0) s (wake s m o)
  unfolding wake
  wake-Spends s m none e v = let a = quiet n s s refl refl v in (v, ground arith)
  wake-Spends s m (some l) e v = by_stage l.stage refl
    where
      by_stage :
          (g : Stage)
          → l.stage ≡ g
          → Spends n
              (if m == n then (wake_stage s m l g).next_setup - s.next_setup else 0)
              s
              (wake_stage s m l g)
      by_stage sleeping h =
          unfold wake_stage in
          try_again-Spends n s m l (Map.get s.active_consumers l.consumer) e h v
      by_stage setting_up h = unfold wake_stage in (v, ground arith)

  subscribe-Spends :
      (s : Manager) (queue : ℕ) (no_ack : Bool) → Inv n s → Spends n 0 s (subscribe s queue no_ack)
  unfolding subscribe register_consumer run_setup
  subscribe-Spends s queue no_ack v = quiet n s _ refl refl v

  unsubscribe-Spends : (s : Manager) (o : Option ℕ) → Inv n s → Spends n 0 s (unsubscribe s o).0
  unfolding unsubscribe
  unsubscribe-Spends s none v = quiet n s s refl refl v
  unsubscribe-Spends s (some id) v = by_consumer (Map.get s.active_consumers id)
    where
      by_consumer : (o : Option Consumer) → Spends n 0 s (unsubscribe_consumer s id o).0
      by_consumer none = unfold unsubscribe_consumer in quiet n s s refl refl v
      by_consumer (some q) = unfold unsubscribe_consumer begin_removal in quiet n s _ refl refl v

  cancel-Spends :
      (s : Manager) (d : ℕ) (o : Option Removal) → Inv n s → Spends n 0 s (cancel_step s d o)
  unfolding cancel_step
  cancel-Spends s d none v = quiet n s s refl refl v
  cancel-Spends s d (some m) v = quiet n s _ refl refl v

  drain-Spends :
      (s : Manager) (d : ℕ) (o : Option Removal) → Inv n s → Spends n 0 s (drain_step s d o).0
  unfolding drain_step remove
  drain-Spends s d none v = quiet n s s refl refl v
  drain-Spends s d (some m) v =
      choose-Spends n m.is_cancelling 0 s _ _ (quiet n s s refl refl v) (quiet n s _ refl refl v)

  dispose-Spends : (s : Manager) (k : ℕ) → Inv n s → Spends n 0 s (dispose s k)
  unfolding dispose
  dispose-Spends s zero v = quiet n s s refl refl v
  dispose-Spends s (suc k) v = quiet n s _ refl refl v

  step-Spends : (s : Manager) (e : Event) → Inv n s → Spends n (begins n s e) s (step s e).0
  unfolding step
  step-Spends s (subscribes queue no_ack) v = subscribe-Spends s queue no_ack v
  step-Spends s (setup_returns i o) v = setup_step-Spends s i o (Map.get s.setups i) v
  step-Spends s (unsubscribes tag) v = unsubscribe-Spends s (find_consumer_id_by_tag s tag) v
  step-Spends s (cancel_returns d) v = cancel-Spends s d (Map.get s.removals d) v
  step-Spends s (drained d) v = drain-Spends s d (Map.get s.removals d) v
  step-Spends s (broker_cancels id) v = lose-Spends n s id (Map.get s.active_consumers id) v
  step-Spends s (channel_closes id c) v =
      channel_lost-Spends n s id c s.channel_pool (Map.get s.active_consumers id) v
  step-Spends s (wakes m) v = wake-Spends s m (Map.get s.losses m) refl v
  step-Spends s recreates_all v =
      let a = recreate_each_quiet s.active_consumers s in quiet n s _ a.0 a.1 v
  step-Spends s (pool_becomes o) v = quiet n s _ refl refl v
  step-Spends s disposes_all v = quiet n s _ refl refl v
  step-Spends s pools_terminate v = dispose-Spends s s.disposing v

  -- The set-ups that the recovery begins over a history.
  abbrev pub begun : Manager → List Event → ℕ
  begun s [] = 0
  begun s (e ∷ es) = begins n s e + begun (step s e).0 es

  run-begun : (es : List Event) (s : Manager) → Inv n s → begun s es ≤ budget n s
  run-begun [] s v = omega arith
  run-begun (e ∷ es) s v =
      let a = step-Spends s e v in omega (arith, a.1, run-begun es (step s e).0 a.0)

-- Whatever happens from the constructor on, in whatever order, one run of handleConsumerLoss begins
-- three set-ups at most.
pub recovery-le-max_attempts : (n : ℕ) (es : List Event) → begun n init es ≤ max_attempts
unfolding max_attempts
recovery-le-max_attempts n es =
    let v : Inv n init =
      unfold init Map.get in record { within = λ m l h. cc; fresh = λ h. refl } in
    let a = run-begun n es init v in
    let b : budget n init ≡ 3 = unfold init Map.get in ground arith in omega (arith, a, b)
