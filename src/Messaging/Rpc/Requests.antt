-- ===== src/Messaging/Rpc/Requests.antt =====
-- Every request is settled once.
use rabbitmq.Base.{
  ℕ, zero, suc, ◌+◌, ◌≡◌, refl, Bool, true, false, Option, none, some, ◌==◌, if◌then◌else◌, Table,
  ident_ℕ, List, [], ◌∷◌, arith, Option-cases, inl, inr,
}
use rabbitmq.Base.Map
use rabbitmq.Base.Tally.{sum_list, sum_values, sum_list-append, sum_values-set, sum_values-delete}
use rabbitmq.Messaging.Rpc.{
  Reply, Rpc, Reason, Settled, resolved, rejected, Event, ensures, setup_succeeds, setup_fails,
  requests, replies, decodes, returns, times_out, publish_fails, loses_connection, loses_channel,
  Result, init, settle_pending, reject_each, reject_all_pending, lose_connection, invalidate,
  is_channel, ensure, install, register, receive, take_reply, verdict, conclude, step, run,
  unroutable, timed_out, publish_failed,
}

module _ (call : ℕ) where
  abbrev pub is_it : ℕ → ℕ
  is_it c = if c == call then 1 else 0

  abbrev pub settlements : Settled → ℕ
  settlements (resolved c) = is_it c
  settlements (rejected c reason) = is_it c

  abbrev reply_weight : Reply → ℕ
  reply_weight r = is_it r.call

  -- A request whose id is not in use is taken up.
  abbrev pub taken_up : ℕ → Option ℕ → ℕ
  taken_up c none = is_it c
  taken_up c (some d) = 0

  -- How often the request is pending, or has its reply decoded.
  unfoldable pub open_requests : Rpc → ℕ
  open_requests s = sum_values is_it s.pending_requests + sum_list reply_weight s.decoding

  abbrev Accounts : ℕ → Result → Type 0
  Accounts n r =
      (open_requests r.0 + sum_list settlements r.1 ≡ n) × Map.IsDistinct r.0.pending_requests

  settle_pending-Accounts :
      (s : Rpc) (id : ℕ) (o : Option ℕ) (reason : Reason)
      → Map.get s.pending_requests id ≡ o
      → Map.IsDistinct s.pending_requests
      → Accounts (open_requests s) (settle_pending s id o reason)
  unfolding settle_pending open_requests
  settle_pending-Accounts s id none reason e v = (omega arith, v)
  settle_pending-Accounts s id (some c) reason e v = (
    omega (arith, sum_values-delete is_it s.pending_requests id c v e),
    Map.delete-IsDistinct s.pending_requests id v,
  )

  reject_each-sum : (t : Table ℕ ℕ) → sum_list settlements (reject_each t) ≡ sum_values is_it t
  unfolding reject_each
  reject_each-sum [] = refl
  reject_each-sum ((id, c) ∷ t) = omega (arith, reject_each-sum t)

  reject_all-Accounts : (s : Rpc) → Accounts (open_requests s) (reject_all_pending s)
  unfolding reject_all_pending open_requests
  reject_all-Accounts s = (omega (arith, reject_each-sum s.pending_requests), tt)

  choose-Accounts :
      (b : Bool) (n : ℕ) (x y : Result)
      → Accounts n x
      → Accounts n y
      → Accounts n (if b then x else y)
  choose-Accounts true n x y p q = p
  choose-Accounts false n x y p q = q

  invalidate-Accounts :
      (s : Rpc) (c : ℕ)
      → Map.IsDistinct s.pending_requests
      → Accounts (open_requests s) (invalidate s c)
  unfolding invalidate open_requests
  invalidate-Accounts s c v =
      choose-Accounts (is_channel s.reply_channel c) _
        (reject_all_pending (record s { reply_channel = none })) (s, [])
        (reject_all-Accounts (record s { reply_channel = none })) (omega arith, v)

  ensure_quiet :
      (s : Rpc) (c d : Option ℕ)
      → ((ensure s c d).pending_requests ≡ s.pending_requests)
        × ((ensure s c d).decoding ≡ s.decoding)
  unfolding ensure
  ensure_quiet s none none = (refl, refl)
  ensure_quiet s none (some d) = (refl, refl)
  ensure_quiet s (some c) d = (refl, refl)

  install_quiet :
      (s : Rpc) (d : Option ℕ) (c : ℕ)
      → ((install s d c).pending_requests ≡ s.pending_requests)
        × ((install s d c).decoding ≡ s.decoding)
  unfolding install
  install_quiet s none c = (refl, refl)
  install_quiet s (some epoch) c = ground arith

  register-Accounts :
      (s : Rpc) (id c : ℕ) (o : Option ℕ)
      → Map.get s.pending_requests id ≡ o
      → Map.IsDistinct s.pending_requests
      → Accounts (open_requests s + taken_up c o) (register s id c o, [])
  unfolding register open_requests
  register-Accounts s id c none e v = (
    omega (arith, sum_values-set is_it s.pending_requests id c e),
    Map.set-IsDistinct s.pending_requests id c v,
  )
  register-Accounts s id c (some d) e v = (omega arith, v)

  receive-Accounts :
      (s : Rpc) (id : ℕ) (is_error : Bool) (o : Option ℕ)
      → Map.get s.pending_requests id ≡ o
      → Map.IsDistinct s.pending_requests
      → Accounts (open_requests s) (receive s id is_error o, [])
  unfolding receive open_requests
  receive-Accounts s id is_error none e v = (omega arith, v)
  receive-Accounts s id is_error (some c) e v = (
    omega (arith, sum_values-delete is_it s.pending_requests id c v e),
    Map.delete-IsDistinct s.pending_requests id v,
  )

  take_reply-sum :
      (rs : List Reply) (n : ℕ) (r : Reply) (rest : List Reply)
      → take_reply rs n ≡ some (r, rest)
      → sum_list reply_weight rs ≡ is_it r.call + sum_list reply_weight rest
  unfolding take_reply
  take_reply-sum [] n r rest e = cc
  take_reply-sum (q ∷ qs) zero r rest e = ground arith
  take_reply-sum (q ∷ qs) (suc n) r rest e = elim (Option-cases (take_reply qs n)) [
    | inl o ↦ ground (arith, o)
    | inr ((t, ts), o) ↦ ground (arith, o, take_reply-sum qs n t ts o)
  ]

  verdict-settlements : (r : Reply) (ok : Bool) → settlements (verdict r ok) ≡ is_it r.call
  unfolding verdict
  verdict-settlements r false = refl
  verdict-settlements r true = ground arith

  conclude-Accounts :
      (s : Rpc) (ok : Bool) (n : ℕ) (o : Option (Reply × List Reply))
      → take_reply s.decoding n ≡ o
      → Map.IsDistinct s.pending_requests
      → Accounts (open_requests s) (conclude s ok o)
  unfolding conclude open_requests
  conclude-Accounts s ok n none e v = (omega arith, v)
  conclude-Accounts s ok n (some (r, rest)) e v =
      (omega (arith, take_reply-sum s.decoding n r rest e, verdict-settlements r ok), v)

  -- How often the request is taken up by an event, and by a history.
  unfoldable pub takes : Rpc → Event → ℕ
  takes s (requests id c) = taken_up c (Map.get s.pending_requests id)
  takes s e = 0

  unfoldable pub made : Rpc → List Event → ℕ
  made s [] = 0
  made s (e ∷ es) = takes s e + made (step s e).0 es

  step-Accounts :
      (s : Rpc) (e : Event)
      → Map.IsDistinct s.pending_requests
      → Accounts (open_requests s + takes s e) (step s e)
  unfolding step takes
  step-Accounts s ensures v =
      unfold open_requests in
      let q = ensure_quiet s s.reply_channel s.reply_setup in rw (q.0, q.1) (omega arith, v)
  step-Accounts s (setup_succeeds c) v =
      unfold open_requests in
      let q = install_quiet s s.reply_setup c in rw (q.0, q.1) (omega arith, v)
  step-Accounts s setup_fails v = unfold open_requests in (omega arith, v)
  step-Accounts s (requests id c) v =
      register-Accounts s id c (Map.get s.pending_requests id) refl v
  step-Accounts s (replies id is_error) v =
      let a = receive-Accounts s id is_error (Map.get s.pending_requests id) refl v in
      (omega (arith, a.0), a.1)
  step-Accounts s (decodes n ok) v =
      let a = conclude-Accounts s ok n (take_reply s.decoding n) refl v in (omega (arith, a.0), a.1)
  step-Accounts s (returns id) v =
      let a = settle_pending-Accounts s id (Map.get s.pending_requests id) unroutable refl v in
      (omega (arith, a.0), a.1)
  step-Accounts s (times_out id) v =
      let a = settle_pending-Accounts s id (Map.get s.pending_requests id) timed_out refl v in
      (omega (arith, a.0), a.1)
  step-Accounts s (publish_fails id) v =
      let a = settle_pending-Accounts s id (Map.get s.pending_requests id) publish_failed refl v in
      (omega (arith, a.0), a.1)
  step-Accounts s loses_connection v =
      let s' = record s { connection_epoch = s.connection_epoch + 1; reply_channel = none } in
      let a = reject_all-Accounts s' in
      unfold lose_connection open_requests in (omega (arith, a.0), a.1)
  step-Accounts s (loses_channel c) v =
      let a = invalidate-Accounts s c v in (omega (arith, a.0), a.1)

  run-Accounts :
      (es : List Event) (s : Rpc)
      → Map.IsDistinct s.pending_requests
      → Accounts (open_requests s + made s es) (run s es)
  unfolding run made
  run-Accounts [] s v = (omega arith, v)
  run-Accounts (e ∷ es) s v =
      let r = step s e in
      let a = step-Accounts s e v in
      let b = run-Accounts es r.0 a.1 in
      (omega (arith, a.0, b.0, sum_list-append settlements r.1 (run r.0 es).1), b.1)

  -- From the start, whatever replies, returns, failures, timeouts and losses come and in whatever order,
  -- each request has been settled, is pending, or has its reply decoded, as often as it was taken up.
  pub requests-are_settled_once :
      (es : List Event)
      → let r = run init es in open_requests r.0 + sum_list settlements r.1 ≡ made init es
  requests-are_settled_once es =
      let z : open_requests init ≡ 0 = unfold open_requests init in refl in
      let a = run-Accounts es init (unfold init in tt) in omega (arith, a.0, z)
