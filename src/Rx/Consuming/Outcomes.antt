-- ===== src/Rx/Consuming/Outcomes.antt =====
-- terminals.rs and subscribe.rs: what each consumer makes of a stream.
use ice_rpc.Common.{
  ◌≡◌, refl, ap, ◌∙◌, ℕ, zero, suc, ◌<◌, Bool, true, false, some, List, [], ◌∷◌, ◌++◌, map,
  append_assoc, append-nil, length, replicate, arith,
}
use ice_rpc.Common.Result.{Result, ok, err}
use ice_rpc.Rx.Event.{Event, ObservableError, technical, transport_error}
use ice_rpc.Rx.Stream.{pending, ready, Script, Observable, closed_message}
use ice_rpc.Rx.Polls.{Reading, Ending, closed, completed, failed, reading}
use ice_rpc.Rx.Consuming.{
  Callback, for_each, for_each_loop, run_push, next_only, subscribe, subscribe_all,
}

module _ {κ} {E : Type κ} where
  -- What `for_each` returns: unlike `collect`, it takes an early close for an error.
  abbrev pub verdict : Ending E → Result (Unit {0}) (ObservableError E)
  verdict closed = err (technical (transport_error closed_message))
  verdict completed = ok tt
  verdict (failed e) = err e

module _ {ℓ κ} {T : Type ℓ} {E : Type κ} where
  for_each_from :
      (n : ℕ) (s : Script T E) (seen : List T)
      → length s < n
      → for_each_loop n (record { script = s; terminated = false }) seen
        ≡ some (seen ++ (reading s).values, verdict (reading s).ending)
  unfolding for_each_loop reading
  for_each_from zero s seen h = absurd (omega arith)
  for_each_from (suc n) [] seen h = rw (append-nil seen)
  for_each_from (suc n) (pending ∷ s) seen h = for_each_from (suc n) s seen (omega arith)
  for_each_from (suc n) (ready (Event.next v) ∷ s) seen h =
      for_each_from n s (seen ++ v ∷ []) (omega arith)
      ∙ ap (λ vs. some (vs, verdict (reading s).ending))
          (append_assoc seen (v ∷ []) (reading s).values)
  for_each_from (suc n) (ready Event.complete ∷ s) seen h = rw (append-nil seen)
  for_each_from (suc n) (ready (Event.error e) ∷ s) seen h = rw (append-nil seen)

  -- `for_each` returns, and calls its function with each value up to the end of the stream, in
  -- order; it returns `Ok` if the stream completed, the terminal error if there was one, and a
  -- transport error if the stream closed without a terminal event. It takes no more rounds than
  -- the stream has answers, and one.
  pub for_each-reading :
      (n : ℕ) (s : Script T E)
      → length s < n
      → for_each n (record { script = s; terminated = false })
        ≡ some ((reading s).values, verdict (reading s).ending)
  unfolding for_each
  for_each-reading n s h = for_each_from n s [] h

  -- The calls that tell an observer of a stream: each value, and one call for the end.
  abbrev pub last_call : Ending E → Callback T E
  last_call closed = Callback.on_complete
  last_call completed = Callback.on_complete
  last_call (failed e) = Callback.on_error e

  abbrev pub told : Reading T E → List (Callback T E)
  told r = map Callback.on_next r.values ++ last_call r.ending ∷ []

  -- An observer whose subscription is kept is called with each value up to the end of the stream,
  -- in order, and then once: `on_error` with the terminal error if there was one, and otherwise
  -- `on_complete`, also for a stream that closes early.
  pub run_push-told :
      (n : ℕ) (s : Script T E) → length s < n → run_push (replicate n false) s ≡ told (reading s)
  unfolding run_push reading
  run_push-told zero s h = absurd (omega arith)
  run_push-told (suc n) [] h = refl
  run_push-told (suc n) (pending ∷ s) h = run_push-told n s (omega arith)
  run_push-told (suc n) (ready (Event.next v) ∷ s) h =
      ap (◌∷◌ (Callback.on_next v)) (run_push-told n s (omega arith))
  run_push-told (suc n) (ready Event.complete ∷ s) h = refl
  run_push-told (suc n) (ready (Event.error e) ∷ s) h = refl

  -- Whenever a subscription is cancelled, the calls so far are the first ones of those that the
  -- whole stream would have made: no value twice, none out of order, and no call for an end that
  -- was not reached.
  pub run_push_prefix :
      (turns : List Bool) (s : Script T E)
      → (rest : List (Callback T E)) × (run_push turns s ++ rest ≡ told (reading s))
  unfolding run_push reading
  run_push_prefix [] s = (told (reading s), refl)
  run_push_prefix (true ∷ turns) s = (told (reading s), refl)
  run_push_prefix (false ∷ turns) [] = ([], refl)
  run_push_prefix (false ∷ turns) (pending ∷ s) = run_push_prefix turns s
  run_push_prefix (false ∷ turns) (ready (Event.next v) ∷ s) =
      let (rest, e) = run_push_prefix turns s in (rest, ap (◌∷◌ (Callback.on_next v)) e)
  run_push_prefix (false ∷ turns) (ready Event.complete ∷ s) = ([], refl)
  run_push_prefix (false ∷ turns) (ready (Event.error e) ∷ s) = ([], refl)

  next_only-append_last :
      (values : List T) (end : Ending E)
      → next_only (map Callback.on_next values ++ last_call end ∷ []) ≡ values
  unfolding next_only
  next_only-append_last [] closed = refl
  next_only-append_last [] completed = refl
  next_only-append_last [] (failed e) = refl
  next_only-append_last (v ∷ values) end = ap (◌∷◌ v) (next_only-append_last values end)

  -- The callback of `subscribe` is called with each value up to the end of the stream, in order.
  pub subscribe-reading :
      (n : ℕ) (o : Observable T E)
      → length o.script < n
      → subscribe (replicate n false) o ≡ (reading o.script).values
  unfolding subscribe subscribe_all
  subscribe-reading n o h =
      ap next_only (run_push-told n o.script h)
      ∙ next_only-append_last (reading o.script).values (reading o.script).ending

  -- An observer of `subscribe_all` is called, if its subscription is kept, with each value up to
  -- the end of the stream, in order, and then once for the end: `on_error` with the terminal error
  -- if there was one, and else `on_complete`, also for a stream that closes early. If the
  -- subscription is cancelled at any time, the calls so far are the first ones of those.
  pub subscribe_all-told :
      (n : ℕ) (turns : List Bool) (o : Observable T E)
      → length o.script < n
      → (subscribe_all (replicate n false) o ≡ told (reading o.script))
        × ((rest : List (Callback T E)) × (subscribe_all turns o ++ rest ≡ told (reading o.script)))
  unfolding subscribe_all
  subscribe_all-told n turns o h = (run_push-told n o.script h, run_push_prefix turns o.script)
