-- ===== src/Rx/Stream/Reading.antt =====
-- stream.rs: how the ways of reading a stream to its end agree.
use ice_rpc.Common.{
  ◌≡◌, refl, Bool, true, false, Option, none, some, List, [], ◌∷◌, ◌++◌, if◌then◌else◌,
}
use ice_rpc.Common.Result.{Result, ok, err}
use ice_rpc.Rx.Event.{Event, ObservableError, technical, empty, transport_error}
use ice_rpc.Rx.Stream.{
  pending, ready, Script, Observable, recv_from, next, last_loop, last_event, ok_or, collect_loop,
  collect_values, last_value, collect, closed_message,
}

module _ {ℓ} {T : Type ℓ} where
  abbrev pub last_of : Option T → List T → Option T
  last_of d [] = d
  last_of d (v ∷ vs) = last_of (some v) vs

  last_of-append : (d : Option T) (vs : List T) (v : T) → last_of d (vs ++ v ∷ []) ≡ some v
  last_of-append d [] v = refl
  last_of-append d (x ∷ vs) v = last_of-append (some x) vs v

module _ {ℓ κ} {T : Type ℓ} {E : Type κ} where
  -- What `last_value` makes of what `collect` returns.
  abbrev pub last_of_collected : Result (List T) (ObservableError E) → Result T (ObservableError E)
  last_of_collected (ok vs) = ok_or (last_of none vs) empty
  last_of_collected (err e) = err e

  last_loop-collect_loop :
      (values : List T) (s : Script T E)
      → last_loop (last_of none values) s ≡ last_of_collected (collect_loop values s)
  unfolding last_loop collect_loop
  last_loop-collect_loop values [] = refl
  last_loop-collect_loop values (pending ∷ s) = last_loop-collect_loop values s
  last_loop-collect_loop values (ready (Event.next v) ∷ s) =
      rw (← last_of-append none values v) (last_loop-collect_loop (values ++ v ∷ []) s)
  last_loop-collect_loop values (ready (Event.error e) ∷ s) = refl
  last_loop-collect_loop values (ready Event.complete ∷ s) = refl

  -- `last_value` is the last of the values that `collect` returns, `Empty` if there is none, and
  -- the error that `collect` returns otherwise.
  pub last_value-collect : (o : Observable T E) → last_value o ≡ last_of_collected (collect o)
  unfolding last_value collect last_event collect_values
  last_value-collect o = last_loop-collect_loop [] o.script

  -- Nothing more is to come: the stream may still be pending for a while, and then it is closed.
  abbrev pub IsExhausted : Script T E → Type 0
  IsExhausted [] = Unit
  IsExhausted (pending ∷ s) = IsExhausted s
  IsExhausted (ready e ∷ s) = ⊥

  recv_from-IsExhausted :
      (s : Script T E) (t : Bool)
      → IsExhausted s
      → recv_from s t ≡ (none, record { script = []; terminated = t })
  unfolding recv_from
  recv_from-IsExhausted [] t h = refl
  recv_from-IsExhausted (pending ∷ s) t h = recv_from-IsExhausted s t h
  recv_from-IsExhausted (ready e ∷ s) t h = absurd h

  abbrev ended : Observable T E
  ended = record { script = []; terminated = true }

  -- A stream that is closed before a terminal event reports one transport error, and from then on
  -- only its end; a stream that is closed after one reports its end at once.
  pub next_closed :
      (s : Script T E) (t : Bool)
      → IsExhausted s
      → (next (record { script = s; terminated = t })
          ≡ ((if t then none else some (err (technical (transport_error closed_message)))), ended))
        × (next ended ≡ (none, ended))
  unfolding next
  next_closed s true h = (rw (recv_from-IsExhausted s true h), refl)
  next_closed s false h = (rw (recv_from-IsExhausted s false h), refl)
