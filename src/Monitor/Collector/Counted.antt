-- ===== src/Monitor/Collector/Counted.antt =====
-- collector.rs: the gauge of the calls in flight counts the calls that the table tracks.
use ice_rpc.Common.{
  ℕ, ◌+◌, ◌≡◌, refl, ◌∙◌, ap, arith, Bool, true, false, List, [], ◌∷◌, if◌then◌else◌,
}
use ice_rpc.Common.Int.{ℤ, pos, negsuc, ◌+ℤ◌}
use ice_rpc.Rx.Event.{Text}
use ice_rpc.Monitor.Correlate
use ice_rpc.Monitor.Correlate.{PendingCall, Correlate, find, insert}
use ice_rpc.Monitor.Correlate.Distinct.{IsDistinct, retained-IsDistinct}
use ice_rpc.Monitor.Metrics.{
  Metrics, is_key, on_inflight, on_unmatched_request, on_orphan_response, on_latency, on_clock_skew,
}
use ice_rpc.Wire.Kind.{EventKind, is_terminal}
use ice_rpc.Wire.Header.{RpcHeader}
use ice_rpc.Monitor.Collector.{
  Config, Monitor, Emitter, Sample, give_up, orphans, emit_trace, first_latency, complete_response,
}
use ice_rpc.Monitor.Collector.Upkeep.{sweep}
use ice_rpc.Monitor.Collector.Gauge.{one_of, count, tracked, tracked-retained}

-- The gauge of every channel and service is the number of its calls among the entries.
abbrev pub Counts : Metrics → List (List ℕ × PendingCall) → Type 0
Counts m es = (c : Text) (s : ℕ) → m.inflight c s ≡ pos (tracked c s es)

abbrev pub IsExact : Discrete (List ℕ) → Monitor → Type 0
IsExact dec o = IsDistinct dec o.correlate.entries × Counts o.metrics o.correlate.entries

-- The gauge goes down with a call of its own, and up.
one_fewer :
    (b : Bool) (n : ℕ) (x : ℤ)
    → x ≡ pos ((if b then 1 else 0) + n)
    → (if b then x +ℤ negsuc 0 else x) ≡ pos n
unfolding ◌+ℤ◌
one_fewer true n x h = rw h (ground arith)
one_fewer false n x h = rw h (ground arith)

pub one_more :
    (b : Bool) (n : ℕ) (x : ℤ)
    → x ≡ pos n
    → (if b then x +ℤ pos 1 else x) ≡ pos ((if b then 1 else 0) + n)
unfolding ◌+ℤ◌
one_more true n x h = rw h (ground arith)
one_more false n x h = rw h (ground arith)

pub give_up-inflight :
    (c : Text) (s n : ℕ) (calls : List PendingCall) (m : Metrics)
    → m.inflight c s ≡ pos (count c s calls + n)
    → (give_up calls m).inflight c s ≡ pos n
unfolding give_up on_unmatched_request on_inflight
give_up-inflight c s n [] m h = h ∙ ap pos (omega arith)
give_up-inflight c s n (call ∷ calls) m h = give_up-inflight c s n calls _ (
    one_fewer (is_key call.channel call.service_id c s) (count c s calls + n) (m.inflight c s)
      (rw h (ap pos (omega arith))))

pub sweep-IsExact :
    (dec : Discrete (List ℕ)) (now : ℕ) (o : Monitor) → IsExact dec o → IsExact dec (sweep now o)
unfolding sweep Correlate.sweep
sweep-IsExact dec now o (d, exact) = (
  retained-IsDistinct dec now o.correlate.ttl o.correlate.entries d,
  λ c s.
      give_up-inflight c s _ _ o.metrics
        (exact c s ∙ ap pos (tracked-retained c s now o.correlate.ttl o.correlate.entries)),
)

pub orphans-inflight :
    {A : Type 0} (samples : List A) (channel : Text) (m : Metrics)
    → (orphans samples channel m).inflight ≡ m.inflight
unfolding orphans on_orphan_response
orphans-inflight [] channel m = refl
orphans-inflight (sample ∷ samples) channel m =
    orphans-inflight samples channel (on_orphan_response channel m)

emit_trace-state :
    (config : Config) (channel : Text) (header : RpcHeader) (emitter : Emitter) (sample : Sample)
    (call : PendingCall) (kind : EventKind) (o : Monitor)
    → (emit_trace config channel header emitter sample call kind o).metrics ≡ o.metrics
      × (emit_trace config channel header emitter sample call kind o).correlate ≡ o.correlate
unfolding emit_trace
emit_trace-state config channel header emitter sample call kind o = (ground arith, ground arith)

first_latency-inflight :
    (header : RpcHeader) (call : PendingCall) (m : Metrics)
    → (first_latency header call m).inflight ≡ m.inflight
unfolding first_latency on_latency on_clock_skew
first_latency-inflight header call m = ground arith

-- Completing a call takes it off the gauge at a terminal kind, and leaves the table alone.
pub complete_response-Counts :
    (config : Config) (channel : Text) (header : RpcHeader) (emitter : Emitter) (sample : Sample)
    (call : PendingCall) (kind : EventKind) (o : Monitor) (es : List (List ℕ × PendingCall))
    → ((c : Text) (s : ℕ)
        → o.metrics.inflight c s
          ≡ pos ((if is_terminal kind then one_of c s call else 0) + tracked c s es))
    → Counts (complete_response config channel header emitter sample call kind o).metrics es
      × (complete_response config channel header emitter sample call kind o).correlate ≡ o.correlate
unfolding complete_response on_inflight
complete_response-Counts config channel header emitter sample call kind o es h =
    go (is_terminal kind) h
  where
    m : Metrics
    m = first_latency header call o.metrics

    o' : Monitor
    o' = record o { metrics = on_inflight call.channel call.service_id (negsuc 0) m }

    seen : (c : Text) (s : ℕ) → m.inflight c s ≡ o.metrics.inflight c s
    seen c s = ap (λ f. f c s) (first_latency-inflight header call o.metrics)

    go :
        (b : Bool)
        → ((c : Text) (s : ℕ)
            → o.metrics.inflight c s ≡ pos ((if b then one_of c s call else 0) + tracked c s es))
        → let after : Monitor =
            if b
            then emit_trace config channel header emitter sample call kind o'
            else record o { metrics = m } in
          Counts after.metrics es × after.correlate ≡ o.correlate
    go true g =
        let (same, table) = emit_trace-state config channel header emitter sample call kind o' in
        (
          λ c s.
              ap (λ x. x.inflight c s) same
              ∙ one_fewer (is_key call.channel call.service_id c s) (tracked c s es)
                  (m.inflight c s) (seen c s ∙ g c s),
          table,
        )
    go false g = (λ c s. seen c s ∙ g c s ∙ ap pos (omega arith), refl)
