-- ===== src/Monitor/Collector/Duplicate.antt =====
-- collector.rs and correlate.rs: a request whose correlation id is tracked already.
use ice_rpc.Common.{
  ℕ, ◌+◌, ◌<◌, ◌≡◌, ◌∙◌, ap, arith, Bool, true, false, not, some, List, [], ◌∷◌, ◌==◌, length, leb,
  if◌then◌else◌, sym,
}
use mathlib.Core.Logic.{ite}
use ice_rpc.Common.Int.{pos}
use ice_rpc.Rx.Event.{Text}
use ice_rpc.Wire.Kind.{EventKind, as_u8}
use ice_rpc.Wire.Header.{RpcHeader, kind_of}
use ice_rpc.Monitor.Correlate.{PendingCall, new_call, find, put, insert, make_room}
use ice_rpc.Monitor.Metrics
use ice_rpc.Monitor.Metrics.{Metrics, is_key, on_inflight}
use ice_rpc.Monitor.Collector.{Config, Monitor, Sample, give_up}
use ice_rpc.Monitor.Collector.Samples.{opened, method_of, on_request}
use ice_rpc.Monitor.Collector.Gauge.{one_of, tracked}
use ice_rpc.Monitor.Collector.Counted.{Counts, one_more}

module _ (c : Text) (s : ℕ) {K : Type 0} (dec : Discrete K) where
  tracked-put_replaced :
      (cid : K) (call new : PendingCall) (es : List (K × PendingCall))
      → find dec cid es ≡ some call
      → one_of c s call + tracked c s (put dec cid new es) ≡ one_of c s new + tracked c s es
  tracked-put_replaced cid call new [] h = cc
  tracked-put_replaced cid call new ((k, a) ∷ es) h =
      go (dec k cid) (tracked-put_replaced cid call new es) h
    where
      go :
          (x : Dec (Path K k cid))
          → (find dec cid es ≡ some call
              → one_of c s call + tracked c s (put dec cid new es)
                ≡ one_of c s new + tracked c s es)
          → ite x (some a) (find dec cid es) ≡ some call
          → one_of c s call + tracked c s (ite x ((k, new) ∷ es) ((k, a) ∷ put dec cid new es))
            ≡ one_of c s new + (one_of c s a + tracked c s es)
      go (yes e) rec g =
          let same_call : a ≡ call = cc in
          let ones : one_of c s a ≡ one_of c s call = ap (one_of c s) same_call in omega arith
      go (no ne) rec g = let rest = rec g in omega arith

module _ (dec : Discrete (List ℕ)) where
  -- A request that carries the correlation id of a call that is still tracked, in a table that is
  -- not full, leaves the gauge counting the replaced call, which no entry tracks any more: for the
  -- channel and the service of that call, the gauge is one above the number of the tracked calls.
  pub on_request-overcounts :
      (config : Config) (now : ℕ) (channel : Text) (header : RpcHeader) (sample : Sample)
      (o : Monitor) (call : PendingCall)
      → as_u8 (kind_of header) ≡ as_u8 EventKind.request
      → find dec header.correlation_id o.correlate.entries ≡ some call
      → length o.correlate.entries < o.correlate.max
      → Counts o.metrics o.correlate.entries
      → (c : Text) (s : ℕ)
      → let o' : Monitor = on_request dec config now channel header sample o in
        o'.metrics.inflight c s ≡ pos (one_of c s call + tracked c s o'.correlate.entries)
  unfolding on_request Metrics.on_request on_inflight new_call insert give_up
  on_request-overcounts config now channel header sample o call kind found room exact c s =
      go (not (as_u8 (kind_of header) == as_u8 EventKind.request)) (ground arith)
        (leb o.correlate.max (length o.correlate.entries)) (ground arith)
    where
      new : PendingCall
      new = opened config now channel header sample

      m : Metrics
      m =
          on_inflight channel header.service_id (pos 1)
            (Metrics.on_request channel header.service_id (method_of config header) o.metrics)

      go :
          (other : Bool)
          → other ≡ false
          → (full : Bool) → full ≡ false
          → let (evicted, es) : List PendingCall × List (List ℕ × PendingCall) =
              if full then make_room dec o.correlate.entries else ([], o.correlate.entries) in
            let o' : Monitor = if other then o else record o {
              metrics = give_up evicted m;
              correlate = record o.correlate { entries = put dec header.correlation_id new es };
            } in
            o'.metrics.inflight c s ≡ pos (one_of c s call + tracked c s o'.correlate.entries)
      go true absurd full h = cc
      go false h true absurd = cc
      go false h false h' =
          let moved =
            tracked-put_replaced c s dec header.correlation_id call new o.correlate.entries found in
          one_more (is_key channel header.service_id c s) (tracked c s o.correlate.entries)
            (o.metrics.inflight c s) (exact c s)
          ∙ ap pos (sym moved)
