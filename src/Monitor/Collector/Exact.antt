-- ===== src/Monitor/Collector/Exact.antt =====
-- collector.rs: every sample and every periodic step keeps the gauge of the calls in flight exact.
use ice_rpc.Common.{
  ℕ, ◌+◌, ◌≡◌, refl, sym, ◌∙◌, ap, arith, Bool, true, false, not, Option, none, some, List, [], ◌∷◌,
  ◌==◌, length, leb, if◌then◌else◌, subst,
}
use ice_rpc.Common.Int.{pos}
use ice_rpc.Rx.Event.{Text}
use ice_rpc.Wire.Kind.{EventKind, is_terminal, as_u8}
use ice_rpc.Wire.Header.{RpcHeader, kind_of}
use ice_rpc.Monitor.Loss.{observe}
use ice_rpc.Monitor.Correlate
use ice_rpc.Monitor.Correlate.{
  PendingCall, Correlate, Resolution, matched, unknown, find, put, remove, new_call, insert,
  make_room, resolve,
}
use ice_rpc.Monitor.Correlate.Distinct.{IsDistinct, put-IsDistinct, remove-IsDistinct}
use ice_rpc.Monitor.Metrics
use ice_rpc.Monitor.Metrics.{Metrics, Direction, is_key, on_inflight, on_sample_gap, on_payload}
use ice_rpc.Monitor.Collector.{
  Config, Monitor, Emitter, Sample, Deferred, DeferredResponses, max_deferred, complete_response,
  give_up,
}
use ice_rpc.Monitor.Collector.Samples.{
  opened, method_of, on_request, on_response, resolved, abandon, evict_oldest, defer_response,
  noted, process, deferred_at, overflows, push,
}
use ice_rpc.Monitor.Collector.Gauge.{
  one_of, count, tracked, tracked-put-none, tracked-put_found, tracked-remove, tracked-make_room,
  find-make_room,
}
use ice_rpc.Monitor.Collector.Counted.{
  Counts, IsExact, one_more, give_up-inflight, orphans-inflight, complete_response-Counts,
}

on_sample_gap-inflight : (missed : ℕ) (m : Metrics) → (on_sample_gap missed m).inflight ≡ m.inflight
unfolding on_sample_gap
on_sample_gap-inflight missed m = ground arith

module _ (dec : Discrete (List ℕ)) where
  -- Room is made in a table that is full, and what is given up is what is not tracked any more.
  insert-tracked :
      (cid : List ℕ) (call : PendingCall) (t : Correlate (List ℕ))
      → IsDistinct dec t.entries
      → find dec cid t.entries ≡ none
      → IsDistinct dec (insert dec cid call t).1.entries
        × ((c : Text) (s : ℕ)
            → one_of c s call + tracked c s t.entries
              ≡ count c s (insert dec cid call t).0 + tracked c s (insert dec cid call t).1.entries)
  unfolding insert
  insert-tracked cid call t d h = go (leb t.max (length t.entries))
    where
      go :
          (b : Bool)
          → let (evicted, es) : List PendingCall × List (List ℕ × PendingCall) =
              if b then make_room dec t.entries else ([], t.entries) in
            IsDistinct dec (put dec cid call es)
            × ((c : Text) (s : ℕ)
                → one_of c s call + tracked c s t.entries
                  ≡ count c s evicted + tracked c s (put dec cid call es))
      go true =
          let (d', h') = find-make_room dec cid t.entries d h in
          (
            put-IsDistinct dec cid call (make_room dec t.entries).1 d',
            λ c s.
                let room = tracked-make_room c s dec t.entries d in
                let new = tracked-put-none c s dec cid call (make_room dec t.entries).1 h' in
                omega arith,
          )
      go false = (
        put-IsDistinct dec cid call t.entries d,
        λ c s. let new = tracked-put-none c s dec cid call t.entries h in omega arith,
      )

  on_request-IsExact :
      (config : Config) (now : ℕ) (channel : Text) (header : RpcHeader) (sample : Sample)
      (o : Monitor)
      → find dec header.correlation_id o.correlate.entries ≡ none
      → IsExact dec o
      → IsExact dec (on_request dec config now channel header sample o)
  unfolding on_request Metrics.on_request on_inflight new_call
  on_request-IsExact config now channel header sample o free (d, exact) =
      go (not (as_u8 (kind_of header) == as_u8 EventKind.request))
    where
      call : PendingCall
      call = opened config now channel header sample

      m : Metrics
      m =
          on_inflight channel header.service_id (pos 1)
            (Metrics.on_request channel header.service_id (method_of config header) o.metrics)

      inserted : List PendingCall × Correlate (List ℕ)
      inserted = insert dec header.correlation_id call o.correlate

      go :
          (b : Bool)
          → IsExact dec
              (if b then o else record o { metrics = give_up inserted.0 m; correlate = inserted.1 })
      go true = (d, exact)
      go false =
          let (d', moved) = insert-tracked header.correlation_id call o.correlate d free in
          (
            d',
            λ c s. give_up-inflight c s (tracked c s inserted.1.entries) inserted.0 m (
                one_more (is_key channel header.service_id c s) (tracked c s o.correlate.entries)
                  (o.metrics.inflight c s) (exact c s)
                ∙ ap pos (moved c s)),
          )

  abandon-IsExact :
      (cid : List ℕ) (entry : Option DeferredResponses) (o : Monitor)
      → IsExact dec o
      → IsExact dec (abandon dec cid entry o)
  unfolding abandon
  abandon-IsExact cid none o e = e
  abandon-IsExact cid (some entry) o (d, exact) = (
    d,
    λ c s. ap (λ f. f c s) (orphans-inflight entry.samples entry.channel o.metrics) ∙ exact c s,
  )

  evict_oldest-IsExact :
      (ds : Deferred) (o : Monitor) → IsExact dec o → IsExact dec (evict_oldest dec ds o)
  unfolding evict_oldest
  evict_oldest-IsExact [] o e = e
  evict_oldest-IsExact (f ∷ ds) o e = abandon-IsExact _ _ o e

  defer_response-IsExact :
      (now : ℕ) (channel : Text) (header : RpcHeader) (emitter : Emitter) (sample : Sample)
      (o : Monitor)
      → IsExact dec o
      → IsExact dec (defer_response dec now channel header emitter sample o)
  unfolding defer_response
  defer_response-IsExact now channel header emitter sample o e =
      bounded (overflows (deferred_at dec header.correlation_id room.deferred))
    where
      room : Monitor
      room = if leb max_deferred (length o.deferred) then evict_oldest dec o.deferred o else o

      roomy : (b : Bool) → IsExact dec (if b then evict_oldest dec o.deferred o else o)
      roomy true = evict_oldest-IsExact o.deferred o e
      roomy false = e

      bounded :
          (b : Bool)
          → IsExact dec (
              if b
              then abandon dec header.correlation_id
                  (deferred_at dec header.correlation_id room.deferred)
                  room
              else record room {
                deferred =
                    push dec now header.correlation_id channel
                      (header, emitter, sample)
                      room.deferred;
              })
      bounded true =
          abandon-IsExact header.correlation_id
            (deferred_at dec header.correlation_id room.deferred) room
            (roomy (leb max_deferred (length o.deferred)))
      bounded false = roomy (leb max_deferred (length o.deferred))

  -- A response has taken its call, and the gauge is not yet told.
  unfoldable pub Pending : Bool → Resolution → Monitor → Type 0
  Pending terminal unknown o = Counts o.metrics o.correlate.entries
  Pending terminal (matched call) o =
      (c : Text) (s : ℕ)
      → o.metrics.inflight c s
        ≡ pos ((if terminal then one_of c s call else 0) + tracked c s o.correlate.entries)

  pub found-Pending :
      (cid : List ℕ) (terminal : Bool) (o : Monitor)
      → IsExact dec o
      → let (found, table) : Resolution × Correlate (List ℕ) =
          Correlate.on_response dec cid terminal o.correlate in
        IsDistinct dec table.entries × Pending terminal found (record o { correlate = table })
  unfolding Correlate.on_response Pending
  found-Pending cid terminal o (d, exact) = go (find dec cid o.correlate.entries) refl terminal
    where
      go :
          (f : Option PendingCall)
          → find dec cid o.correlate.entries ≡ f
          → (b : Bool)
          → let (found, table) : Resolution × Correlate (List ℕ) =
              resolve dec f cid b o.correlate in
            IsDistinct dec table.entries × Pending b found (record o { correlate = table })
      go none h b = (d, exact)
      go (some call) h true = (
        remove-IsDistinct dec cid o.correlate.entries d,
        λ c s. exact c s ∙ ap pos (tracked-remove c s dec cid call o.correlate.entries d h),
      )
      go (some call) h false = (
        put-IsDistinct dec cid (record call { first_response_seen = true }) o.correlate.entries d,
        λ c s.
            let same =
              tracked-put_found c s dec cid call (record call { first_response_seen = true })
                o.correlate.entries refl h in
            exact c s ∙ ap pos (omega arith),
      )

  pub completed-IsExact :
      (config : Config) (channel : Text) (header : RpcHeader) (emitter : Emitter) (sample : Sample)
      (call : PendingCall) (o : Monitor)
      → IsDistinct dec o.correlate.entries
      → Pending (is_terminal (kind_of header)) (matched call) o
      → IsExact dec (complete_response config channel header emitter sample call (kind_of header) o)
  unfolding Pending
  completed-IsExact config channel header emitter sample call o d h =
      let (counts, table) =
        complete_response-Counts config channel header emitter sample call (kind_of header) o
          o.correlate.entries h in
      subst
        (λ t.
          IsDistinct dec t.entries
          × Counts
              (complete_response config channel header emitter sample call (kind_of header)
                o).metrics
              t.entries)
        (sym table) (d, counts)

  resolved-IsExact :
      (config : Config) (now : ℕ) (channel : Text) (header : RpcHeader) (emitter : Emitter)
      (sample : Sample) (found : Resolution) (o : Monitor)
      → IsDistinct dec o.correlate.entries
      → Pending (is_terminal (kind_of header)) found o
      → IsExact dec (resolved dec config now channel header emitter sample found o)
  unfolding resolved Pending
  resolved-IsExact config now channel header emitter sample (matched call) o d h =
      completed-IsExact config channel header emitter sample call o d h
  resolved-IsExact config now channel header emitter sample unknown o d h =
      defer_response-IsExact now channel header emitter sample o (d, h)

  on_response-IsExact :
      (config : Config) (now : ℕ) (channel : Text) (header : RpcHeader) (emitter : Emitter)
      (sample : Sample) (o : Monitor)
      → IsExact dec o
      → IsExact dec (on_response dec config now channel header emitter sample o)
  unfolding on_response Metrics.on_response
  on_response-IsExact config now channel header emitter sample o e =
      let o' : Monitor = record o {
        metrics = Metrics.on_response channel header.service_id (kind_of header) o.metrics;
      } in
      let (d, pending) = found-Pending header.correlation_id (is_terminal (kind_of header)) o' e in
      resolved-IsExact config now channel header emitter sample _ _ d pending

  noted-IsExact :
      (channel : Text) (direction : Direction) (header : RpcHeader) (emitter : Emitter)
      (sample : Sample) (o : Monitor)
      → IsExact dec o
      → IsExact dec (noted channel direction header emitter sample o)
  unfolding noted on_payload
  noted-IsExact channel direction header emitter sample o (d, exact) =
      let missed : ℕ = (observe emitter.publisher_id header.seq o.loss).0 in
      let same = on_sample_gap-inflight missed o.metrics in
      (d, λ c s. ap (λ f. f c s) same ∙ exact c s)

  -- A sample keeps the gauge of the calls in flight equal, for every channel and every service, to
  -- the number of calls that the table tracks for them, when a request does not carry the
  -- correlation id of a call that is still tracked. Eviction, deferral and sampling do not matter.
  pub process-IsExact :
      (config : Config) (now : ℕ) (channel : Text) (direction : Direction) (header : RpcHeader)
      (emitter : Emitter) (sample : Sample) (o : Monitor)
      → (direction ≡ Direction.request → find dec header.correlation_id o.correlate.entries ≡ none)
      → IsExact dec o
      → IsExact dec (process dec config now channel direction header emitter sample o)
  unfolding process noted
  process-IsExact config now channel Direction.request header emitter sample o free e =
      on_request-IsExact config now channel header sample
        (noted channel Direction.request header emitter sample o) (free refl)
        (noted-IsExact channel Direction.request header emitter sample o e)
  process-IsExact config now channel Direction.response header emitter sample o free e =
      on_response-IsExact config now channel header emitter sample
        (noted channel Direction.response header emitter sample o)
        (noted-IsExact channel Direction.response header emitter sample o e)
