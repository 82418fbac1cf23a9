-- ===== src/Monitor/Collector/Samples.antt =====
-- collector.rs: a sample of a channel is aggregated. What the correlation table finds is passed on.
use ice_rpc.Common.{
  ℕ, ◌==◌, ltb, leb, Bool, false, not, Option, none, some, List, [], ◌∷◌, ◌++◌, length,
  if◌then◌else◌,
}
use mathlib.Core.Logic.{ite}
use ice_rpc.Common.Int.{pos}
use ice_rpc.Rx.Event.{Text}
use ice_rpc.Wire.Kind.{EventKind, as_u8, is_terminal}
use ice_rpc.Wire.Header.{RpcHeader, kind_of}
use ice_rpc.Monitor.Loss.{LossTracker, observe}
use ice_rpc.Monitor.Correlate
use ice_rpc.Monitor.Correlate.{
  Correlate, PendingCall, new_call, Resolution, matched, unknown, insert,
}
use ice_rpc.Monitor.Metrics
use ice_rpc.Monitor.Metrics.{Metrics, Direction, on_inflight, on_sample_gap, on_payload}
use ice_rpc.Monitor.Collector.{
  Config, Emitter, Sample, payload_len, Monitor, Deferred, DeferredResponses, Waiting, max_deferred,
  max_deferred_samples, note_pid, give_up, orphans, text_of_request, complete_response,
}

abbrev pub method_of : Config → RpcHeader → Text
method_of config header = named (config.method_name header.service_id header.method_id)
  where
    named : Option Text → Text
    named none = config.hexadecimal header.method_id
    named (some name) = name

-- The call that a request opens, at the instant `now`.
abbrev pub opened : Config → ℕ → Text → RpcHeader → Sample → PendingCall
opened config now channel header sample =
    let method : Text = method_of config header in
    new_call now channel header.service_id method header.timestamp_ns (payload_len sample)
      (text_of_request config header.service_id method sample)

abbrev pub overflows : Option DeferredResponses → Bool
overflows none = false
overflows (some entry) = leb max_deferred_samples (length entry.samples)

-- What every sample does, whichever its direction.
unfoldable pub noted : Text → Direction → RpcHeader → Emitter → Sample → Monitor → Monitor
noted channel direction header emitter sample o =
    let (missed, loss) : ℕ × LossTracker = observe emitter.publisher_id header.seq o.loss in
    record o {
      metrics = on_payload channel direction (payload_len sample) (on_sample_gap missed o.metrics);
      loss = loss;
      pids = note_pid emitter.pid o.pids;
    }

module _ (dec : Discrete (List ℕ)) where
  abbrev pub deferred_at : List ℕ → Deferred → Option DeferredResponses
  deferred_at cid [] = none
  deferred_at cid ((k, entry) ∷ ds) = ite (dec k cid) (some entry) (deferred_at cid ds)

  abbrev pub without_entry : List ℕ → Deferred → Deferred
  without_entry cid [] = []
  without_entry cid ((k, entry) ∷ ds) =
      let rest = without_entry cid ds in ite (dec k cid) rest ((k, entry) ∷ rest)

  -- `entry(cid).or_insert_with(...).samples.push(...)`, at the instant `now`.
  abbrev pub push : ℕ → List ℕ → Text → Waiting → Deferred → Deferred
  push now cid channel w [] =
      (cid, record { channel = channel; samples = w ∷ []; since = now }) ∷ []
  push now cid channel w ((k, entry) ∷ ds) =
      let rest = push now cid channel w ds in
      ite (dec k cid) ((k, record entry { samples = entry.samples ++ w ∷ [] }) ∷ ds)
        ((k, entry) ∷ rest)

  -- `min_by_key` on `since`.
  abbrev pub older_entry : List ℕ × DeferredResponses → Deferred → List ℕ × DeferredResponses
  older_entry e [] = e
  older_entry e (f ∷ ds) = older_entry (if ltb f.1.since e.1.since then f else e) ds

  -- The table loses an entry, and each of its samples is an orphan.
  unfoldable pub abandon : List ℕ → Option DeferredResponses → Monitor → Monitor
  abandon cid none o = o
  abandon cid (some entry) o = record o {
    metrics = orphans entry.samples entry.channel o.metrics;
    deferred = without_entry cid o.deferred;
  }

  unfoldable pub evict_oldest : Deferred → Monitor → Monitor
  evict_oldest [] o = o
  evict_oldest (e ∷ ds) o =
      let cid : List ℕ = (older_entry e ds).0 in abandon cid (deferred_at cid o.deferred) o

  unfoldable pub defer_response : ℕ → Text → RpcHeader → Emitter → Sample → Monitor → Monitor
  defer_response now channel header emitter sample o =
      let room : Monitor =
        if leb max_deferred (length o.deferred) then evict_oldest o.deferred o else o in
      let cid : List ℕ = header.correlation_id in
      let entry : Option DeferredResponses = deferred_at cid room.deferred in
      if overflows entry
      then abandon cid entry room
      else record room { deferred = push now cid channel (header, emitter, sample) room.deferred }

  unfoldable pub on_request : Config → ℕ → Text → RpcHeader → Sample → Monitor → Monitor
  on_request config now channel header sample o =
      if not (as_u8 (kind_of header) == as_u8 EventKind.request)
      then o
      else let m : Metrics =
          on_inflight channel header.service_id (pos 1)
            (Metrics.on_request channel header.service_id (method_of config header) o.metrics) in
        let (evicted, table) : List PendingCall × Correlate (List ℕ) =
          insert dec header.correlation_id (opened config now channel header sample) o.correlate in
        record o { metrics = give_up evicted m; correlate = table }

  -- What is done with the call that the table finds for a response, or does not find.
  unfoldable pub resolved :
      Config → ℕ → Text → RpcHeader → Emitter → Sample → Resolution → Monitor → Monitor
  resolved config now channel header emitter sample (matched call) o =
      complete_response config channel header emitter sample call (kind_of header) o
  resolved config now channel header emitter sample unknown o =
      defer_response now channel header emitter sample o

  unfoldable pub on_response : Config → ℕ → Text → RpcHeader → Emitter → Sample → Monitor → Monitor
  on_response config now channel header emitter sample o =
      let (found, table) : Resolution × Correlate (List ℕ) =
        Correlate.on_response dec header.correlation_id (is_terminal (kind_of header))
          o.correlate in
      resolved config now channel header emitter sample found (record o {
        metrics = Metrics.on_response channel header.service_id (kind_of header) o.metrics;
        correlate = table;
      })

  unfoldable pub process :
      Config → ℕ → Text → Direction → RpcHeader → Emitter → Sample → Monitor → Monitor
  process config now channel Direction.request header emitter sample o =
      on_request config now channel header sample
        (noted channel Direction.request header emitter sample o)
  process config now channel Direction.response header emitter sample o =
      on_response config now channel header emitter sample
        (noted channel Direction.response header emitter sample o)
