-- ===== src/Monitor/Collector/Upkeep.antt =====
-- collector.rs: the periodic work, on the deferred responses, the old calls and the emitters.
use ice_rpc.Common.{
  ℕ, ◌+◌, ◌-◌, ltb, leb, Bool, true, false, Option, none, some, List, [], ◌∷◌, if◌then◌else◌,
}
use ice_rpc.Wire.Kind.{is_terminal}
use ice_rpc.Wire.Header.{kind_of}
use ice_rpc.Rx.Event.{Text}
use ice_rpc.Monitor.Correlate
use ice_rpc.Monitor.Correlate.{Correlate, PendingCall, Resolution, matched, unknown, contains}
use ice_rpc.Monitor.Metrics.{Metrics, set_nodes_alive, add_node_crash}
use ice_rpc.Monitor.Collector.{
  Config, Monitor, Deferred, DeferredResponses, Waiting, orphan_grace, give_up, orphans,
  complete_response,
}
use ice_rpc.Monitor.Collector.Samples.{deferred_at, without_entry}

-- The calls that are older than the time to live are given up.
unfoldable pub sweep : ℕ → Monitor → Monitor
sweep now o =
    let (expired, table) : List PendingCall × Correlate (List ℕ) =
      Correlate.sweep now o.correlate in
    record o { metrics = give_up expired o.metrics; correlate = table }

-- The entries of `retain`, and what is counted for those it removes.
unfoldable pub kept : ℕ → Deferred → Deferred
kept now [] = []
kept now ((cid, entry) ∷ ds) =
    let rest = kept now ds in
    if leb orphan_grace (now - entry.since) then rest else (cid, entry) ∷ rest

unfoldable pub expire : ℕ → Deferred → Metrics → Metrics
expire now [] m = m
expire now ((cid, entry) ∷ ds) m =
    expire now ds
      (if leb orphan_grace (now - entry.since) then orphans entry.samples entry.channel m else m)

module _ (dec : Discrete (List ℕ)) where
  unfoldable pub replay_sample : Config → Text → Waiting → Resolution → Monitor → Monitor
  replay_sample config channel (header, emitter, sample) (matched call) o =
      complete_response config channel header emitter sample call (kind_of header) o
  replay_sample config channel w unknown o = o

  unfoldable pub replay_samples : Config → List ℕ → Text → List Waiting → Monitor → Monitor
  replay_samples config cid channel [] o = o
  replay_samples config cid channel (w ∷ ws) o =
      let (found, table) : Resolution × Correlate (List ℕ) =
        Correlate.on_response dec cid (is_terminal (kind_of w.0)) o.correlate in
      replay_samples config cid channel ws
        (replay_sample config channel w found (record o { correlate = table }))

  -- `keys().filter(...)`.
  unfoldable pub ready : Correlate (List ℕ) → Deferred → List (List ℕ)
  ready table [] = []
  ready table ((cid, entry) ∷ ds) =
      let rest = ready table ds in if contains dec cid table then cid ∷ rest else rest

  unfoldable pub replay_entry : Config → List ℕ → Option DeferredResponses → Monitor → Monitor
  replay_entry config cid none o = o
  replay_entry config cid (some entry) o =
      replay_samples config cid entry.channel entry.samples
        (record o { deferred = without_entry dec cid o.deferred })

  unfoldable pub replay_ready : Config → List (List ℕ) → Monitor → Monitor
  replay_ready config [] o = o
  replay_ready config (cid ∷ cids) o =
      replay_ready config cids (replay_entry config cid (deferred_at dec cid o.deferred) o)

  -- With no entry, the source returns at once; here both loops have nothing to do.
  unfoldable pub resolve_deferred : Config → ℕ → Monitor → Monitor
  resolve_deferred config now o =
      let o' : Monitor = replay_ready config (ready o.correlate o.deferred) o in
      record o' { metrics = expire now o'.deferred o'.metrics; deferred = kept now o'.deferred }

-- The emitters, after the operating system's answer for each, with how many are alive and how many
-- have disappeared since.
unfoldable pub probe : (ℕ → Bool) → List (ℕ × Bool) → List (ℕ × Bool) × ℕ × ℕ
probe is_pid_alive [] = ([], 0, 0)
probe is_pid_alive ((pid, was_alive) ∷ pids) =
    let (rest, alive, crashed) : List (ℕ × Bool) × ℕ × ℕ = probe is_pid_alive pids in
    if is_pid_alive pid
    then ((pid, true) ∷ rest, alive + 1, crashed)
    else if was_alive
    then ((pid, false) ∷ rest, alive, crashed + 1)
    else ((pid, false) ∷ rest, alive, crashed)

unfoldable pub check_liveness : (ℕ → Bool) → Monitor → Monitor
check_liveness is_pid_alive o =
    let (pids, alive, crashed) : List (ℕ × Bool) × ℕ × ℕ = probe is_pid_alive o.pids in
    let m : Metrics = set_nodes_alive alive o.metrics in
    record o { metrics = if ltb 0 crashed then add_node_crash crashed m else m; pids = pids }
