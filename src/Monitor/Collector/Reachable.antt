-- ===== src/Monitor/Collector/Reachable.antt =====
-- collector.rs: the turns of `run`, in any order, as a step relation on the monitor's state.
use ice_rpc.Common.{ℕ, ◌≡◌, refl, ap, ◌∙◌, ltb, if◌then◌else◌, Bool, true, false, none, List, []}
use ice_rpc.Rx.Event.{Text}
use ice_rpc.Wire.Header.{RpcHeader}
use ice_rpc.Monitor.Correlate
use ice_rpc.Monitor.Correlate.{find}
use ice_rpc.Monitor.Metrics.{Metrics, Direction, empty_metrics, set_nodes_alive, add_node_crash}
use ice_rpc.Monitor.Collector.{Config, Monitor, Emitter, Sample}
use ice_rpc.Monitor.Collector.Samples.{process}
use ice_rpc.Monitor.Collector.Upkeep.{sweep, resolve_deferred, check_liveness, probe}
use ice_rpc.Monitor.Collector.Counted.{IsExact, sweep-IsExact}
use ice_rpc.Monitor.Collector.Exact.{process-IsExact}
use ice_rpc.Monitor.Collector.Replayed.{resolve_deferred-IsExact}

-- The state of `Monitor::new`, for a table of `max` calls with this time to live.
unfoldable pub new : ℕ → ℕ → Monitor
unfolding Correlate.new
new max ttl = record {
  metrics = empty_metrics;
  correlate = Correlate.new max ttl;
  loss = record { last = [] };
  deferred = [];
  traced = 0;
  trace = [];
  pids = [];
}

module _ (dec : Discrete (List ℕ)) (config : Config) where
  -- What one turn of the loop does to the state. A request carries an id that is not tracked.
  pub data Turn : Monitor → Monitor → Type 0 where
    sampled :
        (now : ℕ) (channel : Text) (direction : Direction) (header : RpcHeader) (emitter : Emitter)
        (sample : Sample) (o : Monitor)
        → (direction ≡ Direction.request
            → find dec header.correlation_id o.correlate.entries ≡ none)
        → Turn o (process dec config now channel direction header emitter sample o)
    resolved_deferred : (now : ℕ) (o : Monitor) → Turn o (resolve_deferred dec config now o)
    swept : (now : ℕ) (o : Monitor) → Turn o (sweep now o)
    probed : (is_pid_alive : ℕ → Bool) (o : Monitor) → Turn o (check_liveness is_pid_alive o)

  pub data Run : Monitor → Monitor → Type 0 where
    start : (o : Monitor) → Run o o
    turn : (o p q : Monitor) → Run o p → Turn p q → Run o q

  check_liveness-IsExact :
      (is_pid_alive : ℕ → Bool) (o : Monitor)
      → IsExact dec o
      → IsExact dec (check_liveness is_pid_alive o)
  unfolding check_liveness set_nodes_alive add_node_crash
  check_liveness-IsExact is_pid_alive o (d, exact) =
      (d, λ c s. ap (λ f. f c s) (go (ltb 0 (probe is_pid_alive o.pids).2)) ∙ exact c s)
    where
      m : Metrics
      m = set_nodes_alive (probe is_pid_alive o.pids).1 o.metrics

      go :
          (b : Bool)
          → (if b then add_node_crash (probe is_pid_alive o.pids).2 m else m).inflight
            ≡ o.metrics.inflight
      go true = refl
      go false = refl

  Turn-IsExact : (o q : Monitor) → Turn o q → IsExact dec o → IsExact dec q
  Turn-IsExact _ _ (sampled now channel direction header emitter sample o free) e =
      process-IsExact dec config now channel direction header emitter sample o free e
  Turn-IsExact _ _ (resolved_deferred now o) e = resolve_deferred-IsExact dec config now o e
  Turn-IsExact _ _ (swept now o) e = sweep-IsExact dec now o e
  Turn-IsExact _ _ (probed is_pid_alive o) e = check_liveness-IsExact is_pid_alive o e

  Run-IsExact : (o q : Monitor) → Run o q → IsExact dec o → IsExact dec q
  Run-IsExact _ _ (start o) e = e
  Run-IsExact _ _ (turn o p q run last) e = Turn-IsExact p q last (Run-IsExact o p run e)

  -- After any sequence of samples, deferred replays, sweeps and probes from a new monitor, in which
  -- no request carries the id of a call that is still tracked, the gauge of the calls in flight is,
  -- for every channel and service, the number of the calls that the table tracks, each id once.
  pub reachable-IsExact : (max ttl : ℕ) (q : Monitor) → Run (new max ttl) q → IsExact dec q
  unfolding new Correlate.new
  reachable-IsExact max ttl q run = Run-IsExact (new max ttl) q run (tt, λ c s. refl)
