-- ===== src/Monitor/Collector/Replayed.antt =====
-- collector.rs: resolve_deferred keeps the gauge of the calls in flight exact.
use ice_rpc.Common.{
  ℕ, ◌-◌, ◌≡◌, refl, ◌∙◌, ap, Bool, true, false, Option, none, some, List, [], ◌∷◌, leb,
  if◌then◌else◌,
}
use ice_rpc.Rx.Event.{Text}
use ice_rpc.Wire.Kind.{is_terminal}
use ice_rpc.Wire.Header.{kind_of}
use ice_rpc.Monitor.Correlate.{Resolution, matched, unknown}
use ice_rpc.Monitor.Correlate.Distinct.{IsDistinct}
use ice_rpc.Monitor.Metrics.{Metrics}
use ice_rpc.Monitor.Collector.{
  Config, Monitor, Deferred, DeferredResponses, Waiting, orphan_grace, orphans,
}
use ice_rpc.Monitor.Collector.Upkeep.{
  expire, replay_sample, replay_samples, ready, replay_entry, replay_ready, resolve_deferred,
}
use ice_rpc.Monitor.Collector.Counted.{IsExact, orphans-inflight}
use ice_rpc.Monitor.Collector.Exact.{Pending, found-Pending, completed-IsExact}

expire-inflight : (now : ℕ) (ds : Deferred) (m : Metrics) → (expire now ds m).inflight ≡ m.inflight
unfolding expire
expire-inflight now [] m = refl
expire-inflight now ((cid, entry) ∷ ds) m =
    expire-inflight now ds _ ∙ go (leb orphan_grace (now - entry.since))
  where
    go : (b : Bool) → (if b then orphans entry.samples entry.channel m else m).inflight ≡ m.inflight
    go true = orphans-inflight entry.samples entry.channel m
    go false = refl

module _ (dec : Discrete (List ℕ)) where
  replay_sample-IsExact :
      (config : Config) (channel : Text) (w : Waiting) (found : Resolution) (o : Monitor)
      → IsDistinct dec o.correlate.entries
      → Pending dec (is_terminal (kind_of w.0)) found o
      → IsExact dec (replay_sample dec config channel w found o)
  unfolding replay_sample Pending
  replay_sample-IsExact config channel (header, emitter, sample) (matched call) o d h =
      completed-IsExact dec config channel header emitter sample call o d h
  replay_sample-IsExact config channel w unknown o d h = (d, h)

  replay_samples-IsExact :
      (config : Config) (cid : List ℕ) (channel : Text) (ws : List Waiting) (o : Monitor)
      → IsExact dec o
      → IsExact dec (replay_samples dec config cid channel ws o)
  unfolding replay_samples
  replay_samples-IsExact config cid channel [] o e = e
  replay_samples-IsExact config cid channel (w ∷ ws) o e =
      let (d, pending) = found-Pending dec cid (is_terminal (kind_of w.0)) o e in
      replay_samples-IsExact config cid channel ws _
        (replay_sample-IsExact config channel w _ _ d pending)

  replay_entry-IsExact :
      (config : Config) (cid : List ℕ) (entry : Option DeferredResponses) (o : Monitor)
      → IsExact dec o
      → IsExact dec (replay_entry dec config cid entry o)
  unfolding replay_entry
  replay_entry-IsExact config cid none o e = e
  replay_entry-IsExact config cid (some entry) o e =
      replay_samples-IsExact config cid entry.channel entry.samples _ e

  replay_ready-IsExact :
      (config : Config) (cids : List (List ℕ)) (o : Monitor)
      → IsExact dec o
      → IsExact dec (replay_ready dec config cids o)
  unfolding replay_ready
  replay_ready-IsExact config [] o e = e
  replay_ready-IsExact config (cid ∷ cids) o e =
      replay_ready-IsExact config cids _ (replay_entry-IsExact config cid _ o e)

  -- The replay of the responses that waited, and the expiry of those whose request never came, keep
  -- the gauge of the calls in flight equal to the number of the calls that the table tracks.
  pub resolve_deferred-IsExact :
      (config : Config) (now : ℕ) (o : Monitor)
      → IsExact dec o
      → IsExact dec (resolve_deferred dec config now o)
  unfolding resolve_deferred
  resolve_deferred-IsExact config now o e =
      let o' : Monitor = replay_ready dec config (ready dec o.correlate o.deferred) o in
      let (d, exact) = replay_ready-IsExact config (ready dec o.correlate o.deferred) o e in
      (d, λ c s. ap (λ f. f c s) (expire-inflight now o'.deferred o'.metrics) ∙ exact c s)
