-- ===== src/Monitor/Metrics.antt =====
-- ice-rpc-monitor/src/metrics.rs: the counters that the collector writes for observed samples. A
-- map is a function of its key, zero where the source's map has no entry; a
-- histogram is the list of what it was given. Counters do not reach their 64 bits.
use ice_rpc.Common.{ℕ, ◌+◌, ◌==◌, Bool, true, false, ◌&&◌, List, [], ◌∷◌, ◌++◌, if◌then◌else◌}
use ice_rpc.Common.Int.{ℤ, pos, ◌+ℤ◌}
use ice_rpc.Rx.Event.{Text}
use ice_rpc.Wire.Kind.{EventKind, as_u8}

abbrev pub same_text : Text → Text → Bool
same_text [] [] = true
same_text [] (b ∷ bs) = false
same_text (a ∷ as_) [] = false
same_text (a ∷ as_) (b ∷ bs) = (a == b) && same_text as_ bs

pub data Direction : Type 0 where
  request response : Direction

pub record Metrics : Type 0 where
  pub requests : Text → ℕ → Text → ℕ
  pub responses : Text → ℕ → EventKind → ℕ
  pub latency : List (Text × ℕ × Text × ℕ)
  pub payload : List (Text × Direction × ℕ)
  pub inflight : Text → ℕ → ℤ
  pub unmatched : Text → ℕ
  pub orphan : Text → ℕ
  pub sample_gaps : ℕ
  pub clock_skew : ℕ
  pub nodes_alive : ℕ
  pub node_crashes : ℕ

-- `Metrics::new`.
abbrev pub empty_metrics : Metrics
empty_metrics = record {
  requests = λ c s m. 0;
  responses = λ c s k. 0;
  latency = [];
  payload = [];
  inflight = λ c s. pos 0;
  unmatched = λ c. 0;
  orphan = λ c. 0;
  sample_gaps = 0;
  clock_skew = 0;
  nodes_alive = 0;
  node_crashes = 0;
}

abbrev pub is_key : Text → ℕ → Text → ℕ → Bool
is_key channel service_id c s = same_text c channel && (s == service_id)

abbrev pub add_one : Text → (Text → ℕ) → Text → ℕ
add_one channel counts c = if same_text c channel then counts c + 1 else counts c

unfoldable pub on_request : Text → ℕ → Text → Metrics → Metrics
on_request channel service_id method m = record m {
  requests = λ c s n.
      if is_key channel service_id c s && same_text n method
      then m.requests c s n + 1
      else m.requests c s n;
}

unfoldable pub on_response : Text → ℕ → EventKind → Metrics → Metrics
on_response channel service_id kind m = record m {
  responses = λ c s k.
      if is_key channel service_id c s && (as_u8 k == as_u8 kind)
      then m.responses c s k + 1
      else m.responses c s k;
}

-- The latency in nanoseconds, where the source divides by a billion.
unfoldable pub on_latency : Text → ℕ → Text → ℕ → Metrics → Metrics
on_latency channel service_id method ns m = record m {
  latency = m.latency ++ (channel, service_id, method, ns) ∷ [];
}

unfoldable pub on_payload : Text → Direction → ℕ → Metrics → Metrics
on_payload channel direction len m = record m {
  payload = m.payload ++ (channel, direction, len) ∷ [];
}

unfoldable pub on_inflight : Text → ℕ → ℤ → Metrics → Metrics
on_inflight channel service_id delta m = record m {
  inflight =
      λ c s. if is_key channel service_id c s then m.inflight c s +ℤ delta else m.inflight c s;
}

unfoldable pub on_unmatched_request : Text → Metrics → Metrics
on_unmatched_request channel m = record m { unmatched = add_one channel m.unmatched }

unfoldable pub on_orphan_response : Text → Metrics → Metrics
on_orphan_response channel m = record m { orphan = add_one channel m.orphan }

unfoldable pub on_sample_gap : ℕ → Metrics → Metrics
on_sample_gap missed m =
    if missed == 0 then m else record m { sample_gaps = m.sample_gaps + missed }

unfoldable pub on_clock_skew : Metrics → Metrics
on_clock_skew m = record m { clock_skew = m.clock_skew + 1 }

unfoldable pub set_nodes_alive : ℕ → Metrics → Metrics
set_nodes_alive alive m = record m { nodes_alive = alive }

unfoldable pub add_node_crash : ℕ → Metrics → Metrics
add_node_crash count m = record m { node_crashes = m.node_crashes + count }
