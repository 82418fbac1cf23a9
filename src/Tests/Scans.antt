-- ===== src/Tests/Scans.antt =====
-- Runs of the observer's histograms, its trace sink and its scans.
use ice_rpc.Common.{arith, ℕ, ◌≡◌, true, Option, none, some, List, [], ◌∷◌, map, length, ◌⊎◌}
use ice_rpc.Rx.Subject.Replay.{last_values}
use ice_rpc.Monitor.Histogram.{Upper, quantile, merge}
use ice_rpc.Monitor.Histogram.Counted.{observed, joined}
use ice_rpc.Monitor.Histogram.Quantile.{IsQuantile, quantile-IsQuantile}
use ice_rpc.Monitor.Traces.{sent, full, memory, drop_sink, recent_keep}
use ice_rpc.Monitor.Traces.Kept.{Step, emits, writes, run, accepted, drop_sink-recent}
use ice_rpc.Monitor.Health.{
  NodeInfo, alive, Report, Iceoryx2Layout, Entries, no_more, file, directory, scan_shm, new,
}
use ice_rpc.Monitor.Health.Walked.{own_files, segments_of, size_of, files_under, scan_shm-Counts}
use ice_rpc.Monitor.Health.Paced.{Spaced, inconclusive, known, refresh_if_due-Spaced}
use ice_rpc.Monitor.Health.Paced

abbrev bounds : List ℕ
bounds = 16 ∷ 64 ∷ 256 ∷ []

abbrev two_channels : List (List ℕ)
two_channels = (10 ∷ 20 ∷ []) ∷ (300 ∷ []) ∷ []

quantile-IsQuantile_example :
    ((joined two_channels ≡ [])
      × (quantile (merge (map (observed bounds) two_channels) bounds) bounds 90 100 ≡ none))
    ⊎ ((u : Upper) × (quantile (merge (map (observed bounds) two_channels) bounds) bounds 90 100
          ≡ some u)
        × IsQuantile 90 100 bounds (joined two_channels) u)
quantile-IsQuantile_example = quantile-IsQuantile bounds two_channels 90 100 (omega arith)

abbrev steps : List Step
steps = emits (1 ∷ []) sent ∷ emits (2 ∷ []) full ∷ writes ∷ emits (3 ∷ []) sent ∷ []

drop_sink-recent_example :
    let s = drop_sink (run steps memory) in
    (s.recent ≡ last_values recent_keep (accepted steps))
    × (s.dropped ≡ 1)
    × (s.queue ≡ [])
    × (s.is_joined ≡ true)
drop_sink-recent_example = drop_sink-recent steps

abbrev layout : Iceoryx2Layout
layout = record {
  root_path = [];
  service_dir = [];
  node_dir = [];
  prefix = 7 ∷ [];
  data_segment_suffix = 9 ∷ [];
}

abbrev root : Entries
root =
    file (7 ∷ 9 ∷ []) 4096 (directory (file (7 ∷ 8 ∷ []) 10 no_more) (file (1 ∷ 9 ∷ []) 5 no_more))

scan_shm-Counts_example :
    let files = own_files layout (files_under (some root ∷ none ∷ [])) in
    let segments = segments_of layout files in
    let footprint = scan_shm (some root ∷ none ∷ []) layout in
    (footprint.bytes ≡ size_of segments)
    × (footprint.segments ≡ length segments)
    × (footprint.files ≡ length files)
scan_shm-Counts_example = scan_shm-Counts (some root ∷ none ∷ []) layout

abbrev node_of : ℕ → NodeInfo
node_of pid = record { pid = pid; health = alive; executable = none; name = none }

abbrev report_of : Option (List NodeInfo) → Report
report_of nodes = record {
  list_nodes = nodes;
  iceoryx2_layout = layout;
  roots = [];
  process = λ pid. none;
}

abbrev asks : List (ℕ × Report)
asks =
    (1000, report_of (some (node_of 11 ∷ node_of 12 ∷ [])))
    ∷ (1200, report_of (some []))
    ∷ (2500, report_of none)
    ∷ []

refresh_if_due-Spaced_example :
    let (scans, s) = Paced.run asks (new 1000 true 8 true) in
    Spaced 1000 none scans
    × (s.snapshot.scans ≡ length scans)
    × (s.snapshot.errors ≡ inconclusive scans)
    × (s.snapshot.nodes ≡ known [] scans)
refresh_if_due-Spaced_example = refresh_if_due-Spaced asks 1000 8 true true
