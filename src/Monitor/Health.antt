-- ===== src/Monitor/Health.antt =====
-- ice-rpc-monitor/src/health.rs: the throttled scan of the machine, and the walk over its shared
-- memory. What the operating system and iceoryx2 report at a scan is a `Report`; a directory is what
-- reading it finds.
pub mod Paced
pub mod Walked
use ice_rpc.Common.{
  ℕ, ◌+◌, ◌-◌, ◌==◌, ltb, Bool, true, false, ◌&&◌, Option, none, some, List, [], ◌∷◌, length, drop,
  if◌then◌else◌,
}
use ice_rpc.Rx.Event.{Text}

-- ice-rpc/src/monitor/inventory.rs: what iceoryx2 tells of its files, and of a node.
pub record Iceoryx2Layout : Type 0 where
  pub root_path : Text
  pub service_dir : Text
  pub node_dir : Text
  pub prefix : Text
  pub data_segment_suffix : Text

pub data NodeHealth : Type 0 where
  alive dead inaccessible undefined : NodeHealth

pub record NodeInfo : Type 0 where
  pub pid : ℕ
  pub health : NodeHealth
  pub executable : Option Text
  pub name : Option Text

pub record ShmFootprint : Type 0 where
  pub bytes : ℕ
  pub segments : ℕ
  pub files : ℕ

-- The entries of a directory that are left to read. A directory that cannot be read has none.
pub data Entries : Type 0 where
  no_more : Entries
  file : Text → ℕ → Entries → Entries
  directory : Entries → Entries → Entries
  unreadable : Entries → Entries
  no_metadata : Entries → Entries

-- What the system tells of a process; its usage of a core is in one unit.
pub record Process : Type 0 where
  pub name : Text
  pub cpu_usage : ℕ
  pub memory : ℕ
  pub virtual_memory : ℕ
  pub run_time : ℕ

-- The usage over every core is the quotient of the two numbers.
pub record ProcessMetrics : Type 0 where
  pub pid : ℕ
  pub name : Text
  pub cpu_percent : ℕ
  pub cpu_percent_total : ℕ × ℕ
  pub rss_bytes : ℕ
  pub virtual_bytes : ℕ
  pub run_time_secs : ℕ

pub record HealthSnapshot : Type 0 where
  pub nodes : List NodeInfo
  pub layout : Option Iceoryx2Layout
  pub shm : Option ShmFootprint
  pub processes : List ProcessMetrics
  pub cpu_count : ℕ
  pub scans : ℕ
  pub errors : ℕ

pub record Scanner : Type 0 where
  pub interval : ℕ
  pub shm_enabled : Bool
  pub cpu_count : ℕ
  pub last : Option ℕ
  -- Whether the system can be asked for processes.
  pub system : Bool
  pub snapshot : HealthSnapshot

-- What a scan finds: the nodes, if they can be listed, the layout, the roots of the walk, and the
-- processes that run, by their pid.
pub record Report : Type 0 where
  pub list_nodes : Option (List NodeInfo)
  pub iceoryx2_layout : Iceoryx2Layout
  pub roots : List (Option Entries)
  pub process : ℕ → Option Process

abbrev pub empty_snapshot : HealthSnapshot
empty_snapshot = record {
  nodes = [];
  layout = none;
  shm = none;
  processes = [];
  cpu_count = 0;
  scans = 0;
  errors = 0;
}

unfoldable pub new : ℕ → Bool → ℕ → Bool → Scanner
new interval shm_enabled cpus system = record {
  interval = interval;
  shm_enabled = shm_enabled;
  cpu_count = cpus;
  last = none;
  system = system;
  snapshot = empty_snapshot;
}

unfoldable pub starts_with : Text → Text → Bool
starts_with name [] = true
starts_with [] (p ∷ prefix) = false
starts_with (n ∷ name) (p ∷ prefix) = (n == p) && starts_with name prefix

unfoldable pub ends_with : Text → Text → Bool
unfolding starts_with
ends_with name suffix =
    if ltb (length name) (length suffix)
    then false
    else starts_with (drop (length name - length suffix) name) suffix

abbrev pub max_walk_depth : ℕ
max_walk_depth = 8

unfoldable pub count_file : Iceoryx2Layout → Text → ℕ → ShmFootprint → ShmFootprint
unfolding starts_with ends_with
count_file layout name len out =
    if starts_with name layout.prefix
    then (if ends_with name layout.data_segment_suffix
        then record { bytes = out.bytes + len; segments = out.segments + 1; files = out.files + 1 }
        else record out { files = out.files + 1 })
    else out

-- A directory is read unless it lies too deep.
abbrev pub unless_deep : ℕ → ShmFootprint → ShmFootprint → ShmFootprint
unless_deep depth out inside = if ltb max_walk_depth depth then out else inside

-- The loop over the entries of a directory at this depth.
unfoldable pub walk_entries : Entries → Iceoryx2Layout → ShmFootprint → ℕ → ShmFootprint
unfolding count_file
walk_entries no_more layout out depth = out
walk_entries (no_metadata rest) layout out depth = walk_entries rest layout out depth
walk_entries (unreadable rest) layout out depth = walk_entries rest layout out depth
walk_entries (directory inside rest) layout out depth =
    let below = unless_deep (depth + 1) out (walk_entries inside layout out (depth + 1)) in
    walk_entries rest layout below depth
walk_entries (file name len rest) layout out depth =
    walk_entries rest layout (count_file layout name len out) depth

unfoldable pub walk : Option Entries → Iceoryx2Layout → ShmFootprint → ℕ → ShmFootprint
unfolding walk_entries
walk none layout out depth = out
walk (some entries) layout out depth = unless_deep depth out (walk_entries entries layout out depth)

unfoldable pub walk_roots : List (Option Entries) → Iceoryx2Layout → ShmFootprint → ShmFootprint
unfolding walk
walk_roots [] layout out = out
walk_roots (root ∷ roots) layout out = walk_roots roots layout (walk root layout out 0)

unfoldable pub scan_shm : List (Option Entries) → Iceoryx2Layout → ShmFootprint
unfolding walk_roots
scan_shm roots layout = walk_roots roots layout (record { bytes = 0; segments = 0; files = 0 })

abbrev pub metrics_of : ℕ → ℕ → Process → ProcessMetrics
metrics_of cpus pid p = record {
  pid = pid;
  name = p.name;
  cpu_percent = p.cpu_usage;
  cpu_percent_total = (p.cpu_usage, (if cpus == 0 then 1 else cpus));
  rss_bytes = p.memory;
  virtual_bytes = p.virtual_memory;
  run_time_secs = p.run_time;
}

abbrev pub with_metrics : ℕ → ℕ → Option Process → List ProcessMetrics → List ProcessMetrics
with_metrics cpus pid none rest = rest
with_metrics cpus pid (some p) rest = metrics_of cpus pid p ∷ rest

-- `filter_map` over the nodes.
unfoldable pub processes_of : ℕ → (ℕ → Option Process) → List NodeInfo → List ProcessMetrics
processes_of cpus process [] = []
processes_of cpus process (node ∷ nodes) =
    with_metrics cpus node.pid (process node.pid) (processes_of cpus process nodes)

unfoldable pub refresh_processes :
    Bool → ℕ → (ℕ → Option Process) → List NodeInfo → List ProcessMetrics
unfolding processes_of
refresh_processes false cpus process nodes = []
refresh_processes true cpus process nodes = processes_of cpus process nodes

-- The nodes of the last conclusive scan, and the errors.
abbrev pub take_nodes : Option (List NodeInfo) → HealthSnapshot → HealthSnapshot
take_nodes (some nodes) s = record s { nodes = nodes }
take_nodes none s = record s { errors = s.errors + 1 }

unfoldable pub refresh : Report → Scanner → Scanner
unfolding scan_shm refresh_processes
refresh report scanner =
    let counted = record scanner.snapshot { scans = scanner.snapshot.scans + 1 } in
    let listed : HealthSnapshot = take_nodes report.list_nodes counted in
    record scanner {
      snapshot = record listed {
        shm =
            if scanner.shm_enabled
            then some (scan_shm report.roots report.iceoryx2_layout)
            else listed.shm;
        layout = some report.iceoryx2_layout;
        cpu_count = scanner.cpu_count;
        processes = refresh_processes scanner.system scanner.cpu_count report.process listed.nodes;
      };
    }

-- `duration_since` stops at zero.
abbrev pub is_early : ℕ → ℕ → Option ℕ → Bool
is_early now interval none = false
is_early now interval (some last) = ltb (now - last) interval

unfoldable pub refresh_if_due : ℕ → Report → Scanner → Bool × Scanner
unfolding refresh
refresh_if_due now report scanner =
    if is_early now scanner.interval scanner.last
    then (false, scanner)
    else (true, refresh report (record scanner { last = some now }))
