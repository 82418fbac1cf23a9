-- ===== src/Monitor/Health/Paced.antt =====
-- health.rs: which scans are made, and what the snapshot says of them.
use ice_rpc.Common.{
  ℕ, ◌+◌, ◌-◌, ◌≤◌, ◌≡◌, refl, ap, ◌∙◌, arith, Bool, true, false, Option, none, some, List, [], ◌∷◌,
  length, if◌then◌else◌,
}
use ice_rpc.Monitor.Health.{
  NodeInfo, Scanner, Report, HealthSnapshot, new, take_nodes, refresh, refresh_if_due, is_early,
}

-- The scans that are made when the scanner is asked at these instants, and the scanner behind them.
abbrev pub add_scan : ℕ × Report → Bool → List (ℕ × Report) × Scanner → List (ℕ × Report) × Scanner
add_scan ask true (scans, s) = (ask ∷ scans, s)
add_scan ask false (scans, s) = (scans, s)

pub run : List (ℕ × Report) → Scanner → List (ℕ × Report) × Scanner
unfolding refresh_if_due
run [] s = ([], s)
run ((now, report) ∷ asks) s =
    let (made, s') = refresh_if_due now report s in add_scan (now, report) made (run asks s')

-- From the last scan on, each is an interval behind the one before it.
abbrev pub Spaced : ℕ → Option ℕ → List (ℕ × Report) → Type 0
Spaced interval last [] = Unit
Spaced interval none ((now, report) ∷ scans) = Spaced interval (some now) scans
Spaced interval (some p) ((now, report) ∷ scans) =
    (interval ≤ now - p) × Spaced interval (some now) scans

abbrev pub failed : Option (List NodeInfo) → ℕ
failed none = 1
failed (some nodes) = 0

abbrev pub or_known : Option (List NodeInfo) → List NodeInfo → List NodeInfo
or_known none nodes = nodes
or_known (some nodes) known = nodes

-- How many scans could not list the nodes, and what the last that could has listed.
abbrev pub inconclusive : List (ℕ × Report) → ℕ
inconclusive [] = 0
inconclusive ((now, report) ∷ scans) = failed report.list_nodes + inconclusive scans

abbrev pub known : List NodeInfo → List (ℕ × Report) → List NodeInfo
known nodes [] = nodes
known nodes ((now, report) ∷ scans) = known (or_known report.list_nodes nodes) scans

-- What the snapshot `t` says, beside what `s` says, when these scans lie between them.
abbrev pub Tells : HealthSnapshot → List (ℕ × Report) → HealthSnapshot → Type 0
Tells s scans t =
    (t.scans ≡ s.scans + length scans)
    × (t.errors ≡ s.errors + inconclusive scans)
    × (t.nodes ≡ known s.nodes scans)

take_nodes-fields :
    (o : Option (List NodeInfo)) (s : HealthSnapshot)
    → ((take_nodes o s).scans ≡ s.scans)
      × ((take_nodes o s).errors ≡ s.errors + failed o)
      × ((take_nodes o s).nodes ≡ or_known o s.nodes)
take_nodes-fields none s = (refl, refl, refl)
take_nodes-fields (some nodes) s = (refl, omega arith, refl)

Tells-refresh :
    (now : ℕ) (report : Report) (s : Scanner) (scans : List (ℕ × Report)) (t : HealthSnapshot)
    → Tells (refresh report (record s { last = some now })).snapshot scans t
    → Tells s.snapshot ((now, report) ∷ scans) t
unfolding refresh
Tells-refresh now report s scans t (a, b, c) =
    let counted : HealthSnapshot = record s.snapshot { scans = s.snapshot.scans + 1 } in
    let (x, y, z) = take_nodes-fields report.list_nodes counted in
    (omega (arith, a, x), omega (arith, b, y), c ∙ ap (λ n. known n scans) z)

is_early-Spaced :
    (now interval : ℕ) (report : Report) (last : Option ℕ) (scans : List (ℕ × Report))
    → is_early now interval last ≡ false
    → Spaced interval (some now) scans
    → Spaced interval last ((now, report) ∷ scans)
is_early-Spaced now interval report none scans h rest = rest
is_early-Spaced now interval report (some p) scans h rest = (ground arith, rest)

-- What is said of a run from `s`.
abbrev Told : Scanner → List (ℕ × Report) × Scanner → Type 0
Told s (scans, s') = Spaced s.interval s.last scans × Tells s.snapshot scans s'.snapshot

run-Told : (asks : List (ℕ × Report)) (s : Scanner) → Told s (run asks s)
unfolding run refresh_if_due refresh
run-Told [] s = (tt, (omega arith, omega arith, refl))
run-Told ((now, report) ∷ asks) s =
    go (is_early now s.interval s.last) refl (run-Told asks s)
      (run-Told asks (refresh report (record s { last = some now })))
  where
    scanned : Scanner
    scanned = refresh report (record s { last = some now })

    go :
        (early : Bool)
        → is_early now s.interval s.last ≡ early
        → Told s (run asks s)
        → Told scanned (run asks scanned)
        → Told s (
            let r : Bool × Scanner = if early then (false, s) else (true, scanned) in
            add_scan (now, report) r.0 (run asks r.1))
    go true e kept scan = kept
    go false e kept (spaced, tells) = (
      is_early-Spaced now s.interval report s.last (run asks scanned).0 e spaced,
      Tells-refresh now report s (run asks scanned).0 (run asks scanned).1.snapshot tells,
    )

-- A new scanner, however often it is asked and whatever each scan finds: two scans are never closer
-- than the interval; the snapshot counts all of them, counts those that could not list the nodes as
-- errors, and shows the nodes of the last one that could.
pub refresh_if_due-Spaced :
    (asks : List (ℕ × Report)) (interval cpus : ℕ) (shm_enabled system : Bool)
    → let (scans, s) = run asks (new interval shm_enabled cpus system) in
      Spaced interval none scans
      × (s.snapshot.scans ≡ length scans)
      × (s.snapshot.errors ≡ inconclusive scans)
      × (s.snapshot.nodes ≡ known [] scans)
unfolding new
refresh_if_due-Spaced asks interval cpus shm_enabled system =
    let (spaced, (a, b, c)) = run-Told asks (new interval shm_enabled cpus system) in
    (spaced, omega (arith, a), omega (arith, b), c)
