-- ===== src/Service/Shutdown/Awaited.antt =====
-- shutdown.rs: what a shutdown has waited for, over any sequence of registrations and joins.
use ice_rpc.Common.{ℕ, ◌≡◌, refl, ap, sym, ◌∙◌, List, [], ◌∷◌, ◌++◌, map, append_assoc, append-nil}
use ice_rpc.Service.Shutdown.{
  Waited, awaited, joined, ShutdownRegistry, register, register_thread, join_all,
}

pub data Call : Type 0 where
  task thread : ℕ → Call
  join : Call

-- The log of the waits, and the registry behind the calls.
pub run : List Call → List Waited × ShutdownRegistry → List Waited × ShutdownRegistry
unfolding register register_thread join_all
run [] p = p
run (task h ∷ calls) (log, r) = run calls (log, register h r)
run (thread h ∷ calls) (log, r) = run calls (log, register_thread h r)
run (join ∷ calls) (log, r) = let (count, waited, r') = join_all r in run calls (log ++ waited, r')

abbrev pub tasks_in : List Call → List ℕ
tasks_in [] = []
tasks_in (task h ∷ calls) = h ∷ tasks_in calls
tasks_in (thread h ∷ calls) = tasks_in calls
tasks_in (join ∷ calls) = tasks_in calls

abbrev pub threads_in : List Call → List ℕ
threads_in [] = []
threads_in (task h ∷ calls) = threads_in calls
threads_in (thread h ∷ calls) = h ∷ threads_in calls
threads_in (join ∷ calls) = threads_in calls

abbrev pub awaited_in : List Waited → List ℕ
awaited_in [] = []
awaited_in (awaited h ∷ log) = h ∷ awaited_in log
awaited_in (joined h ∷ log) = awaited_in log

abbrev pub joined_in : List Waited → List ℕ
joined_in [] = []
joined_in (awaited h ∷ log) = joined_in log
joined_in (joined h ∷ log) = h ∷ joined_in log

awaited_in-append :
    (front back : List Waited) → awaited_in (front ++ back) ≡ awaited_in front ++ awaited_in back
awaited_in-append [] back = refl
awaited_in-append (awaited h ∷ front) back = ap (◌∷◌ h) (awaited_in-append front back)
awaited_in-append (joined h ∷ front) back = awaited_in-append front back

joined_in-append :
    (front back : List Waited) → joined_in (front ++ back) ≡ joined_in front ++ joined_in back
joined_in-append [] back = refl
joined_in-append (awaited h ∷ front) back = joined_in-append front back
joined_in-append (joined h ∷ front) back = ap (◌∷◌ h) (joined_in-append front back)

awaited_in-tasks : (hs ts : List ℕ) → awaited_in (map awaited hs ++ map joined ts) ≡ hs
awaited_in-tasks [] [] = refl
awaited_in-tasks [] (t ∷ ts) = awaited_in-tasks [] ts
awaited_in-tasks (h ∷ hs) ts = ap (◌∷◌ h) (awaited_in-tasks hs ts)

joined_in-threads : (hs ts : List ℕ) → joined_in (map awaited hs ++ map joined ts) ≡ ts
joined_in-threads [] [] = refl
joined_in-threads [] (t ∷ ts) = ap (◌∷◌ t) (joined_in-threads [] ts)
joined_in-threads (h ∷ hs) ts = joined_in-threads hs ts

-- What was waited for and what still is to be: every handle that was registered, in order.
run-accounts :
    (calls : List Call) (log : List Waited) (r : ShutdownRegistry)
    → let (log', r') = run calls (log, r) in
      (awaited_in log' ++ r'.handles ≡ (awaited_in log ++ r.handles) ++ tasks_in calls)
      × (joined_in log' ++ r'.threads ≡ (joined_in log ++ r.threads) ++ threads_in calls)
unfolding run
run-accounts [] log r =
    (sym (append-nil (awaited_in log ++ r.handles)), sym (append-nil (joined_in log ++ r.threads)))
run-accounts (task h ∷ calls) log r =
    let (a, b) = run-accounts calls log (register h r) in (a ∙ simp append_assoc, b)
run-accounts (thread h ∷ calls) log r =
    let (a, b) = run-accounts calls log (register_thread h r) in (a, b ∙ simp append_assoc)
run-accounts (join ∷ calls) log r =
    let waited = map awaited r.handles ++ map joined r.threads in
    let (a, b) = run-accounts calls (log ++ waited) (record { handles = []; threads = [] }) in
    (
      a ∙ simp (awaited_in-append log waited, awaited_in-tasks r.handles r.threads, append-nil),
      b ∙ simp (joined_in-append log waited, joined_in-threads r.handles r.threads, append-nil),
    )

run-empties :
    (calls : List Call) (log : List Waited) (r : ShutdownRegistry)
    → (run (calls ++ join ∷ []) (log, r)).1 ≡ record { handles = []; threads = [] }
unfolding run
run-empties [] log r = refl
run-empties (task h ∷ calls) log r = run-empties calls log (register h r)
run-empties (thread h ∷ calls) log r = run-empties calls log (register_thread h r)
run-empties (join ∷ calls) log r =
    run-empties calls (log ++ (map awaited r.handles ++ map joined r.threads))
      (record { handles = []; threads = [] })

joined_last :
    (calls : List Call)
    → (tasks_in (calls ++ join ∷ []) ≡ tasks_in calls)
      × (threads_in (calls ++ join ∷ []) ≡ threads_in calls)
joined_last [] = (refl, refl)
joined_last (task h ∷ calls) = let (a, b) = joined_last calls in (ap (◌∷◌ h) a, b)
joined_last (thread h ∷ calls) = let (a, b) = joined_last calls in (a, ap (◌∷◌ h) b)
joined_last (join ∷ calls) = joined_last calls

-- After any registrations and joins, a last join has waited for each registered task and for each
-- registered thread exactly once, in the order of their registration, and leaves nothing behind.
pub join_all-awaits :
    (calls : List Call)
    → let (log, r) = run (calls ++ join ∷ []) ([], record { handles = []; threads = [] }) in
      (awaited_in log ≡ tasks_in calls)
      × (joined_in log ≡ threads_in calls)
      × (r ≡ record { handles = []; threads = [] })
join_all-awaits calls =
    let out = run (calls ++ join ∷ []) ([], record { handles = []; threads = [] }) in
    let (a, b) = run-accounts (calls ++ join ∷ []) [] (record { handles = []; threads = [] }) in
    let (tasks, threads) = joined_last calls in
    let empty = run-empties calls [] (record { handles = []; threads = [] }) in
    (
      sym (append-nil (awaited_in out.0))
          ∙ ap (λ r. awaited_in out.0 ++ r.handles) (sym empty)
          ∙ a
          ∙ tasks,
      sym (append-nil (joined_in out.0))
          ∙ ap (λ r. joined_in out.0 ++ r.threads) (sym empty)
          ∙ b
          ∙ threads,
      empty,
    )
