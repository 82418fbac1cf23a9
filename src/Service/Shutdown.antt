-- ===== src/Service/Shutdown.antt =====
-- ice-rpc/src/shutdown.rs: what a process waits for and drops when it ends. A handle is the number
-- of its task or thread; what a wait does is left in the log of what was awaited.
pub mod Awaited
use ice_rpc.Common.{ℕ, ◌+◌, ltb, List, [], ◌∷◌, ◌++◌, map, length, if◌then◌else◌}

pub data Waited : Type 0 where
  -- A task of the runtime was awaited, or a thread joined.
  awaited : ℕ → Waited
  joined : ℕ → Waited

pub record ShutdownRegistry : Type 0 where
  pub handles : List ℕ
  pub threads : List ℕ

unfoldable pub new : ShutdownRegistry
new = record { handles = []; threads = [] }

unfoldable pub register : ℕ → ShutdownRegistry → ShutdownRegistry
register handle r = record r { handles = r.handles ++ handle ∷ [] }

unfoldable pub register_thread : ℕ → ShutdownRegistry → ShutdownRegistry
register_thread handle r = record r { threads = r.threads ++ handle ∷ [] }

-- How many were awaited, which and in what order, and what is left.
unfoldable pub join_all : ShutdownRegistry → ℕ × List Waited × ShutdownRegistry
join_all r = (
  length r.handles + length r.threads,
  map awaited r.handles ++ map joined r.threads,
  record { handles = []; threads = [] },
)

-- The resources of the process that iceoryx2 is to clean up, dropped in the order of the list.
unfoldable pub register_ipc_cleanup : ℕ → List ℕ → List ℕ
register_ipc_cleanup resource resources = resources ++ resource ∷ []

unfoldable pub clear_ipc_cleanup : List ℕ → List ℕ × List ℕ
clear_ipc_cleanup resources = (resources, [])
