-- ===== src/Wire/Kind.antt =====
-- ice-rpc/src/types/header.rs: the kind of a sample, and its wire byte.
use ice_rpc.Common.{ℕ, Bool, true, false, ◌==◌, if◌then◌else◌}

pub data EventKind : Type 0 where
  request next complete error rpc_error cancel : EventKind

pub EventKind-discrete : Discrete EventKind
EventKind-discrete = hlevel

unfoldable pub is_terminal : EventKind → Bool
is_terminal complete = true
is_terminal error = true
is_terminal rpc_error = true
is_terminal _ = false

unfoldable pub as_u8 : EventKind → ℕ
as_u8 request = 0
as_u8 next = 1
as_u8 complete = 2
as_u8 error = 3
as_u8 rpc_error = 4
as_u8 cancel = 5

unfoldable pub from_u8 : ℕ → EventKind
from_u8 value =
    if value == 0
    then request
    else if value == 1
    then next
    else if value == 2
    then complete
    else if value == 3
    then error
    else if value == 4
    then rpc_error
    else if value == 5
    then cancel
    else error
