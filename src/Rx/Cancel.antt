-- ===== src/Rx/Cancel.antt =====
-- ice-rpc-rx/src/rt/cancel.rs: the cancellation token. A waker is the number of the task that it
-- wakes. `cancel` and `poll_cancelled` are cut into their atomic steps: each read or swap of the
-- flag and each critical section of the waker list, which other threads may come between.
pub mod Reachable
pub mod Steps
pub mod Wakeup
pub mod Cached
use ice_rpc.Common.{
  ℕ, ◌==◌, Bool, true, false, ◌||◌, Option, none, some, List, [], ◌∷◌, ◌++◌, if◌then◌else◌,
}

-- How far a task is in its call of `poll_cancelled`; `parked` is behind a `Pending`, `resolved`
-- behind a `Ready`.
pub data Phase : Type 0 where
  idle checked registered parked resolved : Phase

pub record Token : Type 0 where
  pub cancelled : Bool
  pub wakers : List ℕ
  -- The call of `cancel` that swapped the flag has yet to take the wakers.
  pub taking : Bool
  -- What that call took and has yet to wake, and whom it woke.
  pub to_wake : List ℕ
  pub woken : List ℕ
  pub phase : ℕ → Phase

pub data Action : Type 0 where
  swap : Action
  take_wakers : Action
  wake_one : Action
  read_flag : ℕ → Action
  register : ℕ → Action
  read_again : ℕ → Action

unfoldable pub new : Token
new = record {
  cancelled = false;
  wakers = [];
  taking = false;
  to_wake = [];
  woken = [];
  phase = λ t. idle;
}

unfoldable pub has : List ℕ → ℕ → Bool
has [] t = false
has (w ∷ ws) t = (w == t) || has ws t

abbrev pub enter : (ℕ → Phase) → ℕ → Phase → ℕ → Phase
enter phase t p u = if t == u then p else phase u

-- The wakers after a registration, at most one for each task.
unfoldable pub with_waker : ℕ → List ℕ → List ℕ
unfolding has
with_waker t ws = if has ws t then ws else ws ++ t ∷ []

pub wake_head : List ℕ → Token → Token
wake_head [] k = k
wake_head (t ∷ ts) k = record k { to_wake = ts; woken = t ∷ k.woken }

-- A task polls from `idle`, and polls again after a `Pending`.
pub first_read : Phase → ℕ → Token → Token
first_read idle t k = record k {
  phase = enter k.phase t (if k.cancelled then resolved else checked);
}
first_read parked t k = record k {
  phase = enter k.phase t (if k.cancelled then resolved else checked);
}
first_read checked t k = k
first_read registered t k = k
first_read resolved t k = k

pub do_register : Phase → ℕ → Token → Token
unfolding with_waker
do_register checked t k = record k {
  wakers = with_waker t k.wakers;
  phase = enter k.phase t registered;
}
do_register idle t k = k
do_register registered t k = k
do_register parked t k = k
do_register resolved t k = k

pub second_read : Phase → ℕ → Token → Token
second_read registered t k = record k {
  phase = enter k.phase t (if k.cancelled then resolved else parked);
}
second_read idle t k = k
second_read checked t k = k
second_read parked t k = k
second_read resolved t k = k

-- A step that its thread is not at does nothing.
unfoldable pub act : Action → Token → Token
unfolding wake_head first_read do_register second_read
act swap k = if k.cancelled then k else record k { cancelled = true; taking = true }
act take_wakers k =
    if k.taking then record k { wakers = []; to_wake = k.wakers; taking = false } else k
act wake_one k = wake_head k.to_wake k
act (read_flag t) k = first_read (k.phase t) t k
act (register t) k = do_register (k.phase t) t k
act (read_again t) k = second_read (k.phase t) t k

unfoldable pub run : List Action → Token → Token
unfolding act
run [] k = k
run (a ∷ actions) k = run actions (act a k)

-- The whole of `poll_cancelled`, with no other thread between its steps: whether it is ready, and
-- the wakers behind it.
unfoldable pub poll_cancelled : Bool → ℕ → List ℕ → Bool × List ℕ
unfolding with_waker
poll_cancelled cancelled t ws = if cancelled then (true, ws) else (cancelled, with_waker t ws)

abbrev pub is_cached : Option ℕ → ℕ → Bool
is_cached none t = false
is_cached (some w) t = w == t

pub cache_unless : ℕ → Option ℕ → Bool × List ℕ → Bool × List ℕ × Option ℕ
cache_unless t cached (true, ws) = (true, ws, cached)
cache_unless t cached (false, ws) = (false, ws, some t)

-- `poll_cancelled_cached`, with the caller's cache of the waker that it cached.
unfoldable pub poll_cancelled_cached : Bool → ℕ → List ℕ → Option ℕ → Bool × List ℕ × Option ℕ
unfolding poll_cancelled cache_unless
poll_cancelled_cached cancelled t ws cached =
    if cancelled
    then (true, ws, cached)
    else if is_cached cached t
    then (false, ws, cached)
    else cache_unless t cached (poll_cancelled cancelled t ws)
