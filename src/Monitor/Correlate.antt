-- ===== src/Monitor/Correlate.antt =====
-- ice-rpc-monitor/src/correlate.rs: the table that pairs the requests seen with their responses.
-- A correlation id is any type with decidable equality. The map is the list of its entries in the
-- order in which its iterator yields them; an instant is a number of nanoseconds.
pub mod Distinct
pub mod Bounded
pub mod Lifecycle
use mathlib.Core.Logic.{ite}
use ice_rpc.Common.{
  ℕ, ◌-◌, Bool, true, false, Option, none, some, List, [], ◌∷◌, ltb, leb, length, if◌then◌else◌,
}
use ice_rpc.Rx.Event.{Text}

pub record PendingCall : Type 0 where
  pub channel : Text
  pub service_id : ℕ  -- u32
  pub method : Text
  pub request_ts_ns : ℕ  -- u64
  pub request_bytes : ℕ  -- usize
  pub request_text : Option Text
  pub first_response_seen : Bool
  pub started : ℕ  -- Instant

-- `PendingCall::new`, at the instant `now`.
unfoldable pub new_call : ℕ → Text → ℕ → Text → ℕ → ℕ → Option Text → PendingCall
new_call now channel service_id method request_ts_ns request_bytes request_text = record {
  channel = channel;
  service_id = service_id;
  method = method;
  request_ts_ns = request_ts_ns;
  request_bytes = request_bytes;
  request_text = request_text;
  first_response_seen = false;
  started = now;
}

-- An instant that is not in the past has no age.
abbrev pub age : ℕ → PendingCall → ℕ
age now call = now - call.started

pub data Resolution : Type 0 where
  matched : PendingCall → Resolution
  unknown : Resolution

module _ (K : Type 0) where
  pub record Correlate : Type 0 where
    pub entries : List (K × PendingCall)
    pub max : ℕ
    pub ttl : ℕ

unfoldable pub new : {K : Type 0} → ℕ → ℕ → Correlate K
new max ttl = record { entries = []; max = max; ttl = ttl }

module _ {K : Type 0} where
  -- `min_by_key` on `started`: the first of the calls that started least.
  abbrev pub older : K × PendingCall → List (K × PendingCall) → K × PendingCall
  older e [] = e
  older e (f ∷ es) = older (if ltb f.1.started e.1.started then f else e) es

  unfoldable pub len : Correlate K → ℕ
  len t = length t.entries

  -- The calls that `retain` removes, and those that it keeps.
  abbrev pub expired : ℕ → ℕ → List (K × PendingCall) → List PendingCall
  expired now ttl [] = []
  expired now ttl ((cid, call) ∷ es) =
      let rest = expired now ttl es in if leb ttl (age now call) then call ∷ rest else rest

  abbrev pub retained : ℕ → ℕ → List (K × PendingCall) → List (K × PendingCall)
  retained now ttl [] = []
  retained now ttl ((cid, call) ∷ es) =
      let rest = retained now ttl es in if leb ttl (age now call) then rest else (cid, call) ∷ rest

  unfoldable pub sweep : ℕ → Correlate K → List PendingCall × Correlate K
  sweep now t = (expired now t.ttl t.entries, record t { entries = retained now t.ttl t.entries })

module _ {K : Type 0} (dec : Discrete K) where
  abbrev pub find : K → List (K × PendingCall) → Option PendingCall
  find cid [] = none
  find cid ((k, call) ∷ es) = ite (dec k cid) (some call) (find cid es)

  abbrev pub remove : K → List (K × PendingCall) → List (K × PendingCall)
  remove cid [] = []
  remove cid ((k, call) ∷ es) = let rest = remove cid es in ite (dec k cid) rest ((k, call) ∷ rest)

  abbrev pub put : K → PendingCall → List (K × PendingCall) → List (K × PendingCall)
  put cid new [] = (cid, new) ∷ []
  put cid new ((k, call) ∷ es) =
      let rest = put cid new es in ite (dec k cid) ((k, new) ∷ es) ((k, call) ∷ rest)

  abbrev pub holds : Option PendingCall → Bool
  holds none = false
  holds (some call) = true

  unfoldable pub contains : K → Correlate K → Bool
  contains cid t = holds (find cid t.entries)

  abbrev pub evict :
      K → Option PendingCall → List (K × PendingCall) → List PendingCall × List (K × PendingCall)
  evict oldest none es = ([], es)
  evict oldest (some call) es = (call ∷ [], remove oldest es)

  -- The room that `insert` makes: nothing to do in a map that is empty.
  abbrev pub make_room : List (K × PendingCall) → List PendingCall × List (K × PendingCall)
  make_room [] = ([], [])
  make_room (e ∷ es) =
      let (oldest, call) = older e es in evict oldest (find oldest (e ∷ es)) (e ∷ es)

  unfoldable pub insert : K → PendingCall → Correlate K → List PendingCall × Correlate K
  insert cid call t =
      let (evicted, entries) : List PendingCall × List (K × PendingCall) =
        if leb t.max (length t.entries) then make_room t.entries else ([], t.entries) in
      (evicted, record t { entries = put cid call entries })

  abbrev pub resolve : Option PendingCall → K → Bool → Correlate K → Resolution × Correlate K
  resolve none cid terminal t = (unknown, t)
  resolve (some call) cid true t = (matched call, record t { entries = remove cid t.entries })
  resolve (some call) cid false t = (
    matched call,
    record t { entries = put cid (record call { first_response_seen = true }) t.entries },
  )

  unfoldable pub on_response : K → Bool → Correlate K → Resolution × Correlate K
  on_response cid terminal t = resolve (find cid t.entries) cid terminal t
