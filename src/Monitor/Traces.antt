-- ===== src/Monitor/Traces.antt =====
-- ice-rpc-monitor/src/traces.rs: the sink of the rendered trace records. The bounded queue and its
-- writer thread are the standard library's; what `try_send` answers stands in the schedule.
pub mod Kept
use ice_rpc.Common.{
  ℕ, suc, ◌+◌, leb, Bool, true, false, Option, none, some, List, [], ◌∷◌, ◌++◌, length,
  if◌then◌else◌,
}
use ice_rpc.Rx.Event.{Text}

abbrev pub recent_keep : ℕ
recent_keep = 10

-- What `try_send` answers.
pub data TrySend : Type 0 where
  sent full disconnected : TrySend

-- The sink of `TraceSink::memory` with its queue and its buffer; `is_open` is the presence of the
-- sender, and `is_joined` says that the writer thread was joined.
pub record TraceSink : Type 0 where
  pub is_open : Bool
  pub dropped : ℕ
  pub queue : List Text
  pub recent : List Text
  pub is_joined : Bool

unfoldable pub memory : TraceSink
memory = record { is_open = true; dropped = 0; queue = []; recent = []; is_joined = false }

abbrev pub drop_first : List Text → List Text
drop_first [] = []
drop_first (line ∷ lines) = lines

-- The closure that the writer of a memory sink applies to a line.
unfoldable pub keep : Text → List Text → List Text
keep line recent =
    (if leb recent_keep (length recent) then drop_first recent else recent) ++ line ∷ []

abbrev pub sent_as : TrySend → Text → TraceSink → TraceSink
sent_as sent line s = record s { queue = s.queue ++ line ∷ [] }
sent_as full line s = record s { dropped = s.dropped + 1 }
sent_as disconnected line s = record s { dropped = s.dropped + 1 }

-- `emit`, of a record that is rendered as this line.
unfoldable pub emit : Text → TrySend → TraceSink → TraceSink
emit line answer s =
    if s.is_open then sent_as answer line s else record s { dropped = s.dropped + 1 }

-- One turn of the writer thread, which waits on an empty queue.
unfoldable pub write : TraceSink → TraceSink
unfolding keep
write s = take s.queue
  where
    take : List Text → TraceSink
    take [] = s
    take (line ∷ lines) = record s { queue = lines; recent = keep line s.recent }

abbrev pub keep_all : List Text → List Text → List Text
unfolding keep
keep_all [] recent = recent
keep_all (line ∷ lines) recent = keep_all lines (keep line recent)

-- The drop: the channel is closed, the writer drains the queue and ends, and it is joined.
unfoldable pub drop_sink : TraceSink → TraceSink
drop_sink s = record s {
  is_open = false;
  queue = [];
  recent = keep_all s.queue s.recent;
  is_joined = true;
}
