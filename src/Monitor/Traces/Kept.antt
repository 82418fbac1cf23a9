-- ===== src/Monitor/Traces/Kept.antt =====
-- traces.rs: what becomes of the records, over any interleaving of the emitter and the writer.
use ice_rpc.Common.{
  ℕ, ◌+◌, ◌-◌, ◌≤◌, ◌≡◌, refl, ap, sym, ◌∙◌, arith, leb, true, List, [], ◌∷◌, ◌++◌, length,
  length-drop, if◌then◌else◌, append_assoc, append-nil, subst, drop,
}
use ice_rpc.Rx.Event.{Text}
use ice_rpc.Monitor.Traces.{
  TraceSink, TrySend, sent, full, disconnected, memory, drop_first, keep, sent_as, emit, write,
  keep_all, recent_keep, drop_sink,
}
use ice_rpc.Common.{◌==◌}
use ice_rpc.Rx.Subject.{remember}
use ice_rpc.Rx.Subject.Replay.{last_values, remember-last_values, last_values-nil}

pub data Step : Type 0 where
  emits : Text → TrySend → Step
  writes : Step

pub run : List Step → TraceSink → TraceSink
unfolding emit write
run [] s = s
run (emits line answer ∷ steps) s = run steps (emit line answer s)
run (writes ∷ steps) s = run steps (write s)

-- What the queue takes of a record, and how many it loses.
abbrev pub took : TrySend → Text → List Text
took sent line = line ∷ []
took _ line = []

abbrev pub lost_as : TrySend → ℕ
lost_as sent = 0
lost_as _ = 1

abbrev pub accepted : List Step → List Text
accepted [] = []
accepted (emits line answer ∷ steps) = took answer line ++ accepted steps
accepted (writes ∷ steps) = accepted steps

abbrev pub refused : List Step → ℕ
refused [] = 0
refused (emits line answer ∷ steps) = lost_as answer + refused steps
refused (writes ∷ steps) = refused steps

drop_first-drop : (lines : List Text) → drop_first lines ≡ drop 1 lines
drop_first-drop [] = refl
drop_first-drop (line ∷ lines) = refl

-- Up to its capacity the buffer does what a subject's replay buffer does.
keep-remember :
    (line : Text) (recent : List Text)
    → length recent ≤ recent_keep
    → keep line recent ≡ remember recent_keep line recent
unfolding keep remember
keep-remember line recent small =
    let same : leb recent_keep (length recent) ≡ (length recent == recent_keep) = ground arith in
    ap (λ b. (if b then drop_first recent else recent) ++ line ∷ []) same
    ∙ ap (λ d. (if length recent == recent_keep then d else recent) ++ line ∷ [])
        (drop_first-drop recent)

keep-last_values :
    (line : Text) (lines : List Text)
    → keep line (last_values recent_keep lines) ≡ last_values recent_keep (lines ++ line ∷ [])
keep-last_values line lines =
    let long = length-drop (length lines - recent_keep) lines in
    keep-remember line (last_values recent_keep lines) (omega (arith, long))
    ∙ remember-last_values recent_keep lines line

-- The records written so far are those that the queue took and has no more.
abbrev pub IsAccounted : List Text → ℕ → TraceSink → Type 0
IsAccounted taken lost s =
    (written : List Text) × (written ++ s.queue ≡ taken)
    × (s.recent ≡ last_values recent_keep written)
    × (s.dropped ≡ lost)
    × (s.is_open ≡ true)

write-IsAccounted :
    (taken : List Text) (lost : ℕ) (s : TraceSink) (queue : List Text)
    → IsAccounted taken lost (record s { queue = queue })
    → IsAccounted taken lost (write (record s { queue = queue }))
unfolding write
write-IsAccounted taken lost s [] h = h
write-IsAccounted taken lost s (line ∷ lines) (written, eq, recent, dropped, open_) = (
  written ++ line ∷ [],
  append_assoc written (line ∷ []) lines ∙ eq,
  ap (keep line) recent ∙ keep-last_values line written,
  dropped,
  open_,
)

emit-open :
    (line : Text) (answer : TrySend) (s : TraceSink)
    → s.is_open ≡ true
    → emit line answer s ≡ sent_as answer line s
unfolding emit
emit-open line answer s h =
    ap (λ b. if b then sent_as answer line s else record s { dropped = s.dropped + 1 }) h

sent_as-IsAccounted :
    (taken : List Text) (lost : ℕ) (s : TraceSink) (line : Text) (answer : TrySend)
    → IsAccounted taken lost s
    → IsAccounted (taken ++ took answer line) (lost + lost_as answer) (sent_as answer line s)
sent_as-IsAccounted taken lost s line sent (written, eq, recent, dropped, open_) = (
  written,
  sym (append_assoc written s.queue (line ∷ [])) ∙ ap (λ l. l ++ line ∷ []) eq,
  recent,
  omega arith,
  open_,
)
sent_as-IsAccounted taken lost s line full (written, eq, recent, dropped, open_) =
    (written, eq ∙ sym (append-nil taken), recent, omega arith, open_)
sent_as-IsAccounted taken lost s line disconnected (written, eq, recent, dropped, open_) =
    (written, eq ∙ sym (append-nil taken), recent, omega arith, open_)

run-IsAccounted :
    (steps : List Step) (taken : List Text) (lost : ℕ) (s : TraceSink)
    → IsAccounted taken lost s
    → IsAccounted (taken ++ accepted steps) (lost + refused steps) (run steps s)
unfolding run
run-IsAccounted [] taken lost s (written, eq, recent, dropped, open_) =
    (written, eq ∙ sym (append-nil taken), recent, omega arith, open_)
run-IsAccounted (writes ∷ steps) taken lost s h =
    run-IsAccounted steps taken lost (write s) (write-IsAccounted taken lost s s.queue h)
run-IsAccounted (emits line answer ∷ steps) taken lost s h =
    let now : emit line answer s ≡ sent_as answer line s = emit-open line answer s h.4 in
    let rec : IsAccounted ((taken ++ took answer line) ++ accepted steps)
        ((lost + lost_as answer) + refused steps) (run steps (emit line answer s)) =
      run-IsAccounted steps (taken ++ took answer line) (lost + lost_as answer) (emit line answer s)
        (subst (IsAccounted (taken ++ took answer line) (lost + lost_as answer)) (sym now)
          (sent_as-IsAccounted taken lost s line answer h)) in
    let sums : (lost + lost_as answer) + refused steps ≡ lost + (lost_as answer + refused steps) =
      omega arith in
    subst
      (λ n.
        IsAccounted (taken ++ (took answer line ++ accepted steps)) n
          (run steps (emit line answer s)))
      sums
      (subst
        (λ l.
          IsAccounted l ((lost + lost_as answer) + refused steps) (run steps (emit line answer s)))
        (append_assoc taken (took answer line) (accepted steps)) rec)

keep_all-last_values :
    (queue lines : List Text)
    → keep_all queue (last_values recent_keep lines) ≡ last_values recent_keep (lines ++ queue)
unfolding keep_all
keep_all-last_values [] lines = ap (last_values recent_keep) (sym (append-nil lines))
keep_all-last_values (line ∷ queue) lines =
    ap (keep_all queue) (keep-last_values line lines)
    ∙ keep_all-last_values queue (lines ++ line ∷ [])
    ∙ ap (last_values recent_keep) (append_assoc lines (line ∷ []) queue)

-- However the emitter and the writer interleave, and whatever the queue answers: once the sink is
-- dropped, its buffer holds the last ten records that the queue took, in the order of their emission,
-- the counter is the number of those that it did not take, and the writer has ended.
pub drop_sink-recent :
    (steps : List Step)
    → let s = drop_sink (run steps memory) in
      (s.recent ≡ last_values recent_keep (accepted steps))
      × (s.dropped ≡ refused steps)
      × (s.queue ≡ [])
      × (s.is_joined ≡ true)
unfolding drop_sink memory
drop_sink-recent steps =
    let s : TraceSink = run steps memory in
    let (written, eq, recent, dropped, open_) =
      run-IsAccounted steps [] 0 memory ([], refl, sym (last_values-nil recent_keep), refl, refl) in
    (
      ap (keep_all s.queue) recent
          ∙ keep_all-last_values s.queue written
          ∙ ap (last_values recent_keep) eq,
      dropped ∙ omega arith,
      refl,
      refl,
    )
