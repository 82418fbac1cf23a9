-- ===== src/Transport/Ambient.antt =====
-- ice-rpc/src/types/context.rs: the ambient call of a thread, and its ambient cancellation. A token
-- is the number of its call. A scope is entered and dropped around the code that runs under it.
use ice_rpc.Common.{append-nil, ℕ, ◌≡◌, refl, ap, ◌∙◌, Option, some, List, [], ◌∷◌, ◌++◌, map}
use ice_rpc.Transport.Request.{CallContext}

-- The two thread-local slots.
pub record Ambient : Type 0 where
  pub current_call : Option CallContext
  pub current_cancel : Option ℕ

-- `CallContext::current` and `CallContext::cancellation`.
unfoldable pub current : Ambient → Option CallContext
current a = a.current_call

unfoldable pub cancellation : Ambient → Option ℕ
cancellation a = a.current_cancel

-- `enter_ambient`: what the scope keeps, and the slots behind it.
unfoldable pub enter_ambient : CallContext → Ambient → Option CallContext × Ambient
enter_ambient ctx a = (a.current_call, record a { current_call = some ctx })

-- The drop of an `AmbientScope`.
unfoldable pub leave_ambient : Option CallContext → Ambient → Ambient
leave_ambient previous a = record a { current_call = previous }

unfoldable pub install_call_cancellation : ℕ → Ambient → Option ℕ × Ambient
install_call_cancellation token a = (a.current_cancel, record a { current_cancel = some token })

-- The drop of an `AmbientCancelScope`.
unfoldable pub leave_cancellation : Option ℕ → Ambient → Ambient
leave_cancellation previous a = record a { current_cancel = previous }

-- What one poll of a task does with the slots: it reads them, it polls a future that is scoped to a
-- call (`CallScope`), or it runs a part under a token; and then it goes on.
pub data Work : Type 0 where
  finished : Work
  reads : Work → Work
  poll_scoped : CallContext → Work → Work → Work
  with_token : ℕ → Work → Work → Work

-- What was read, in order, and the slots behind it.
unfoldable pub run : Work → Ambient → List (Option CallContext × Option ℕ) × Ambient
unfolding enter_ambient leave_ambient install_call_cancellation leave_cancellation current
    cancellation
run finished a = ([], a)
run (reads rest) a = let (seen, a') = run rest a in ((current a, cancellation a) ∷ seen, a')
run (poll_scoped ctx inner rest) a =
    let (previous, a1) = enter_ambient ctx a in
    let (inside, a2) = run inner a1 in
    let (behind, a3) = run rest (leave_ambient previous a2) in (inside ++ behind, a3)
run (with_token token inner rest) a =
    let (previous, a1) = install_call_cancellation token a in
    let (inside, a2) = run inner a1 in
    let (behind, a3) = run rest (leave_cancellation previous a2) in (inside ++ behind, a3)

-- What the same code reads if each part is handed its call and its token.
unfoldable pub reads_under :
    Option CallContext → Option ℕ → Work → List (Option CallContext × Option ℕ)
reads_under call token finished = []
reads_under call token (reads rest) = (call, token) ∷ reads_under call token rest
reads_under call token (poll_scoped ctx inner rest) =
    reads_under (some ctx) token inner ++ reads_under call token rest
reads_under call token (with_token t inner rest) =
    reads_under call (some t) inner ++ reads_under call token rest

-- Code under scopes reads at each place the call and the token of the innermost scope around it,
-- and leaves both slots as it found them.
pub run-reads_under :
    (w : Work) (a : Ambient) → run w a ≡ (reads_under a.current_call a.current_cancel w, a)
unfolding run reads_under
run-reads_under finished a = refl
run-reads_under (reads rest) a =
    ap (λ r. ((a.current_call, a.current_cancel) ∷ r.0, r.1)) (run-reads_under rest a)
run-reads_under (poll_scoped ctx inner rest) a =
    ap
      (λ r. (
        r.0 ++ (run rest (record r.1 { current_call = a.current_call })).0,
        (run rest (record r.1 { current_call = a.current_call })).1,
      ))
      (run-reads_under inner (record a { current_call = some ctx }))
    ∙ ap (λ r. (reads_under (some ctx) a.current_cancel inner ++ r.0, r.1)) (run-reads_under rest a)
run-reads_under (with_token token inner rest) a =
    ap
      (λ r. (
        r.0 ++ (run rest (record r.1 { current_cancel = a.current_cancel })).0,
        (run rest (record r.1 { current_cancel = a.current_cancel })).1,
      ))
      (run-reads_under inner (record a { current_cancel = some token }))
    ∙ ap (λ r. (reads_under a.current_call (some token) inner ++ r.0, r.1)) (run-reads_under rest a)

-- The polls that one thread makes, of tasks that are each scoped to a call of their own.
unfoldable pub poll_all :
    List (CallContext × Work) → Ambient → List (List (Option CallContext × Option ℕ)) × Ambient
unfolding run
poll_all [] a = ([], a)
poll_all ((ctx, w) ∷ polls) a =
    let (seen, a') = run (poll_scoped ctx w finished) a in
    let (rest, a'') = poll_all polls a' in (seen ∷ rest, a'')

-- However a thread interleaves the polls of scoped tasks, each poll reads its own task's call and
-- nothing of the tasks before it, and the thread's slots are as they were.
pub poll_all-scoped :
    (polls : List (CallContext × Work)) (a : Ambient)
    → poll_all polls a ≡ (map (λ p. reads_under (some p.0) a.current_cancel p.1) polls, a)
unfolding poll_all reads_under
poll_all-scoped [] a = refl
poll_all-scoped ((ctx, w) ∷ polls) a =
    ap (λ r. (r.0 ∷ (poll_all polls r.1).0, (poll_all polls r.1).1))
      (run-reads_under (poll_scoped ctx w finished) a)
    ∙ ap (λ l. (l ∷ (poll_all polls a).0, (poll_all polls a).1))
        (append-nil (reads_under (some ctx) a.current_cancel w))
    ∙ ap (λ r. (reads_under (some ctx) a.current_cancel w ∷ r.0, r.1)) (poll_all-scoped polls a)
