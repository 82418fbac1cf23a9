-- ===== src/Tests/Server.antt =====
-- Runs of the provider's side: a request, its polls, its cancellation.
use ice_rpc.Common.{◌≡◌, refl, arith, none, [], ◌∷◌}
use ice_rpc.Wire.Kind.{EventKind}
use ice_rpc.Wire.Header.{RpcHeader, kind_of}
use ice_rpc.Transport.Dispatcher.{done}
use ice_rpc.Transport.Hub.{CancellableCall, new_hub, token_of, poll_call}
use ice_rpc.Transport.Hub.Numbering.{Published, poll_call-Published}
use ice_rpc.Common.{false, ℕ, List, if◌then◌else◌}
use ice_rpc.Transport.Dispatcher.{ServiceDispatcher}
use ice_rpc.Transport.Hub.{same_id}
use ice_rpc.Transport.Server.{nothing, handle_request}
use ice_rpc.Transport.Server.Registry.{
  Channel, absorb, resume, Reach, here, more, receive, poll, cancelled_call, Reach-no_leak,
}
use ice_rpc.Tests.Samples.{echo_header, echo_task, echo_table, open_bus, encode_error}

abbrev call : CancellableCall
call = record { request = echo_header; token = 0; task = echo_task }

abbrev rest : CancellableCall
rest = record call { task = done ((EventKind.complete, []) ∷ []) }

abbrev requested : Channel
requested = absorb (handle_request open_bus encode_error echo_table echo_header [] new_hub) []

abbrev polled : Channel
polled = resume (poll_call open_bus call requested.hub) [] []

abbrev ended : Channel
ended = resume (poll_call open_bus rest polled.hub) [] []

ended_reached : Reach open_bus encode_error echo_table ended
unfolding handle_request poll_call new_hub
ended_reached =
    more (more (more here (receive echo_header [])) (poll [] [] call refl)) (poll [] [] rest refl)

Reach-no_leak_example : ended.hub.calls ≡ []
unfolding handle_request poll_call new_hub
Reach-no_leak_example =
    Reach-no_leak open_bus encode_error echo_table {s = ended} ended_reached refl

abbrev cancel_header : RpcHeader
cancel_header = record echo_header { event_kind = 5 }

cancelled_call_example :
    let told = handle_request open_bus encode_error echo_table cancel_header [] requested.hub in
    let ended = poll_call open_bus call told.0 in
    (told.1 ≡ nothing)
    × (told.0.published ≡ requested.hub.published)
    × (ended.1 ≡ none)
    × (ended.0.published ≡ requested.hub.published)
    × (token_of echo_header.correlation_id ended.0.calls ≡ none)
    × (token_of [] ended.0.calls
        ≡ (if same_id echo_header.correlation_id [] then none else token_of [] requested.hub.calls))
unfolding handle_request token_of new_hub kind_of
cancelled_call_example =
    cancelled_call open_bus encode_error echo_table cancel_header [] call [] requested.hub refl refl
      refl

-- A method whose handler finds that the request does not decode.
abbrev strict_service : ServiceDispatcher
strict_service = record {
  service = record { id = 77; version = 1 };
  handlers =
      (
        5,
        record {
          handler =
              λ h payload. record { emitted = (EventKind.rpc_error, 9 ∷ []) ∷ []; task = done [] };
          oneway = false;
        },
      )
      ∷ [];
}

abbrev strict_table : List (ℕ × ServiceDispatcher)
strict_table = (77, strict_service) ∷ []

poll_call-Published_example :
    Published echo_header requested.hub (poll_call open_bus call requested.hub).0
unfolding handle_request new_hub
poll_call-Published_example = poll_call-Published open_bus call requested.hub (omega arith)
