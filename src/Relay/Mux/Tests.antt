-- ===== src/Relay/Mux/Tests.antt =====
-- Requests that share a tunnel, at a concrete client and server.
use single_proxy.Base.{
  if-cases, ◌==◌, nat_key, Str, codes, List, [], ◌∷◌, ◌++◌, true, false, Option, none, some, ◌≡◌,
  refl, arith, lookup, length,
}
use single_proxy.Http.Header.{assign_all}
use single_proxy.Protocol.Wire.{wire_of}
use single_proxy.Client.Stream.{chunk_message, head_payload}
use single_proxy.Client.Tunnel.Loops.{Moved, answer_to}
use single_proxy.Client.Tunnel.Steps.{Event, happen_all, reads, queues, writes, pings, dials}
use single_proxy.Client.Tunnel.Steps.Sole.{NoneMine}
use single_proxy.Client.Tunnel.Steps.Answers.{concerns-wire_of}
use single_proxy.Server.Tunnel.Streams.{concerns}
use single_proxy.Server.Public.Open
use single_proxy.Samples.Valid.{request_bytes, accepted}
use single_proxy.Server.Writer.{new_writer}
use single_proxy.Server.Writer.Response.{head}
use single_proxy.Server.Limits.{Rate}
use single_proxy.Server.State.{Server, ok}
use single_proxy.Server.Public.{public_request, waiting, finish_done}
use single_proxy.Server.Public.Open.{request_message}
use single_proxy.Server.Public.Relay.{joined}
use single_proxy.Relay.Mux.{IsAnswered, IsRelayed}
use single_proxy.Relay.Mux.Client.{IsUnasked}
use single_proxy.Relay.Mux.Request.{public_request-IsRelayed}
use single_proxy.Relay.Mux.Complete.{public_request-completes, answer_wires}
use single_proxy.Client.Tunnel.Steps.Drain.{drain}
use single_proxy.Server.Tunnel.{on_frames}
use single_proxy.Samples.Clients.{first_writer}
use single_proxy.Samples.{parse_page, page, page_answer, busy_server, lenient, get_request, web}
use single_proxy.Samples.Clients.{streaming_client, streaming_client-IsWf, page_target}

-- The handler of request 7 ends, and its message and those of request 8 are written in turn.
abbrev turns : List Event
turns =
    queues 1
    ∷ queues 0
    ∷ writes 0 true
    ∷ queues 1
    ∷ dials true
    ∷ writes 0 true
    ∷ pings 5
    ∷ writes 0 true
    ∷ queues 1
    ∷ writes 0 true
    ∷ writes 0 true
    ∷ []

-- The frames of the tunnel, with one of another tunnel between.
abbrev reading : List (Option Str)
reading = none ∷ none ∷ some (wire_of (chunk_message 9 [])) ∷ none ∷ none ∷ none ∷ []

apart_7 : (payload : Str) → concerns 8 (wire_of (chunk_message 7 payload)) ≡ false
apart_7 payload =
    concerns-wire_of 8 (chunk_message 7 payload)
      (record { id_fits = omega arith; type_fits = omega arith })

apart_9 : concerns 8 (wire_of (chunk_message 9 [])) ≡ false
apart_9 =
    concerns-wire_of 8 (chunk_message 9 [])
      (record { id_fits = omega arith; type_fits = omega arith })

streaming_client-IsUnasked : IsUnasked 8 0 streaming_client
streaming_client-IsUnasked = record {
  wf = streaming_client-IsWf;
  connected = record { busy = refl; dialled = refl; up = refl };
  none_queued = (apart_7 (codes "old"), tt);
  none_handled = λ j.
      if-cases (NoneMine 8) (j == 0) (wire_of (chunk_message 7 []) ∷ []) []
        (λ first. (apart_7 [], tt)) (λ other. tt);
}

page-IsAnswered : IsAnswered page_target parse_page request_bytes page_answer page streaming_client
unfolding head_payload answer_to
page-IsAnswered = record { answered = refl; parsed = refl }

busy_server-IsWf : Open.IsWf busy_server
unfolding lookup
busy_server-IsWf = record {
  live = record {
    is_open = λ id a e. refl;
    distinct = λ i j a p q. ground arith;
    unique = (tt, tt);
  };
  used_ids = λ id a e. ground arith;
  used_streams = λ id a e. ground arith;
}

public_request-IsRelayed_example :
    (s₁ : Server Rate) × (public_request lenient 0 true get_request new_writer busy_server
      ≡ ok (waiting 8 1, s₁))
    × ((s₁.sockets 3).written
        ≡ (busy_server.sockets 3).written ++ wire_of (request_message 8 request_bytes) ∷ [])
    × IsRelayed page_target parse_page 8 0 1 request_bytes
        ([] ++ (head 200 (assign_all page.header []) ++ joined page_answer.reads))
        page_answer
        turns
        reading
        streaming_client
        s₁
public_request-IsRelayed_example =
    public_request-IsRelayed lenient parse_page page_target 0 get_request web 3 0 request_bytes
      new_writer busy_server page_answer page turns reading streaming_client busy_server-IsWf
      (omega arith) accepted refl refl streaming_client-IsUnasked page-IsAnswered
      (tt, (tt, (tt, (tt, (tt, (tt, (tt, (tt, (tt, (tt, (tt, tt)))))))))))
      (tt, (tt, (refl, (tt, (tt, (refl, (tt, (refl, (tt, (refl, (refl, tt)))))))))))
      (tt, (tt, (apart_9, (tt, (tt, (tt, tt))))))

public_request-completes_example :
    (s₁ s₂ : Server Rate) × (m : Moved) × (public_request lenient 0 true get_request new_writer
        busy_server
      ≡ ok (waiting 8 1, s₁))
    × ((s₁.sockets 3).written
        ≡ (busy_server.sockets 3).written ++ wire_of (request_message 8 request_bytes) ∷ [])
    × (happen_all page_target
          (reads (wire_of (request_message 8 request_bytes))
            ∷ drain 0 1 1 (length (answer_wires 8 page_answer)))
          streaming_client
        ≡ ok m)
    × ((m.after.conns 0).written ≡ (streaming_client.conns 0).written ++ m.taken)
    × (on_frames parse_page m.taken s₁ ≡ ok s₂)
    × ((s₂.streams 1).done ≡ true)
    × ((finish_done 8 1 s₂).0.sent
        ≡ [] ++ (head 200 (assign_all page.header []) ++ joined page_answer.reads))
public_request-completes_example =
    public_request-completes lenient parse_page page_target 0 get_request web 3 0 0 request_bytes
      new_writer busy_server page_answer page first_writer streaming_client busy_server-IsWf
      (omega arith) accepted refl refl streaming_client-IsUnasked page-IsAnswered refl
