-- ===== src/Server/System/Tests.antt =====
-- A run of the whole server.
use single_proxy.Base.{
  ℕ, ◌≤◌, ◌<◌, Str, none, ◌++◌, codes, List, [], ◌∷◌, true, some, All, lookup, nat_key, ◌≡◌, refl,
  arith,
}
use single_proxy.Server.Writer.{new_writer}
use single_proxy.Server.Limits.{Rate}
use single_proxy.Server.State.{Server, ok}
use single_proxy.Server.System.{
  Event, frame, registers, exits, requests, admits, opens, sends, times_out, happen_all,
}
use single_proxy.Server.System.Rests.{IsElse}
use single_proxy.Server.System.Timeout.{timeout_bytes, finish_timeout-final}
use single_proxy.Server.Public.{finish_timeout, key_of, admit, open_stream}
use single_proxy.Protocol.Wire.{wire_of}
use single_proxy.Client.Stream.{chunk_message}
use single_proxy.Server.System.Safe.{IsReady, happen_all-IsReady}
use single_proxy.Server.System.Overlap.{to_forward, prepare, send, prepare-overlap}
use single_proxy.Protocol.Http.{serialize_http_request}
use single_proxy.Server.Public.{ws_tunnel, waiting}
use single_proxy.Server.Public.Open.{request_message}
use single_proxy.Http.Address.{split_host_port}
use single_proxy.Http.Header.{get}
use single_proxy.Samples.{lenient, parse_page, busy_server, get_request, web}

abbrev ws_server : Server Rate
ws_server = record busy_server { tunnel_clients = [] }

abbrev a_day : List Event
a_day =
    frame (codes "junk")
    ∷ requests 0 true get_request new_writer
    ∷ admits 0 get_request
    ∷ opens new_writer
    ∷ opens new_writer
    ∷ sends true (some []) 3 10 3
    ∷ sends true (some []) 3 11 4
    ∷ registers web 4
    ∷ exits 3 web
    ∷ times_out 8 1
    ∷ []

-- Frames of the request that timed out, and what else may happen.
abbrev too_late : List Event
too_late =
    frame (wire_of (chunk_message 7 (codes "late"))) ∷ frame (wire_of (chunk_message 7 [])) ∷ a_day

ws_server-IsReady : IsReady 13 ws_server
unfolding lookup
ws_server-IsReady = record {
  wf = record {
    live = record {
      is_open = λ id a e. refl;
      distinct = λ i j a p q. ground arith;
      unique = (tt, tt);
    };
    used_ids = λ id a e. ground arith;
    used_streams = λ id a e. ground arith;
  };
  no_polling = refl;
  ids = omega arith;
}

IsReady-ws_server : (n : ℕ) → n ≤ 13 → IsReady n ws_server
IsReady-ws_server n few = record { wf = ws_server-IsReady.wf; no_polling = refl; ids = omega arith }

happen_all-IsReady_example :
    (s' : Server Rate) × (happen_all lenient parse_page a_day ws_server ≡ ok s') × IsReady 0 s'
happen_all-IsReady_example =
    happen_all-IsReady lenient parse_page a_day ws_server (IsReady-ws_server 10 (omega arith))

late_enough : All (IsElse 0) too_late
late_enough = (
  tt,
  (
    tt,
    (
      tt,
      (
        tt,
        (
          tt,
          (
            tt,
            (
              tt,
              (
                (λ e. ground (arith, e)),
                ((λ e. ground (arith, e)), (tt, (tt, ((λ e. ground (arith, e)), tt)))),
              ),
            ),
          ),
        ),
      ),
    ),
  ),
)

finish_timeout-final_example :
    (s' : Server Rate) × (happen_all lenient parse_page (times_out 7 0 ∷ too_late) ws_server
      ≡ ok s')
    × ((s'.streams 0).writer ≡ (finish_timeout 7 0 ws_server).0)
    × ((s'.streams 0).writer.sent ≡ [] ++ timeout_bytes new_writer)
unfolding lookup
finish_timeout-final_example =
    finish_timeout-final lenient parse_page 7 0 too_late ws_server
      (IsReady-ws_server 13 (omega arith)) refl refl late_enough

abbrev wire_text : Str
wire_text = elim (serialize_http_request get_request) [ none ↦ [] | some bytes ↦ bytes ]

prepare-overlap_example :
    (id₁ id₂ a₁ a₂ : ℕ) × (s₁ s₂ t₂ t₁ : Server Rate) × (prepare lenient 0 get_request new_writer
        ws_server
      ≡ (to_forward (ws_tunnel 3) id₁ a₁ wire_text, s₁))
    × (prepare lenient 0 get_request new_writer s₁
        ≡ (to_forward (ws_tunnel 3) id₂ a₂ wire_text, s₂))
    × (id₁ < id₂)
    × (a₁ < a₂)
    × (lookup id₁ s₂.stream_handlers ≡ some a₁)
    × (lookup id₂ s₂.stream_handlers ≡ some a₂)
    × (s₂.sockets 3 ≡ ws_server.sockets 3)
    × (send true (to_forward (ws_tunnel 3) id₂ a₂ wire_text, s₂) ≡ ok (waiting id₂ a₂, t₂))
    × (send true (to_forward (ws_tunnel 3) id₁ a₁ wire_text, t₂) ≡ ok (waiting id₁ a₁, t₁))
    × ((t₁.sockets 3).written
        ≡ wire_of (request_message id₂ wire_text) ∷ wire_of (request_message id₁ wire_text) ∷ [])
unfolding lookup admit open_stream serialize_http_request split_host_port key_of get
prepare-overlap_example =
    prepare-overlap lenient 0 0 get_request get_request new_writer new_writer ws_server web
      wire_text wire_text 3 (omega arith) refl refl refl refl refl refl
