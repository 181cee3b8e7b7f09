-- ===== src/Samples/Valid.antt =====
-- Conditions that the concrete server meets.
use single_proxy.Base.{Str, [], none, some, lookup, nat_key, str_key, ◌≡◌, refl, arith}
use single_proxy.Http.Header.{get}
use single_proxy.Http.Address.{split_host_port}
use single_proxy.Protocol.Http.{serialize_http_request}
use single_proxy.Server.Public.{admit, admitted, key_of}
use single_proxy.Relay.Request.{IsAccepted}
use single_proxy.Server.Public.Relay.{IsOpen}
use single_proxy.Server.Polling.Channels.{IsPolled}
use single_proxy.Samples.{busy_server, lenient, get_request, web}

pub busy_server-IsPolled : IsPolled busy_server
unfolding lookup
busy_server-IsPolled = record {
  is_up = λ key a e. (refl, refl, omega arith);
  apart = λ i j a p q. grind arith;
  used = λ key a e. grind arith;
}

pub request_7 : IsOpen 7 0 busy_server
unfolding lookup
request_7 = record { registered = refl; pending = refl; up = refl }

-- A request for the WebSocket tunnel.
abbrev pub request_bytes : Str
unfolding serialize_http_request
request_bytes = elim (serialize_http_request get_request) [ none ↦ [] | some bytes ↦ bytes ]

admitted_web : (admit lenient 0 get_request busy_server).0 ≡ admitted web
unfolding admit key_of lookup split_host_port get
admitted_web = refl

pub accepted : IsAccepted lenient 0 get_request web 3 request_bytes busy_server
unfolding admit lookup serialize_http_request
accepted = record {
  within_limits = admitted_web;
  connected = refl;
  conn_open = refl;
  serialized = refl;
}
