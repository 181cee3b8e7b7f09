-- ===== src/Samples/Clients.antt =====
-- A WebSocket client that reads from its first connection, with a handler and a message queued.
use single_proxy.Base.{
  codes, [], ◌∷◌, ◌==◌, nat_key, true, false, none, some, if◌then◌else◌, refl, arith,
}
use single_proxy.Protocol.Wire.{wire_of}
use single_proxy.Client.Stream.{chunk_message}
use single_proxy.Client.Tunnel.{TunnelClient, WriterLoop, Conn}
use single_proxy.Client.Tunnel.Loops.{Target}
use single_proxy.Client.Tunnel.Steps.Rounds.{IsWf}
use single_proxy.Samples.{page_answer, get_request, web}

abbrev pub first_conn : Conn
first_conn = record { path = codes "/ws/web"; shut = false; written = [] }

abbrev pub first_writer : WriterLoop
first_writer = record { own = 0; stop = some 0 }

abbrev pub streaming_client : TunnelClient
streaming_client = record {
  server_addr = record { scheme = codes "ws"; path = [] };
  target_addr = codes "127.0.0.1:80";
  key = web;
  insecure = false;
  ws_conn = some 0;
  write_chan = wire_of (chunk_message 7 (codes "old")) ∷ [];
  close_chan = some 0;
  last_ping_time = none;
  last_pong_time = none;
  reconnect_count = 0;
  is_closed = λ ch. false;
  next_chan = 1;
  conns = λ k. first_conn;
  next_conn = 1;
  is_reading = true;
  writers = λ i. if i == 0 then some first_writer else none;
  next_writer = 1;
  handlers = λ j. if j == 0 then wire_of (chunk_message 7 []) ∷ [] else [];
  next_handler = 1;
}

pub streaming_client-IsWf : IsWf streaming_client
streaming_client-IsWf = record {
  reading = λ r. (0, refl, refl);
  writing = λ i l w. (0, refl);
  bounded = omega arith;
}

abbrev pub page_target : Target
page_target = record { read_request = λ text. some get_request; do_request = λ o. some page_answer }
