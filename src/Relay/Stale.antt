-- ===== src/Relay/Stale.antt =====
-- What a WebSocket client has queued when its connection is lost, and the next connection.
use single_proxy.Base.{
  ℕ, ◌^◌, ◌<◌, Str, List, [], ◌∷◌, ◌++◌, Bool, true, false, not, ◌||◌, Option, some, nat_beq_iff,
  nat_key, ◌≡◌, refl, ap, ◌∙◌, arith, if◌then◌else◌,
}
use single_proxy.Http.Status.{status_ok}
use single_proxy.Protocol.Wire.{wire_of}
use single_proxy.Client.Stream.{chunk_message}
use single_proxy.Client.Tunnel.{
  TunnelClient, WriterLoop, Conn, run_round, connect, ensure_close_chan, make_close_chan, shut_old,
  connected, count_attempt,
}
use single_proxy.Client.Tunnel.Loops.{Target, Moved, quiet, write_next}
use single_proxy.Client.Tunnel.Steps.{
  Event, dials, loses, writes, happen, happen_all, with_writer, moved_to,
}
use single_proxy.Client.Tunnel.Steps.Rounds.{IsWf, lost, shut_old_lem, read_loop_end_lem}
use single_proxy.Client.Tunnel.Steps.Order.{happen_all-next}
use single_proxy.Client.Tunnel.Steps.Messages.{wrote, popped, write_next_lem, write_message-goes}
use single_proxy.Relay.{on_frames-wire_of}
use single_proxy.Server.State.{Server, Outcome, ok, ◌>>=◌, Response, set_stream}
use single_proxy.Server.Tunnel.{on_frames, on_frame}
use single_proxy.Server.Public.Relay.{IsOpen, on_message-chunk}
use single_proxy.Server.Writer.{write}
use single_proxy.Server.Writer.Response.{head, write_first}

-- The client after its dial, with the connections `f` that are left.
abbrev redialled : (ℕ → Conn) → TunnelClient → TunnelClient
redialled f c = count_attempt (true, connected (record (make_close_chan c) { conns = f }))

run_round-redialled :
    (c : TunnelClient) → c.is_reading ≡ false → (f : ℕ → Conn) × (run_round true c ≡ redialled f c)
unfolding run_round connect ensure_close_chan make_close_chan
run_round-redialled c idle =
    let (f, e) = shut_old_lem (make_close_chan c) in
    (
      f,
      ap
            (λ (busy : Bool).
              if busy then c else count_attempt (true, connected (shut_old (make_close_chan c))))
            idle
          ∙ ap (λ (x : TunnelClient). count_attempt (true, connected x)) e,
    )

-- The writer that the dial started.
abbrev started : TunnelClient → WriterLoop
started c = record { own = c.next_conn; stop = some c.next_chan }

redialled-writer :
    (f : ℕ → Conn) (c : TunnelClient) → (redialled f c).writers c.next_writer ≡ some (started c)
unfolding make_close_chan connected count_attempt
redialled-writer f c = ground (arith, nat_beq_iff c.next_writer c.next_writer)

redialled-open :
    (f : ℕ → Conn) (c : TunnelClient) → ((redialled f c).conns c.next_conn).shut || not true ≡ false
unfolding make_close_chan connected count_attempt
redialled-open f c = ground (arith, nat_beq_iff c.next_conn c.next_conn)

redialled-writes :
    (f : ℕ → Conn) (bytes : Str) (rest : List Str) (c : TunnelClient)
    → c.write_chan ≡ bytes ∷ rest
    → write_next true c.next_writer (started c) (redialled f c)
      ≡ ok (record {
        accepted = [];
        taken = bytes ∷ [];
        after = wrote c.next_writer (started c) c.next_conn bytes (popped rest (redialled f c));
      })
unfolding make_close_chan connected count_attempt
redialled-writes f bytes rest c e =
    write_next_lem true c.next_writer (started c) c.next_conn bytes rest (redialled f c) e refl
    ∙ ap (λ (x : TunnelClient). ok (record { accepted = []; taken = bytes ∷ []; after = x }))
        (write_message-goes true c.next_writer (started c) c.next_conn bytes
          (popped rest (redialled f c)) (redialled-open f c))

rewritten :
    (f : ℕ → Conn) (bytes : Str) (rest : List Str) (c : TunnelClient)
    → ((wrote c.next_writer (started c) c.next_conn bytes (popped rest (redialled f c))).conns
        c.next_conn).written
      ≡ bytes ∷ []
unfolding make_close_chan connected count_attempt
rewritten f bytes rest c = ground (arith, nat_beq_iff c.next_conn c.next_conn)

-- The connection is lost, the next dial succeeds, and the new writer takes a message.
abbrev pub reconnection : TunnelClient → List Event
reconnection c = loses ∷ dials true ∷ writes c.next_writer true ∷ []

reconnection-writes :
    (target : Target) (bytes : Str) (rest : List Str) (c : TunnelClient)
    → IsWf c
    → c.is_reading ≡ true
    → c.write_chan ≡ bytes ∷ rest
    → (m : Moved) × (happen_all target (reconnection c) c ≡ ok m)
      × (m.after.ws_conn ≡ some c.next_conn)
      × ((m.after.conns c.next_conn).written ≡ bytes ∷ [])
unfolding happen_all happen with_writer moved_to make_close_chan connected count_attempt
reconnection-writes target bytes rest c v busy e =
    let (ch, has, up) = v.reading busy in
    let (f, dialled) = run_round-redialled (lost ch c) refl in
    let d : TunnelClient = redialled f (lost ch c) in
    (
      record {
        accepted = [];
        taken = bytes ∷ [];
        after = wrote c.next_writer (started (lost ch c)) c.next_conn bytes (popped rest d);
      },
      happen_all-next target loses (dials true ∷ writes c.next_writer true ∷ []) c _ _
          (ap moved_to (read_loop_end_lem ch c busy has up))
          (happen_all-next target (dials true) (writes c.next_writer true ∷ []) (lost ch c) _ _
            (ap (λ (x : TunnelClient). ok (quiet x)) dialled)
            (happen_all-next target (writes c.next_writer true) [] d _ (quiet _)
              (ap (λ (w : Option WriterLoop). with_writer (write_next true c.next_writer) w d)
                  (redialled-writer f (lost ch c))
                ∙ redialled-writes f bytes rest (lost ch c) e)
              refl)),
      refl,
      rewritten f bytes rest (lost ch c),
    )

module _ {Limiter : Type 0} where
  -- Let a client that reads have a chunk of some response at the front of its channel, and let its
  -- connection be lost, the next dial succeed, and the new writer take one message. Then the new
  -- connection carries just that chunk, and on a server where a request waits on an open stream that
  -- has been sent no header, under the ID that the chunk has, its user is sent status 200 and the
  -- bytes of the chunk.
  pub reconnection-mixes :
      (target : Target) (read_response : Str → Option Response) (id a b : ℕ) (payload : Str)
      (rest : List Str) (c : TunnelClient) (s : Server Limiter)
      → IsWf c
      → c.is_reading ≡ true
      → id < 2 ^ 64
      → c.write_chan ≡ wire_of (chunk_message id (b ∷ payload)) ∷ rest
      → IsOpen id a s
      → (s.streams a).writer.header_written ≡ false
      → (m : Moved) × (s' : Server Limiter) × (happen_all target (reconnection c) c ≡ ok m)
        × (m.after.ws_conn ≡ some c.next_conn)
        × (on_frames read_response (m.after.conns c.next_conn).written s ≡ ok s')
        × ((s'.streams a).writer.sent
            ≡ (s.streams a).writer.sent
              ++ (head status_ok (s.streams a).writer.header ++ (b ∷ payload)))
  unfolding on_frames on_frame
  reconnection-mixes target read_response id a b payload rest c s v busy fits e o fresh =
      let frame = wire_of (chunk_message id (b ∷ payload)) in
      let (m, happens, last, written) = reconnection-writes target frame rest c v busy e in
      (
        m,
        set_stream a
            (record (s.streams a) { writer = (write (b ∷ payload) (s.streams a).writer).1 }) s,
        happens,
        last,
        ap (λ (frames : List Str). on_frames read_response frames s) written
            ∙ on_frames-wire_of read_response (chunk_message id (b ∷ payload) ∷ []) s
                (record { id_fits = fits; type_fits = omega arith }, tt)
            ∙ ap (λ (t : Outcome (Server Limiter)). t >>= λ u. ok u)
                (on_message-chunk read_response id a b payload s o),
        ground
            (arith, nat_beq_iff a a, (write_first (s.streams a).writer fresh o.up (b ∷ payload)).2),
      )
