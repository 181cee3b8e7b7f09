-- ===== src/Relay/Mux/Complete.antt =====
-- A public request that is answered to its end over a tunnel that others share.
use single_proxy.Base.{
  ℕ, zero, suc, ◌^◌, ◌<◌, Str, List, [], ◌∷◌, ◌++◌, true, false, Option, none, some, All, map,
  length, nat_key, nat_beq_iff, ◌≡◌, refl, ap, sym, ◌∙◌, arith, inl, inr, append-nil,
}
use single_proxy.Http.Header.{assign_all}
use single_proxy.Protocol.Http.{Request}
use single_proxy.Protocol.Wire.{wire_of}
use single_proxy.Client.Stream.{Answer, request_messages}
use single_proxy.Client.Tunnel.{TunnelClient, WriterLoop}
use single_proxy.Client.Tunnel.Loops.{Target, Moved, quiet, answer_to}
use single_proxy.Client.Tunnel.Steps.{reads, happen, happen_all}
use single_proxy.Client.Tunnel.Steps.Order.{happen_all-next}
use single_proxy.Client.Tunnel.Steps.Answers.{answer-tested}
use single_proxy.Client.Tunnel.Steps.Sole.{AllMine}
use single_proxy.Client.Tunnel.Steps.Own.{frames_of-append}
use single_proxy.Client.Tunnel.Steps.Drain.{
  drain, drain-takes, drain-Holds, drain-NotAsked, IsRunning,
}
use single_proxy.Server.Writer.{Writer}
use single_proxy.Server.Writer.Response.{head}
use single_proxy.Server.Limits.{RateLimiter}
use single_proxy.Server.State.{Server, ok, Response}
use single_proxy.Server.Tunnel.{on_frames}
use single_proxy.Server.Tunnel.Streams.{frames_of}
use single_proxy.Server.Public.{waiting, public_request, next_id, finish_done}
use single_proxy.Server.Public.Open
use single_proxy.Server.Public.Open.{request_message, HasIds}
use single_proxy.Server.Public.Relay.{joined}
use single_proxy.Server.Public.Prefix.{IsPart}
use single_proxy.Relay.Request.{IsAccepted}
use single_proxy.Relay.Mux.{IsAnswered}
use single_proxy.Relay.Mux.Client.{IsUnasked, handling, on_data-handling, frames_of-none}
use single_proxy.Relay.Mux.Frames.{mix, IsOther, ok_inj}
use single_proxy.Relay.Mux.Request.{public_request-IsRelayed}

-- The server reads a number of frames of the tunnel, and no others.
abbrev only_these : ℕ → List (Option Str)
only_these zero = []
only_these (suc n) = none ∷ only_these n

mix-only_these : (wires : List Str) → mix (only_these (length wires)) wires ≡ wires
mix-only_these [] = refl
mix-only_these (wire ∷ wires) = ap (◌∷◌ wire) (mix-only_these wires)

only_these-IsOther : (id n : ℕ) → All (IsOther id) (only_these n)
only_these-IsOther id zero = tt
only_these-IsOther id (suc n) = (tt, only_these-IsOther id n)

frames_of-all : (id : ℕ) (wires : List Str) → AllMine id wires → frames_of id wires ≡ wires
unfolding frames_of
frames_of-all id [] h = refl
frames_of-all id (wire ∷ wires) (h, hs) = rw (h) (ap (◌∷◌ wire) (frames_of-all id wires hs))

nothing_more {ℓ} : {A : Type ℓ} (xs ys : List A) → xs ++ ys ≡ xs → ys ≡ []
nothing_more [] ys e = e
nothing_more (x ∷ xs) ys e = nothing_more xs ys (ground (arith, e))

-- The frames of an answer.
abbrev pub answer_wires : ℕ → Answer → List Str
answer_wires id r = map wire_of (request_messages id (some r))

-- Where no frame is to come the user has been sent all.
part_complete :
    {Limiter : Type 0} (a : ℕ) (bytes : Str) (coming : List Str) (s : Server Limiter)
    → coming ≡ []
    → IsPart a bytes coming s
    → ((s.streams a).done ≡ true) × ((s.streams a).writer.sent ≡ bytes)
part_complete a bytes coming s over part = elim part.ends [
  | inl (none_left, nothing, done) ↦ (
    done,
    sym (append-nil (s.streams a).writer.sent)
        ∙ ap (◌++◌ (s.streams a).writer.sent) (sym nothing)
        ∙ part.whole,
  )
  | inr (more, pending) ↦ absurd (more over)
]

-- What the client's writers take in all.
asked-takes :
    (target : Target) (id i k : ℕ) (payload : Str) (r : Answer) (l : WriterLoop) (c : TunnelClient)
    → id < 2 ^ 64
    → IsUnasked id k c
    → answer_to target c payload ≡ some r
    → c.writers i ≡ some l
    → (m : Moved) × (happen_all target
          (reads (wire_of (request_message id payload))
            ∷ drain i c.next_handler (length c.write_chan) (length (answer_wires id r)))
          c
        ≡ ok m)
      × (m.taken ≡ c.write_chan ++ answer_wires id r)
unfolding happen
asked-takes target id i k payload r l c fits u answered runs =
    let c₁ = handling target id payload c in
    let own : c₁.handlers c.next_handler ≡ answer_wires id r =
      rw ((nat_beq_iff c.next_handler c.next_handler).1 refl)
        (ap (λ x. map wire_of (request_messages id x)) answered) in
    let running : IsRunning i k c₁ = record {
      up = record { busy = u.connected.busy; dialled = u.connected.dialled; up = u.connected.up };
      runs = (l, runs);
    } in
    let (m, e, taken) =
      drain-takes target i c.next_handler k c.write_chan (answer_wires id r) c₁ running refl own in
    (
      m,
      happen_all-next target (reads (wire_of (request_message id payload))) _ c (quiet c₁) m
          (ap (λ x. ok (quiet x)) (on_data-handling target id payload c u.connected.busy fits)) e,
      taken,
    )

-- The frames of a client's writers that are those of the request.
asked-frames_of :
    (id k : ℕ) (r : Answer) (c : TunnelClient)
    → id < 2 ^ 64
    → IsUnasked id k c
    → frames_of id (c.write_chan ++ answer_wires id r) ≡ answer_wires id r
asked-frames_of id k r c fits u =
    frames_of-append id c.write_chan (answer_wires id r)
    ∙ ap (λ (x : List Str). x ++ frames_of id (answer_wires id r))
        (frames_of-none id c.write_chan u.none_queued)
    ∙ frames_of-all id (answer_wires id r)
        (answer-tested id true id fits ((nat_beq_iff id id).1 refl) (some r))

module _ (lib : RateLimiter) where
  open lib use {Limiter}

  -- Take a request that the rate limits admit, whose key has an open WebSocket connection on
  -- which the write succeeds, from a user whose connection takes bytes and has been sent no
  -- header; let the registered streams of the server be open, distinct and below the next
  -- numbers, with IDs left. Let a client that reads from a connection that is up, with an open
  -- channel, a writer that runs and at most 256 messages, and that has nothing to do with the ID
  -- yet, read the frame of the request, and let the target answer, with a header that
  -- http.ReadResponse parses. Then the request waits, and if the writer takes the messages that
  -- are in the channel, whatever requests they belong to, and the handler of the request and the
  -- writer then take turns, once for each message of the answer, neither the client nor the
  -- server that reads these frames panics, all of them were written to the connection, the wait
  -- ends, and the user has been sent the header of the response and the whole body.
  pub public_request-completes :
      (read_response : Str → Option Response) (target : Target) (now : ℕ) (r : Request) (key : Str)
      (conn i k : ℕ) (bytes : Str) (w : Writer) (s : Server Limiter) (answer : Answer)
      (resp : Response) (l : WriterLoop) (c : TunnelClient)
      → Open.IsWf s
      → HasIds s
      → IsAccepted lib now r key conn bytes s
      → w.alive ≡ true
      → w.header_written ≡ false
      → IsUnasked (next_id s) k c
      → IsAnswered target read_response bytes answer resp c
      → c.writers i ≡ some l
      → (s₁ s₂ : Server Limiter) × (m : Moved) × (public_request lib now true r w s
          ≡ ok (waiting (next_id s) s.next_stream, s₁))
        × ((s₁.sockets conn).written
            ≡ (s.sockets conn).written ++ wire_of (request_message (next_id s) bytes) ∷ [])
        × (happen_all target
              (reads (wire_of (request_message (next_id s) bytes))
                ∷ drain i c.next_handler
                    (length c.write_chan)
                    (length (answer_wires (next_id s) answer)))
              c
            ≡ ok m)
        × ((m.after.conns k).written ≡ (c.conns k).written ++ m.taken)
        × (on_frames read_response m.taken s₁ ≡ ok s₂)
        × ((s₂.streams s.next_stream).done ≡ true)
        × ((finish_done (next_id s) s.next_stream s₂).0.sent
            ≡ w.sent
              ++ (head resp.status_code (assign_all resp.header w.header) ++ joined answer.reads))
  public_request-completes read_response target now r key conn i k bytes w s answer resp l c v ids
        accepted up fresh unasked answered runs =
      let id = next_id s in
      let j = c.next_handler in
      let wires = answer_wires id answer in
      let fits : id < 2 ^ 64 = omega arith in
      let (m₀, e, taken) =
        asked-takes target id i k bytes answer l c fits unasked answered.answered runs in
      let (s₁, requested, sent, relayed) =
        public_request-IsRelayed lib read_response target now r key conn k bytes w s answer resp
          (drain i j (length c.write_chan) (length wires)) (only_these (length m₀.taken)) c v ids
          accepted up fresh unasked answered
          (drain-NotAsked id i j (length c.write_chan) (length wires))
          (drain-Holds i j (length c.write_chan) (length wires))
          (only_these-IsOther id (length m₀.taken)) in
      let m = relayed.moved in
      let same : m ≡ m₀ = ok_inj (sym relayed.runs ∙ e) in
      let read : mix (only_these (length m₀.taken)) m.taken ≡ m.taken =
        ap (λ (x : Moved). mix (only_these (length m₀.taken)) x.taken) same
        ∙ mix-only_these m₀.taken
        ∙ ap (λ (x : Moved). x.taken) (sym same) in
      let own : frames_of id (mix (only_these (length m₀.taken)) m.taken) ≡ wires =
        ap (frames_of id) (read ∙ ap (λ (x : Moved). x.taken) same ∙ taken)
        ∙ asked-frames_of id k answer c fits unasked in
      let over : relayed.coming ≡ [] =
        nothing_more wires relayed.coming
          (ap (λ (x : List Str). x ++ relayed.coming) (sym own) ∙ relayed.begins) in
      let (done, whole) =
        part_complete s.next_stream _ relayed.coming relayed.after over relayed.part in
      (
        s₁,
        relayed.after,
        m,
        requested,
        sent,
        relayed.runs,
        relayed.written_to,
        ap (λ (x : List Str). on_frames read_response x s₁) (sym read) ∙ relayed.read_by,
        done,
        whole,
      )
