-- ===== src/Server/System/Timeout.antt =====
-- The end of a request by its timer (handlePublicHTTPRequest of pkg/server/handlers.go), and the
-- steps of the server behind it.
use single_proxy.Base.{
  ℕ, suc, Str, codes, List, [], ◌∷◌, ◌++◌, Bool, true, Option, some, All, lookup, length, nat_key,
  if◌then◌else◌, nat_beq_iff, ◌≡◌, sym, ap, ◌∙◌, arith, Bool-cases, inl, inr, lookup-delete,
  append_assoc,
}
use single_proxy.Http.Header.{Header, set, del}
use single_proxy.Http.Status.{status_gateway_timeout}
use single_proxy.Server.Writer.{Writer, error, write, write_header}
use single_proxy.Server.Writer.Response.{head, write_header_first, write_header_again, write_again}
use single_proxy.Server.Limits.{RateLimiter}
use single_proxy.Server.State.{Server, ok, Response}
use single_proxy.Server.Public.{finish_timeout}
use single_proxy.Server.Public.Open.{IsWf}
use single_proxy.Server.System.{Event, times_out, happen, happen_all}
use single_proxy.Server.System.Safe.{IsReady, timeout-IsReady}
use single_proxy.Server.System.Over.{IsOver}
use single_proxy.Server.System.Rests.{IsElse, happen_all-Rests}

-- The header map of http.Error
abbrev pub error_header : Header → Header
error_header h = set (codes "X-Content-Type-Options") (codes "nosniff") (
    set (codes "Content-Type") (codes "text/plain; charset=utf-8") (del (codes "Content-Length") h))

-- What the user is sent at a timeout: the head of a response with status 504, unless a header was
-- written, and the text.
abbrev pub timeout_bytes : Writer → Str
timeout_bytes w =
    (if w.header_written then [] else head status_gateway_timeout (error_header w.header))
    ++ (codes "Gateway Timeout" ++ 10 ∷ [])

error-sent :
    (w : Writer)
    → w.alive ≡ true
    → (error (codes "Gateway Timeout") status_gateway_timeout w).sent ≡ w.sent ++ timeout_bytes w
unfolding error
error-sent w up =
    let text = codes "Gateway Timeout" ++ 10 ∷ [] in
    let w₁ : Writer = record w { header = error_header w.header } in
    elim (Bool-cases w.header_written) [
      | inl written ↦
          ap (λ (x : Writer). (write text x).1.sent)
            (write_header_again status_gateway_timeout w₁ written)
          ∙ (write_again text w₁ up written).2
          ∙ ap
              (λ (b : Bool).
                w.sent ++ ((if b then [] else head status_gateway_timeout w₁.header) ++ text))
              (sym written)
      | inr fresh ↦
          let (begun, up', sent) = write_header_first w₁ fresh up status_gateway_timeout in
          (write_again text (write_header status_gateway_timeout w₁) up' begun).2
          ∙ ap (λ (x : Str). x ++ text) sent
          ∙ append_assoc w.sent (head status_gateway_timeout w₁.header) text
          ∙ ap
              (λ (b : Bool).
                w.sent ++ ((if b then [] else head status_gateway_timeout w₁.header) ++ text))
              (sym fresh)
    ]

module _ {Limiter : Type 0} where
  finish_timeout-IsOver :
      (id a : ℕ) (s : Server Limiter)
      → IsWf s
      → lookup id s.stream_handlers ≡ some a
      → IsOver a (finish_timeout id a s).1
  unfolding finish_timeout
  finish_timeout-IsOver id a s v e = record {
    free = λ j h. ground (arith, lookup-delete id j s.stream_handlers, v.live.distinct id j a e);
    old = v.used_streams id a e;
  }

module _ (lib : RateLimiter) (read_response : Str → Option Response) where
  open lib use {Limiter}

  -- Take a server whose registered streams are open, distinct and numbered below the counters, that
  -- has no polling clients, and whose counter of IDs is further from 2^64 than the number of steps,
  -- and let a registered request with a user whose connection takes bytes run into its timeout. Then
  -- whatever frames, registrations, ends of read loops, public requests or parts of them, and writes
  -- and timeouts of other streams follow, no channel is closed twice, and the user has been sent what it was sent before the timeout,
  -- the head of a response with status 504 if no header was written, the text, and nothing more.
  pub finish_timeout-final :
      (id a : ℕ) (es : List Event) (s : Server Limiter)
      → IsReady (suc (length es)) s
      → lookup id s.stream_handlers ≡ some a
      → (s.streams a).writer.alive ≡ true
      → All (IsElse a) es
      → (s' : Server Limiter) × (happen_all lib read_response (times_out id a ∷ es) s ≡ ok s')
        × ((s'.streams a).writer ≡ (finish_timeout id a s).0)
        × ((s'.streams a).writer.sent
            ≡ (s.streams a).writer.sent ++ timeout_bytes (s.streams a).writer)
  unfolding happen_all happen finish_timeout
  finish_timeout-final id a es s v e up others =
      let t = (finish_timeout id a s).1 in
      let (s', steps, same) =
        happen_all-Rests lib read_response a es t
          (timeout-IsReady lib read_response (length es) id a s v)
          (finish_timeout-IsOver id a s v.wf e) others in
      let writer : (s'.streams a).writer ≡ (finish_timeout id a s).0 =
        ap (λ st. st.writer) same ∙ ground (arith, nat_beq_iff a a) in
      (s', steps, writer, ap (λ w. w.sent) writer ∙ error-sent (s.streams a).writer up)
