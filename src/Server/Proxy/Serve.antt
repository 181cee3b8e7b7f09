-- ===== src/Server/Proxy/Serve.antt =====
-- What the path proxy answers.
use single_proxy.Base.{
  ℕ, Str, List, [], ◌∷◌, ◌++◌, true, false, some, ◌≡◌, ap, ◌∙◌, sym, append_assoc, append-nil,
}
use single_proxy.Http.Header.{add_all}
use single_proxy.Http.Address.{split_host_port, join_host_port}
use single_proxy.Protocol.Http.{Request}
use single_proxy.Server.Writer.{Writer, write, write_header}
use single_proxy.Server.Writer.Response.{head, write_header_first, write_again}
use single_proxy.Server.Limits.{RateLimiter, allowed}
use single_proxy.Server.State.{Server}
use single_proxy.Server.Public.Relay.{joined}
use single_proxy.Server.Proxy.{
  Network, Fetched, target, proxy_target, copy, write_fetched, fetch, serve_proxy, handle_proxy,
}

write-true :
    (bytes : Str) (w : Writer) → w.alive ≡ true → w.header_written ≡ true → (write bytes w).0 ≡ true
unfolding write
write-true bytes w up written = rw (written) up

copy-joined :
    (reads : List Str) (w : Writer)
    → w.alive ≡ true
    → w.header_written ≡ true
    → (copy reads w).sent ≡ w.sent ++ joined reads
unfolding copy
copy-joined [] w up written = sym (append-nil w.sent)
copy-joined ([] ∷ reads) w up written = copy-joined reads w up written
copy-joined ((b ∷ bytes) ∷ reads) w up written =
    let (up', written', sent) = write_again (b ∷ bytes) w up written in
    rw (write-true (b ∷ bytes) w up written) (
      copy-joined reads (write (b ∷ bytes) w).1 up' written'
      ∙ (ap (λ t. t ++ joined reads) sent ∙ append_assoc w.sent (b ∷ bytes) (joined reads)))

write_fetched-sent :
    (f : Fetched) (w : Writer)
    → w.alive ≡ true
    → w.header_written ≡ false
    → (write_fetched f w).sent
      ≡ w.sent ++ (head f.status_code (add_all f.header w.header) ++ joined f.reads)
unfolding write_fetched
write_fetched-sent f w up fresh =
    let w' : Writer = record w { header = add_all f.header w.header } in
    let (written, up', sent) = write_header_first w' fresh up f.status_code in
    copy-joined f.reads (write_header f.status_code w') up' written
    ∙ (ap (λ t. t ++ joined f.reads) sent
        ∙ append_assoc w.sent (head f.status_code (add_all f.header w.header)) (joined f.reads))

-- The request that is sent to a target.
abbrev pub rewritten : Network → Str → Str → Request → Request
rewritten net address path r = record r {
  path = path;
  request_uri = net.uri_of path r;
  host = address;
}

module _ (lib : RateLimiter) where
  open lib use {Limiter}

  -- Take a request for the path proxy from a parsable address that the limiter of that address
  -- allows, whose path names a target to which the network connects, and let the exchange of the
  -- request, with the path and the host rewritten to those of the target, give a response. Then a
  -- user whose connection takes bytes and has been sent no header is sent the status and the added
  -- headers of the response, and all that was read of its body, in order.
  pub handle_proxy-relays :
      (now : ℕ) (net : Network) (r : Request) (w : Writer) (s : Server Limiter)
      (ip ip_port host port path : Str) (f : Fetched)
      → split_host_port r.remote_addr ≡ some (ip, ip_port)
      → (allowed lib now s.config.ip_rate_limit ip s.ip_limiters).0 ≡ true
      → proxy_target r.path ≡ target host port path
      → net.dials (join_host_port host port) ≡ true
      → net.exchange (join_host_port host port) (rewritten net (join_host_port host port) path r)
        ≡ some f
      → w.alive ≡ true
      → w.header_written ≡ false
      → (handle_proxy lib now net r w s).0.sent
        ≡ w.sent ++ (head f.status_code (add_all f.header w.header) ++ joined f.reads)
  unfolding handle_proxy serve_proxy fetch
  handle_proxy-relays now net r w s ip ip_port host port path f address allows named dials got up
        fresh =
      rw (address, handle_proxy)
        (rw (allows)
          (rw (named, serve_proxy) (rw (dials) (rw (got) (write_fetched-sent f w up fresh)))))
