-- ===== src/Server/Writer.antt =====
-- httpResponseWriter of pkg/server/types.go, and http.Error. `sent` is what the connection has
-- accepted; `alive` says whether it accepts more, which the environment decides. The order of the
-- header lines is that of the association list, where Go leaves it open.
pub mod Response
use single_proxy.Base.{
  ℕ, Str, codes, List, [], ◌∷◌, ◌++◌, Bool, true, false, Option, none, some, if◌then◌else◌,
}
use single_proxy.Http.Header.{Header, set, del}
use single_proxy.Http.Status.{status_ok, status_text, decimal}

pub record Writer : Type 0 where
  pub header : Header
  pub status_code : ℕ
  pub header_written : Bool
  pub hijacked : Bool
  pub sent : Str
  pub alive : Bool

-- As handleHTTPConnection makes it.
abbrev pub new_writer : Writer
new_writer = record {
  header = [];
  status_code = 0;
  header_written = false;
  hijacked = false;
  sent = [];
  alive = true;
}

abbrev pub crlf : Str
crlf = 13 ∷ 10 ∷ []

-- fmt.Fprintf(w.conn, …) with the error ignored.
abbrev pub put : Str → Writer → Writer
put bytes w = if w.alive then record w { sent = w.sent ++ bytes } else w

unfoldable pub status_line : ℕ → Str
status_line code = codes "HTTP/1.1 " ++ (decimal code ++ (codes " " ++ (status_text code ++ crlf)))

unfoldable pub value_lines : Str → List Str → Str
value_lines key [] = []
value_lines key (v ∷ vs) = key ++ (codes ": " ++ (v ++ (crlf ++ value_lines key vs)))

unfoldable pub header_lines : Header → Str
unfolding value_lines
header_lines [] = []
header_lines ((key, vs) ∷ h) = value_lines key vs ++ header_lines h

-- (w *httpResponseWriter) WriteHeader
unfoldable pub write_header : ℕ → Writer → Writer
write_header code w =
    if w.header_written
    then w
    else put crlf (
        put (header_lines w.header)
          (put (status_line code) (record w { status_code = code; header_written = true })))

-- (w *httpResponseWriter) Write: whether it succeeds, and the writer after it.
unfoldable pub write : Str → Writer → Bool × Writer
unfolding write_header
write bytes w =
    let w' = if w.header_written then w else write_header status_ok w in (w'.alive, put bytes w')

-- (w *httpResponseWriter) Flush does nothing.
abbrev pub flush : Writer → Writer
flush w = w

-- (w *httpResponseWriter) Hijack; false is the error "connection already hijacked".
unfoldable pub hijack : Writer → Bool × Writer
hijack w = if w.hijacked then (false, w) else (true, record w { hijacked = true })

-- http.Error(w, message, code)
unfoldable pub error : Str → ℕ → Writer → Writer
unfolding write_header write
error message code w =
    let h = set (codes "X-Content-Type-Options") (codes "nosniff") (
      set (codes "Content-Type") (codes "text/plain; charset=utf-8")
        (del (codes "Content-Length") w.header)) in
    (write (message ++ 10 ∷ []) (write_header code (record w { header = h }))).1
