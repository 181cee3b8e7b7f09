-- ===== src/Client/Stream.antt =====
-- handleHTTPRequest and streamResponseBody of pkg/client/client.go: the messages that a WebSocket
-- client queues for one request. The target's answer is given: what http.Client returns, and the
-- pieces that the reads of its body return, some of which may be empty, up to the error or the end
-- that stops them. Reads use a buffer of 32 KB.
use single_proxy.Base.{ℕ, Str, codes, List, [], ◌∷◌, ◌++◌, Option, none, some, take, ◌*◌}
use single_proxy.Http.Header.{Header}
use single_proxy.Protocol.Http.{crlf, header_write}
use single_proxy.Protocol.Message.{TunnelMessage, msg_type_http_res, msg_type_http_res_chunk}

abbrev pub buffer_size : ℕ
buffer_size = 32 * 1024

pub record Answer : Type 0 where
  -- resp.Status, such as "200 OK"
  pub status : Str
  pub header : Header
  pub reads : List Str

unfoldable pub head_payload : Answer → Str
head_payload r = codes "HTTP/1.1 " ++ (r.status ++ (crlf ++ (header_write r.header ++ crlf)))

abbrev pub chunk_message : ℕ → Str → TunnelMessage
chunk_message id bytes = record { id = id; type = msg_type_http_res_chunk; payload = bytes }

-- The loop of streamResponseBody, and the empty chunk that ends the stream.
unfoldable pub body_messages : ℕ → List Str → List TunnelMessage
body_messages id [] = chunk_message id [] ∷ []
body_messages id ([] ∷ reads) = body_messages id reads
body_messages id ((b ∷ bytes) ∷ reads) = chunk_message id (b ∷ bytes) ∷ body_messages id reads

-- handleHTTPRequest: nothing where the request does not parse or the target does not answer
-- (`none`), else the header and the body.
unfoldable pub request_messages : ℕ → Option Answer → List TunnelMessage
unfolding head_payload body_messages
request_messages id none = []
request_messages id (some r) =
    record { id = id; type = msg_type_http_res; payload = head_payload r }
    ∷ body_messages id r.reads

-- The messages that are queued where the connection closes after `sent` of them.
abbrev pub queued : ℕ → ℕ → Option Answer → List TunnelMessage
queued sent id r = take sent (request_messages id r)
