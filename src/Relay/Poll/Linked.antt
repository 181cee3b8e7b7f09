-- ===== src/Relay/Poll/Linked.antt =====
-- A polling client whose URLs lead to the server.
use single_proxy.Base.{Str, codes, [], ◌∷◌, ◌++◌, none, some, index, nat_key, str_key, ◌≡◌, ◌≢◌}
use single_proxy.Http.Header.{Header, set}
use single_proxy.Http.Status.{status_ok, status_not_found}
use single_proxy.Client.Url.{poll_url, register_url, response_url}
use single_proxy.Client.Poll.{PollingClient}
use single_proxy.Server.Writer.{new_writer, error}
use single_proxy.Server.Writer.Response.{head}
use single_proxy.Relay.Poll.{Link}

abbrev pub json_header : Header
json_header = set (codes "Content-Type") (codes "application/json") []

abbrev pub unknown_key : Str
unknown_key = codes "Tunnel not registered. Please register first"

-- The URLs of the client lead to the server's paths, its key is in one piece, and http.Client reads
-- the server's answers: messages and receipts with status 200, and the refusal of an unknown key.
pub record IsLinked (link : Link) (c : PollingClient) : Type 0 where
  pub clear : index c.key (codes "/") ≡ none
  pub present : c.key ≢ []
  pub poll_path : link.path_of (poll_url c.server_url c.key) ≡ poll_url [] c.key
  pub register_path : link.path_of (register_url c.server_url c.key) ≡ register_url [] c.key
  pub response_path : link.path_of (response_url c.server_url c.key) ≡ response_url [] c.key
  pub reads_messages :
      (bytes : Str)
      → link.read_reply (head status_ok json_header ++ bytes)
        ≡ some (record { status_code = status_ok; body = some bytes })
  pub reads_receipts :
      (bytes : Str)
      → link.read_reply (head status_ok [] ++ bytes)
        ≡ some (record { status_code = status_ok; body = some bytes })
  pub reads_refusal :
      link.read_reply (error unknown_key status_not_found new_writer).sent
      ≡ some (record { status_code = status_not_found; body = some (unknown_key ++ 10 ∷ []) })
