-- ===== src/Protocol/Message.antt =====
-- pkg/protocol/message.go. A message is the big-endian 64-bit ID, the type byte and the payload.
-- Bytes are numbers below 256 and the ID is below 2 ^ 64; `IsValid` says so.
use single_proxy.Base.{
  ℕ, ◌+◌, ◌*◌, ◌/◌, ◌%◌, ◌^◌, ◌<◌, Str, [], ◌∷◌, ◌++◌, Option, none, some, All, take, drop, length,
  ltb, if◌then◌else◌,
}

abbrev pub msg_type_http_req : ℕ
msg_type_http_req = 1

abbrev pub msg_type_http_res : ℕ
msg_type_http_res = 2

abbrev pub msg_type_http_res_chunk : ℕ
msg_type_http_res_chunk = 3

pub record TunnelMessage : Type 0 where
  pub id : ℕ
  pub type : ℕ
  pub payload : Str

-- What Go's types uint64, uint8 and []byte guarantee.
pub record IsValid (msg : TunnelMessage) : Type 0 where
  pub id_fits : msg.id < 2 ^ 64
  pub type_fits : msg.type < 256

-- binary.Write of a uint64 in big-endian order.
abbrev pub put_uint64 : ℕ → Str
put_uint64 v =
    (v / 2 ^ 56 % 256)
    ∷ (v / 2 ^ 48 % 256)
    ∷ (v / 2 ^ 40 % 256)
    ∷ (v / 2 ^ 32 % 256)
    ∷ (v / 2 ^ 24 % 256)
    ∷ (v / 2 ^ 16 % 256)
    ∷ (v / 2 ^ 8 % 256)
    ∷ (v % 256)
    ∷ []

-- binary.BigEndian.Uint64: the value of the bytes, the first one highest.
abbrev pub be_value : ℕ → Str → ℕ
be_value acc [] = acc
be_value acc (b ∷ bs) = be_value (acc * 256 + b) bs

-- data[i]
abbrev pub byte_at : ℕ → Str → ℕ
byte_at i s = elim (drop i s) [ [] ↦ 0 | b ∷ bs ↦ b ]

-- The writes go to a bytes.Buffer, which does not fail.
unfoldable pub serialize_tunnel_message : TunnelMessage → Option Str
serialize_tunnel_message msg = some (put_uint64 msg.id ++ ((msg.type % 256) ∷ []) ++ msg.payload)

unfoldable pub deserialize_tunnel_message : Str → Option TunnelMessage
deserialize_tunnel_message bytes =
    if ltb (length bytes) 9
    then none
    else some
        (record { id = be_value 0 (take 8 bytes); type = byte_at 8 bytes; payload = drop 9 bytes })

abbrev pub AllBytes : Str → Type 0
AllBytes = All (λ b. b < 256)
