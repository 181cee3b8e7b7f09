-- ===== src/Protocol/Wire.antt =====
-- The bytes of a message; SerializeTunnelMessage (pkg/protocol/message.go) never fails, and callers
-- that ignore its error use them.
use single_proxy.Base.{Str, [], none, some, ◌≡◌, refl}
use single_proxy.Protocol.Message.{
  TunnelMessage, IsValid, serialize_tunnel_message, deserialize_tunnel_message,
}
use single_proxy.Protocol.RoundTrip.{deserialize-serialize}

abbrev pub wire_of : TunnelMessage → Str
wire_of msg = elim (serialize_tunnel_message msg) [ none ↦ [] | some bytes ↦ bytes ]

pub serialize-wire_of : (msg : TunnelMessage) → serialize_tunnel_message msg ≡ some (wire_of msg)
unfolding serialize_tunnel_message
serialize-wire_of msg = refl

pub deserialize-wire_of :
    (msg : TunnelMessage) → IsValid msg → deserialize_tunnel_message (wire_of msg) ≡ some msg
deserialize-wire_of msg v = deserialize-serialize msg (wire_of msg) v (serialize-wire_of msg)
