-- ===== src/Protocol/Tests.antt =====
-- Runs of the wire format at concrete messages.
use single_proxy.Base.{Str, codes, [], ◌∷◌, ◌≡◌, refl, some, arith}
use single_proxy.Protocol.Message.{
  TunnelMessage, IsValid, serialize_tunnel_message, deserialize_tunnel_message,
}
use single_proxy.Protocol.RoundTrip.{deserialize-serialize, serialize-deserialize}

abbrev sample : TunnelMessage
sample = record { id = 0x0102; type = 3; payload = codes "ok" }

abbrev sample_wire : Str
sample_wire = 0 ∷ 0 ∷ 0 ∷ 0 ∷ 0 ∷ 0 ∷ 1 ∷ 2 ∷ 3 ∷ b'o' ∷ b'k' ∷ []

deserialize-serialize_example : deserialize_tunnel_message sample_wire ≡ some sample
unfolding serialize_tunnel_message
deserialize-serialize_example =
    deserialize-serialize sample sample_wire
      (record { id_fits = omega arith; type_fits = omega arith }) refl

serialize-deserialize_example :
    (serialize_tunnel_message sample ≡ some sample_wire) × IsValid sample
unfolding deserialize_tunnel_message
serialize-deserialize_example = serialize-deserialize sample_wire sample (omega arith) refl
