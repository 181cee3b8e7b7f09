-- ===== src/Protocol/RoundTrip.antt =====
-- The two directions of pkg/protocol/message.go undo one another.
use single_proxy.Base.{ℕ, ◌^◌, ◌≡◌, ◌<◌, ◌↔◌, Str, [], ◌∷◌, none, some, length, arith}
use single_proxy.Protocol.Message.{
  TunnelMessage, IsValid, AllBytes, serialize_tunnel_message, deserialize_tunnel_message, be_value,
  put_uint64,
}

-- The eight bytes of an ID determine it.
be_value-put_uint64 : (v : ℕ) → v < 2 ^ 64 → be_value 0 (put_uint64 v) ≡ v
be_value-put_uint64 v h = omega arith

-- And any eight bytes are those of an ID.
module _ (a b c d e f g h : ℕ) (bytes : AllBytes (a ∷ b ∷ c ∷ d ∷ e ∷ f ∷ g ∷ h ∷ [])) where
  be_value-lt : be_value 0 (a ∷ b ∷ c ∷ d ∷ e ∷ f ∷ g ∷ h ∷ []) < 2 ^ 64
  be_value-lt = omega arith

  put_uint64-be_value :
      put_uint64 (be_value 0 (a ∷ b ∷ c ∷ d ∷ e ∷ f ∷ g ∷ h ∷ []))
      ≡ a ∷ b ∷ c ∷ d ∷ e ∷ f ∷ g ∷ h ∷ []
  put_uint64-be_value = ground arith

-- A message that is sent is received unchanged.
pub deserialize-serialize :
    (msg : TunnelMessage) (wire : Str)
    → IsValid msg
    → serialize_tunnel_message msg ≡ some wire
    → deserialize_tunnel_message wire ≡ some msg
unfolding serialize_tunnel_message deserialize_tunnel_message
deserialize-serialize msg wire v e = ground (arith, be_value-put_uint64 msg.id v.id_fits)

pub serialize-deserialize :
    (wire : Str) (msg : TunnelMessage)
    → AllBytes wire
    → deserialize_tunnel_message wire ≡ some msg
    → (serialize_tunnel_message msg ≡ some wire) × IsValid msg
unfolding serialize_tunnel_message deserialize_tunnel_message
serialize-deserialize (a ∷ b ∷ c ∷ d ∷ e ∷ f ∷ g ∷ h ∷ t ∷ rest) msg bytes p =
    let eight : AllBytes (a ∷ b ∷ c ∷ d ∷ e ∷ f ∷ g ∷ h ∷ []) = omega arith in
    ground (arith, put_uint64-be_value a b c d e f g h eight, be_value-lt a b c d e f g h eight)
serialize-deserialize wire msg bytes p = absurd (ground arith)

-- Receiving fails on the wires of fewer than nine bytes, and only on them.
pub deserialize-eq-none_iff :
    (wire : Str) → (deserialize_tunnel_message wire ≡ none) ↔ (length wire < 9)
unfolding deserialize_tunnel_message
deserialize-eq-none_iff wire = ground arith
