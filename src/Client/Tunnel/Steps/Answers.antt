-- ===== src/Client/Tunnel/Steps/Answers.antt =====
-- Whose frames the messages of an answer are.
use single_proxy.Base.{
  ℕ, ◌<◌, ◌^◌, Str, List, [], ◌∷◌, Bool, Option, none, some, All, map, ◌==◌, nat_key, ◌≡◌, ◌∙◌,
  arith,
}
use single_proxy.Protocol.Message.{TunnelMessage, IsValid}
use single_proxy.Protocol.Wire.{wire_of, deserialize-wire_of}
use single_proxy.Client.Stream.{Answer, body_messages, request_messages}
use single_proxy.Server.Tunnel.Streams.{concerns}

pub concerns-wire_of :
    (id : ℕ) (msg : TunnelMessage) → IsValid msg → concerns id (wire_of msg) ≡ (id == msg.id)
concerns-wire_of id msg v = rw (deserialize-wire_of msg v, concerns)

-- All messages of an answer have its ID.
module _ (id : ℕ) (b : Bool) (k : ℕ) (fits : id < 2 ^ 64) (tested : (k == id) ≡ b) where
  message-tested :
      (type : ℕ) (payload : Str)
      → type < 256
      → concerns k (wire_of (record { id = id; type = type; payload = payload })) ≡ b
  message-tested type payload small =
      concerns-wire_of k (record { id = id; type = type; payload = payload })
        (record { id_fits = fits; type_fits = small })
      ∙ tested

  body-tested :
      (pieces : List Str)
      → All (λ (wire : Str). concerns k wire ≡ b) (map wire_of (body_messages id pieces))
  unfolding body_messages
  body-tested [] = (message-tested _ _ (omega arith), tt)
  body-tested ([] ∷ pieces) = body-tested pieces
  body-tested ((c ∷ bytes) ∷ pieces) = (message-tested _ _ (omega arith), body-tested pieces)

  pub answer-tested :
      (answer : Option Answer)
      → All (λ (wire : Str). concerns k wire ≡ b) (map wire_of (request_messages id answer))
  unfolding request_messages
  answer-tested none = tt
  answer-tested (some r) = (message-tested _ _ (omega arith), body-tested r.reads)
