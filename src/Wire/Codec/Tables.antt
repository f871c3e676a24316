-- ===== src/Wire/Codec/Tables.antt =====
-- The type tables of the mapper: what `registerAll` makes of them.
use orbitproxy_go.Prelude.{ℕ, ◌≡◌, refl, some, arith}
use orbitproxy_go.Wire.Types.{MessageType, find_byte, type_byte, message_type_from_byte}
use orbitproxy_go.Wire.Codec.{find_type, new_msg_transport_mapper}

-- Every message type is registered, under its byte, in both directions.
pub registered :
    (t : MessageType)
    → (find_byte new_msg_transport_mapper.type_map (type_byte t) ≡ some t)
      × (find_type new_msg_transport_mapper.type_byte_map t ≡ some (type_byte t))
unfolding new_msg_transport_mapper find_byte find_type type_byte
registered MessageType.client_hello = (refl, refl)
registered _ = (refl, refl)

-- The mapper and byteTypeMap know the same bytes, with the same types.
pub type_map-eq-byte_type_map :
    (b : ℕ) → find_byte new_msg_transport_mapper.type_map b ≡ message_type_from_byte b
unfolding new_msg_transport_mapper find_byte message_type_from_byte
type_map-eq-byte_type_map b = ground arith
