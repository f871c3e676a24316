-- ===== src/Wire/Codec/Tests.antt =====
-- Runs of wire/codec.go on concrete frames.
use orbitproxy_go.Prelude.{
  ℕ, ◌≤◌, ◌≡◌, refl, none, some, List, [], ◌∷◌, ◌++◌, arith, length, replicate, length-replicate,
}
use orbitproxy_go.Wire.Types.{MessageType, type_byte, find_byte}
use orbitproxy_go.Wire.Message.{Message, Bytes, msg_type, zero_message}
use orbitproxy_go.Wire.Codec.{
  Json, ok, err, read_length, msg_type_error, msg_length_error, max_msg_length_error, Cause,
  new_msg_transport_mapper, read_msg, read, decode, read_frame, read_sized, read_payload_of,
  check_length, read_full, get_uint64, write_msg,
}
use orbitproxy_go.Wire.Codec.Frame.{frame, read_frame_inv}
use orbitproxy_go.Wire.Codec.Stream.{
  Encodes, write_all, read_all, read_all-write_all, oversize_not_readable,
}

-- An encoder that knows the zero messages.
abbrev empty_json : Json
empty_json = record {
  marshal = λ m. some (b'{' ∷ b'}' ∷ []);
  unmarshal = λ t content. some (zero_message t);
}

abbrev two_messages : List Message
two_messages = zero_message MessageType.stop ∷ Message.data_hello_ack ∷ []

stop-Encodes : Encodes empty_json (zero_message MessageType.stop) (b'{' ∷ b'}' ∷ [])
unfolding msg_type zero_message
stop-Encodes = record {
  marshals = refl;
  unmarshals = refl;
  non_empty = omega arith;
  fits = omega arith;
}

ack-Encodes : Encodes empty_json Message.data_hello_ack (b'{' ∷ b'}' ∷ [])
unfolding msg_type zero_message
ack-Encodes = record {
  marshals = refl;
  unmarshals = refl;
  non_empty = omega arith;
  fits = omega arith;
}

read_all-write_all_example :
    (w : Bytes) × (write_all empty_json [] two_messages ≡ ok w)
    × (read_all empty_json 2 (w ++ b'x' ∷ []) ≡ ok (two_messages, b'x' ∷ []))
read_all-write_all_example =
    read_all-write_all empty_json two_messages (b'x' ∷ [])
      ((_, stop-Encodes), ((_, ack-Encodes), tt))

padding : ℕ → Bytes
padding n = replicate n b' '

length-padding : (n : ℕ) → length (padding n) ≡ n
unfolding padding
length-padding n = length-replicate n b' '

abbrev long_json : Json
long_json = record { marshal = λ m. some (padding 524289); unmarshal = λ t content. none }

oversize_not_readable_example :
    (f : Bytes) × (write_msg long_json [] Message.data_hello_ack ≡ ok ([] ++ f))
    × (read_msg long_json (f ++ []) ≡ err max_msg_length_error)
oversize_not_readable_example =
    oversize_not_readable long_json [] Message.data_hello_ack (padding 524289) [] refl
      (omega (arith, length-padding 524289)) (omega (arith, length-padding 524289))

abbrev ack_frame : Bytes
ack_frame = b'A' ∷ 0 ∷ 0 ∷ 0 ∷ 0 ∷ 0 ∷ 0 ∷ 0 ∷ 2 ∷ b'{' ∷ b'}' ∷ b'!' ∷ []

ack_frame_read :
    read_frame new_msg_transport_mapper ack_frame ≡ ok (b'A', b'{' ∷ b'}' ∷ [], b'!' ∷ [])
unfolding new_msg_transport_mapper read_frame read_sized read_payload_of check_length read_full
    get_uint64 find_byte type_byte
ack_frame_read = refl

read_frame_inv_test :
    (ack_frame ≡ frame b'A' (b'{' ∷ b'}' ∷ []) ++ b'!' ∷ [])
    × (2 ≤ new_msg_transport_mapper.max_msg_length)
    × ((t : MessageType) × (find_byte new_msg_transport_mapper.type_map b'A' ≡ some t))
read_frame_inv_test =
    read_frame_inv new_msg_transport_mapper ack_frame b'A' (b'{' ∷ b'}' ∷ []) (b'!' ∷ [])
      (omega arith) ack_frame_read

-- A negative length, an unknown type byte and a length that is cut short.
bad_frames :
    (read_msg empty_json (b'A' ∷ 255 ∷ 255 ∷ 255 ∷ 255 ∷ 255 ∷ 255 ∷ 255 ∷ 255 ∷ [])
      ≡ err msg_length_error)
    × (read_msg empty_json (b'Z' ∷ []) ≡ err msg_type_error)
    × (read_msg empty_json (b'A' ∷ 0 ∷ []) ≡ err (read_length Cause.unexpected_eof))
unfolding read_msg read decode new_msg_transport_mapper read_frame read_sized read_payload_of
    check_length read_full get_uint64 find_byte type_byte
bad_frames = (refl, refl, refl)
