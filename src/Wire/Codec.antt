-- ===== src/Wire/Codec.antt =====
-- wire/codec.go: the type tables of `MsgTransportMapper`, the frame of a message (type byte, int64
-- length in big-endian order, JSON payload), and reading and writing it. An io.Reader is the list of
-- the bytes that it still has; encoding/json is a parameter.
pub mod Tables
pub mod Frame
pub mod Stream
mod Tests
use mathlib.Core.Logic.{ite}
use orbitproxy_go.Prelude.{
  ℕ, zero, suc, ◌+◌, ◌*◌, ◌/◌, ◌%◌, ◌^◌, Option, none, some, List, [], ◌∷◌, ◌++◌, Bool, true, false,
  ltb, leb, ◌==◌, if◌then◌else◌, length, take, drop, ◌&&◌, ◌≡◌, refl,
}
use orbitproxy_go.Wire.Types
use orbitproxy_go.Wire.Types.{MessageType, ByteMap, find_byte, type_byte}
use orbitproxy_go.Wire.Message.{Message, Bytes, msg_type, zero_message}

MessageType-discrete : Discrete MessageType
MessageType-discrete = hlevel

-- The map from a struct type to its byte.
abbrev TypeMap : Type 0
TypeMap = List (MessageType × ℕ)

pub find_type : TypeMap → MessageType → Option ℕ
unfolding MessageType-discrete
find_type [] t = none
find_type ((s, b) ∷ m) t = ite (MessageType-discrete s t) (some b) (find_type m t)

pub record MsgTransportMapper : Type 0 where
  pub type_map : ByteMap
  pub type_byte_map : List (MessageType × ℕ)
  pub max_msg_length : ℕ

abbrev pub default_max_msg_length : ℕ
default_max_msg_length = 512 * 1024

-- The latest registration of a key stands first, and is the one that a lookup finds.
register_msg : MsgTransportMapper → ℕ → MessageType → MsgTransportMapper
register_msg m b t = record m {
  type_map = (b, t) ∷ m.type_map;
  type_byte_map = (t, b) ∷ m.type_byte_map;
}

register_each : MsgTransportMapper → List MessageType → MsgTransportMapper
unfolding register_msg type_byte
register_each m [] = m
register_each m (t ∷ ts) = register_each (register_msg m (type_byte t) t) ts

-- The calls of registerMsg, in order.
register_all : MsgTransportMapper → MsgTransportMapper
unfolding register_each
register_all m = register_each m (
    MessageType.client_hello ∷ MessageType.server_hello ∷ MessageType.start_work_conn
    ∷ MessageType.new_endpoint ∷ MessageType.close_endpoint ∷ MessageType.endpoint_health
    ∷ MessageType.discover_tools ∷ MessageType.discover_tools_result ∷ MessageType.exec_preflight
    ∷ MessageType.exec_preflight_result ∷ MessageType.preflight ∷ MessageType.preflight_result
    ∷ MessageType.endpoint_diagnostic ∷ MessageType.disconnect ∷ MessageType.stop
    ∷ MessageType.restart ∷ MessageType.update ∷ MessageType.lifecycle_result
    ∷ MessageType.data_hello ∷ MessageType.data_hello_ack ∷ [])

unfoldable pub new_msg_transport_mapper : MsgTransportMapper
unfolding register_all
new_msg_transport_mapper =
    register_all
      (record { type_map = []; type_byte_map = []; max_msg_length = default_max_msg_length })

-- What io.ReadFull(r, buf) does for a buffer of `n` bytes.
pub data ReadFull : Type 0 where
  full : Bytes → Bytes → ReadFull
  eof unexpected_eof : ReadFull

unfoldable pub read_full : ℕ → Bytes → ReadFull
read_full zero r = full [] r
read_full (suc n) [] = eof
read_full (suc n) (b ∷ r) =
    if leb (suc n) (length (b ∷ r))
    then full (take (suc n) (b ∷ r)) (drop (suc n) (b ∷ r))
    else unexpected_eof

-- binary.BigEndian for a 64-bit value.
unfoldable pub put_uint64 : ℕ → Bytes
put_uint64 n =
    (n / 2 ^ 56 % 256)
    ∷ (n / 2 ^ 48 % 256)
    ∷ (n / 2 ^ 40 % 256)
    ∷ (n / 2 ^ 32 % 256)
    ∷ (n / 2 ^ 24 % 256)
    ∷ (n / 2 ^ 16 % 256)
    ∷ (n / 2 ^ 8 % 256)
    ∷ (n % 256)
    ∷ []

unfoldable pub get_uint64 : ℕ → Bytes → ℕ
get_uint64 acc [] = acc
get_uint64 acc (b ∷ bs) = get_uint64 (acc * 256 + b) bs

-- The errors of readFrame, decode and encode; a wrapped cause is an argument.
pub data Cause : Type 0 where
  eof unexpected_eof : Cause

pub data WireError : Type 0 where
  read_type read_length read_payload : Cause → WireError
  msg_type_error max_msg_length_error msg_length_error msg_format_error : WireError
  decode_error marshal_error : WireError
  unknown_type : MessageType → WireError

pub data Result {ℓ} (V : Type ℓ) : Type ℓ where
  err : WireError → Result V
  ok : V → Result V

infixl 5 ◌>>=◌ ◌>>◌
abbrev pub ◌>>=◌ {ℓ κ} : {V : Type ℓ} {W : Type κ} → Result V → (V → Result W) → Result W
err cause >>= next = err cause
ok v >>= next = next v

abbrev pub ◌>>◌ {ℓ} : {W : Type ℓ} → Result (Unit {0}) → Result W → Result W
first >> second = first >>= λ _. second

abbrev pub guard : Bool → WireError → Result (Unit {0})
guard holds cause = if holds then ok tt else err cause

-- A chain that succeeds has a first step that does.
pub >>=-eq-ok {ℓ κ} :
    {V : Type ℓ} {W : Type κ} (first : Result V) (next : V → Result W) {w : W}
    → (first >>= next) ≡ ok w
    → (v : V) × (first ≡ ok v) × (next v ≡ ok w)
>>=-eq-ok (err cause) next succeeds = cc
>>=-eq-ok (ok v) next succeeds = (v, refl, succeeds)

abbrev pub from_read : ReadFull → (Cause → WireError) → Result (Bytes × Bytes)
from_read (full bs r) e = ok (bs, r)
from_read ReadFull.eof e = err (e Cause.eof)
from_read ReadFull.unexpected_eof e = err (e Cause.unexpected_eof)

abbrev pub or_fail {ℓ} : {A : Type ℓ} → Option A → WireError → Result A
or_fail none e = err e
or_fail (some a) e = ok a

-- The two tests on the length, a bit pattern of an int64: from 2 ^ 63 on it stands for a negative
-- number.
unfoldable pub check_length : MsgTransportMapper → ℕ → Result (Unit {0})
check_length m len = do
  guard (if ltb len (2 ^ 63) then leb len m.max_msg_length else true) max_msg_length_error
  guard (ltb len (2 ^ 63)) msg_length_error

-- The end of readFrame: the payload, once its length is known.
unfoldable pub read_payload_of : ℕ → ℕ → Bytes → Result (ℕ × Bytes × Bytes)
read_payload_of b len r = do
  (payload, rest) ← from_read (read_full len r) read_payload
  guard (length payload == len) msg_format_error
  ok (b, payload, rest)

-- The middle of readFrame: the length, once the type byte is accepted.
unfoldable pub read_sized : MsgTransportMapper → ℕ → Bytes → Result (ℕ × Bytes × Bytes)
read_sized m b r = do
  (length_bytes, r₁) ← from_read (read_full 8 r) read_length
  let len = get_uint64 0 length_bytes
  check_length m len
  read_payload_of b len r₁

unfoldable pub read_frame : MsgTransportMapper → Bytes → Result (ℕ × Bytes × Bytes)
read_frame m r = do
  (type_bytes, r₁) ← from_read (read_full 1 r) read_type
  let b = get_uint64 0 type_bytes
  t ← or_fail (find_byte m.type_map b) msg_type_error
  read_sized m b r₁

-- encoding/json: Marshal of a message, and Unmarshal into a zero message of a type.
pub record Json : Type 0 where
  pub marshal : Message → Option Bytes
  pub unmarshal : MessageType → Bytes → Option Message

module _ (json : Json) (m : MsgTransportMapper) where
  unfoldable pub decode : ℕ → Bytes → Result Message
  decode b payload = do
    t ← or_fail (find_byte m.type_map b) msg_type_error
    if length payload == 0
        then ok (zero_message t)
        else or_fail (json.unmarshal t payload) decode_error

  unfoldable pub type_byte_for : Message → Result ℕ
  type_byte_for message =
      or_fail (find_type m.type_byte_map (msg_type message)) (unknown_type (msg_type message))

  unfoldable pub encode : Message → Result Bytes
  encode message = do
    b ← type_byte_for message
    content ← or_fail (json.marshal message) marshal_error
    ok (b ∷ (put_uint64 (length content % 2 ^ 64) ++ content))

  -- Read: the message and what the reader still holds.
  unfoldable pub read : Bytes → Result (Message × Bytes)
  read r = do (b, payload, rest) ← read_frame m r; message ← decode b payload; ok (message, rest)

  -- Write: what the writer has been given after it.
  unfoldable pub write : Bytes → Message → Result Bytes
  write w message = do frame ← encode message; ok (w ++ frame)

-- ReadMsg and WriteMsg use the default mapper.
unfoldable pub read_msg : Json → Bytes → Result (Message × Bytes)
read_msg json r = read json new_msg_transport_mapper r

unfoldable pub write_msg : Json → Bytes → Message → Result Bytes
write_msg json w message = write json new_msg_transport_mapper w message
