-- ===== src/Wire/Codec/Stream.antt =====
-- Messages on a control stream: what WriteMsg puts there, ReadMsg takes off, one after the other.
use mathlib.Core.List.{append_assoc, append-nil}
use orbitproxy_go.Prelude.{
  ℕ, zero, suc, ◌^◌, ◌≤◌, ◌<◌, ◌≡◌, refl, ap, sym, ◌∙◌, some, List, [], ◌∷◌, ◌++◌, arith, length,
}
use orbitproxy_go.Wire.Types.{MessageType, find_byte, type_byte}
use orbitproxy_go.Wire.Message.{Message, Bytes, msg_type}
use orbitproxy_go.Wire.Codec.{
  Json, Result, ok, err, ◌>>=◌, put_uint64, max_msg_length_error, new_msg_transport_mapper,
  read_frame, decode, type_byte_for, encode, read, write, read_msg, write_msg,
  default_max_msg_length, check_length, read_sized,
}
use orbitproxy_go.Wire.Codec.Tables.{registered}
use orbitproxy_go.Wire.Codec.Frame.{
  frame, read_frame-frame, read_full_append, get_uint64_one, length-put_uint64,
  get_uint64-put_uint64,
}

-- `Json` gives the message `m` back from its own text `content`, which is not empty and within the
-- limit of the reader.
pub record Encodes (json : Json) (m : Message) (content : Bytes) : Type 0 where
  pub marshals : json.marshal m ≡ some content
  pub unmarshals : json.unmarshal (msg_type m) content ≡ some m
  pub non_empty : 0 < length content
  pub fits : length content ≤ default_max_msg_length

module _ (json : Json) where
  mapper_limit : new_msg_transport_mapper.max_msg_length ≡ default_max_msg_length
  unfolding new_msg_transport_mapper
  mapper_limit = refl

  oversize_frame :
      (b : ℕ) (content rest : Bytes) {t : MessageType}
      → find_byte new_msg_transport_mapper.type_map b ≡ some t
      → default_max_msg_length < length content
      → length content < 2 ^ 63
      → read_frame new_msg_transport_mapper (frame b content ++ rest) ≡ err max_msg_length_error
  unfolding read_frame read_sized check_length
  oversize_frame b content rest known long small =
      let tail : Bytes = put_uint64 (length content) ++ content ++ rest in
      ground (
        arith,
        mapper_limit,
        append_assoc (put_uint64 (length content)) content rest,
        read_full_append 1 (b ∷ []) tail refl,
        get_uint64_one b,
        read_full_append 8 (put_uint64 (length content)) (content ++ rest)
            (length-put_uint64 (length content)),
        get_uint64-put_uint64 (length content) (omega arith),
      )

  -- Without a limit of its own, WriteMsg lays out the frame of the text.
  pub write_msg-frame :
      (w : Bytes) (m : Message) (content : Bytes)
      → json.marshal m ≡ some content
      → length content < 2 ^ 64
      → write_msg json w m ≡ ok (w ++ frame (type_byte (msg_type m)) content)
  unfolding write_msg write encode type_byte_for
  write_msg-frame w m content h small = ground (arith, (registered (msg_type m)).1)

  pub read_msg-frame :
      (m : Message) (content rest : Bytes)
      → Encodes json m content
      → read_msg json (frame (type_byte (msg_type m)) content ++ rest) ≡ ok (m, rest)
  unfolding read_msg read decode
  read_msg-frame m content rest e =
      let fits : length content ≤ new_msg_transport_mapper.max_msg_length =
        rw mapper_limit e.fits in
      let small : new_msg_transport_mapper.max_msg_length < 2 ^ 63 =
        rw mapper_limit (omega arith) in
      ground (
        arith,
        (registered (msg_type m)).0,
        read_frame-frame new_msg_transport_mapper (type_byte (msg_type m)) content rest
            (registered (msg_type m)).0 fits small,
      )

  -- One call after the other, on the same writer or reader.
  pub write_all : Bytes → List Message → Result Bytes
  write_all w [] = ok w
  write_all w (m ∷ ms) = write_msg json w m >>= λ w'. write_all w' ms

  pub read_all : ℕ → Bytes → Result (List Message × Bytes)
  read_all zero r = ok ([], r)
  read_all (suc n) r = do (m, r') ← read_msg json r; (ms, rest) ← read_all n r'; ok (m ∷ ms, rest)

  -- Each message of a list has a text that the reader accepts.
  abbrev pub AllEncode : List Message → Type 0
  AllEncode [] = Unit
  AllEncode (m ∷ ms) = ((content : Bytes) × Encodes json m content) × AllEncode ms

  -- The bytes that a list of such messages makes.
  abbrev pub stream_of : (ms : List Message) → AllEncode ms → Bytes
  stream_of [] h = []
  stream_of (m ∷ ms) h = frame (type_byte (msg_type m)) h.0.0 ++ stream_of ms h.1

  pub write_all-stream_of :
      (w : Bytes) (ms : List Message) (h : AllEncode ms) → write_all w ms ≡ ok (w ++ stream_of ms h)
  unfolding write_all
  write_all-stream_of w [] h = ap ok (sym (append-nil w))
  write_all-stream_of w (m ∷ ms) h =
      let e = h.0.1 in
      let f = frame (type_byte (msg_type m)) h.0.0 in
      rw (write_msg-frame w m h.0.0 e.marshals (omega (arith, e.fits)))
        (write_all-stream_of (w ++ f) ms h.1 ∙ ap ok (append_assoc w f (stream_of ms h.1)))

  read_all-stream_of :
      (ms : List Message) (rest : Bytes) (h : AllEncode ms)
      → read_all (length ms) (stream_of ms h ++ rest) ≡ ok (ms, rest)
  unfolding read_all
  read_all-stream_of [] rest h = refl
  read_all-stream_of (m ∷ ms) rest h =
      rw (append_assoc (frame (type_byte (msg_type m)) h.0.0) (stream_of ms h.1) rest) (
        ground (
          arith,
          read_msg-frame m h.0.0 (stream_of ms h.1 ++ rest) h.0.1,
          read_all-stream_of ms rest h.1,
        ))

  -- Any sequence of messages whose texts decode and fit, written one after the other to a stream,
  -- is read back in order, and what follows on the stream is left for the next read.
  pub read_all-write_all :
      (ms : List Message) (rest : Bytes)
      → AllEncode ms
      → (w : Bytes) × (write_all [] ms ≡ ok w) × (read_all (length ms) (w ++ rest) ≡ ok (ms, rest))
  read_all-write_all ms rest h =
      (stream_of ms h, write_all-stream_of [] ms h, read_all-stream_of ms rest h)

  -- WriteMsg has no limit and ReadMsg has one: a message whose text is longer than the limit is
  -- written without an error, and whoever reads that frame with the same code gets
  -- ErrMaxMsgLength, whatever follows.
  pub oversize_not_readable :
      (w : Bytes) (m : Message) (content rest : Bytes)
      → json.marshal m ≡ some content
      → default_max_msg_length < length content
      → length content < 2 ^ 63
      → (f : Bytes) × (write_msg json w m ≡ ok (w ++ f))
        × (read_msg json (f ++ rest) ≡ err max_msg_length_error)
  unfolding read_msg read
  oversize_not_readable w m content rest h long small =
      let b = type_byte (msg_type m) in
      (
        frame b content,
        write_msg-frame w m content h (omega arith),
        ground (arith, oversize_frame b content rest (registered (msg_type m)).0 long small),
      )
