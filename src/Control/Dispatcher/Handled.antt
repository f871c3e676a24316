-- ===== src/Control/Dispatcher/Handled.antt =====
-- internal/gateway_ctl/dispatcher/dispatcher.go: readLoop ends on every stream, and hands each message
-- that was written to its handler, in order.
use orbitproxy_go.Prelude.{
  ℕ, zero, suc, ◌≡◌, refl, ap, ◌⊎◌, inl, inr, subst, ◌<◌, some, List, [], ◌∷◌, ◌++◌, length, arith,
  length-append,
}
use orbitproxy_go.Wire.Message.{Message, Bytes}
use orbitproxy_go.Wire.Codec.{
  Json, Result, ok, err, >>=-eq-ok, WireError, read_frame, decode, read, read_msg, read_full,
  get_uint64, new_msg_transport_mapper, MsgTransportMapper,
}
use orbitproxy_go.Wire.Codec.Frame.{
  read_full_inv, read_payload_of_inv, read_sized_inv, read_frame_parts,
}
use orbitproxy_go.Wire.Codec.Stream.{
  AllEncode, stream_of, write_all, write_all-stream_of, read_msg-frame,
}
use orbitproxy_go.Control.Dispatcher.Reading.{Handlers, handle_message, read_loop}

Result-cases {ℓ} :
    {V : Type ℓ} (r : Result V) → ((v : V) × (r ≡ ok v)) ⊎ ((e : WireError) × (r ≡ err e))
Result-cases (ok v) = inl (v, refl)
Result-cases (err e) = inr (e, refl)

read_frame_shorter :
    (m : MsgTransportMapper) (r : Bytes) {b : ℕ} {payload rest : Bytes}
    → read_frame m r ≡ ok (b, payload, rest)
    → length rest < length r
read_frame_shorter m r {b} {payload} {rest} h =
    let (first, tail, t, e₁, known, h₁) = read_frame_parts m r h in
    let (size, body, e₂, fits, h₂) = read_sized_inv m (get_uint64 0 first) tail h₁ in
    let (is_b, e₃) = read_payload_of_inv (get_uint64 0 first) (get_uint64 0 size) body h₂ in
    let (r_is, one) = read_full_inv 1 r e₁ in
    let (tail_is, eight) = read_full_inv 8 tail e₂ in
    let (body_is, len) = read_full_inv (get_uint64 0 size) body e₃ in
    omega (
      arith,
      one,
      ap length r_is,
      ap length tail_is,
      ap length body_is,
      length-append first tail,
      length-append size body,
      length-append payload rest,
    )

read_msg_shorter :
    (json : Json) (r : Bytes) {m : Message} {r' : Bytes}
    → read_msg json r ≡ ok (m, r')
    → length r' < length r
unfolding read_msg read
read_msg_shorter json r {m} {r'} h =
    let ((b, payload, rest), framed, h₁) = >>=-eq-ok (read_frame new_msg_transport_mapper r) _ h in
    let (message, decoded, h₂) = >>=-eq-ok (decode json new_msg_transport_mapper b payload) _ h₁ in
    let same : rest ≡ r' = cc h₂ in
    subst (λ x. length x < length r) same (read_frame_shorter new_msg_transport_mapper r framed)

read_msg_end : (json : Json) → (e : WireError) × (read_msg json [] ≡ err e)
unfolding read_msg read read_frame read_full
read_msg_end json = (_, refl)

module _ {ℓ} {H : Type ℓ} (json : Json) (hs : Handlers H) where
  read_loop_round :
      (n : ℕ) (r r' : Bytes) (m : Message) {calls : List (H × Message)}
      → read_msg json r ≡ ok (m, r')
      → read_loop json hs n r' ≡ some calls
      → read_loop json hs (suc n) r ≡ some (handle_message hs m ++ calls)
  unfolding read_loop
  read_loop_round n r r' m got rest = ground (arith, got, rest)

  read_loop_end :
      (n : ℕ) (r : Bytes) {e : WireError}
      → read_msg json r ≡ err e
      → read_loop json hs (suc n) r ≡ some []
  unfolding read_loop
  read_loop_end n r failed = ground (arith, failed)

  -- On any stream, one round for each byte and one more are enough: readLoop comes to its end.
  pub read_loop-total :
      (n : ℕ) (r : Bytes)
      → length r < n
      → (calls : List (H × Message)) × (read_loop json hs n r ≡ some calls)
  read_loop-total zero r small = absurd (omega (arith, small))
  read_loop-total (suc n) r small = elim (Result-cases (read_msg json r)) [
    | inr (e, failed) ↦ ([], read_loop_end n r failed)
    | inl ((m, r'), got) ↦
        let shorter : length r' < n = omega (arith, read_msg_shorter json r got) in
        let (calls, rest) = read_loop-total n r' shorter in
        (handle_message hs m ++ calls, read_loop_round n r r' m got rest)
  ]

  -- The calls for a list of messages.
  abbrev pub handled : List Message → List (H × Message)
  handled [] = []
  handled (m ∷ ms) = handle_message hs m ++ handled ms

  read_loop-stream_of :
      (n : ℕ) (ms : List Message) (h : AllEncode json ms)
      → length ms < n
      → read_loop json hs n (stream_of json ms h) ≡ some (handled ms)
  read_loop-stream_of zero ms h few = absurd (omega (arith, few))
  read_loop-stream_of (suc n) [] h few = read_loop_end n [] (read_msg_end json).1
  read_loop-stream_of (suc n) (m ∷ ms) h few =
      read_loop_round n (stream_of json (m ∷ ms) h) (stream_of json ms h.1) m
        (read_msg-frame json m h.0.0 (stream_of json ms h.1) h.0.1)
        (read_loop-stream_of n ms h.1 (omega (arith, few)))

  -- On the bytes that one side writes for any sequence of messages, whose texts decode and fit,
  -- readLoop, with more rounds than messages, calls for each message, in their order, the handler of
  -- its type or else the default one, skips a message that has neither, and ends.
  pub read_loop-write_all :
      (n : ℕ) (ms : List Message)
      → AllEncode json ms
      → length ms < n
      → (w : Bytes) × (write_all json [] ms ≡ ok w) × (read_loop json hs n w ≡ some (handled ms))
  read_loop-write_all n ms h few =
      (stream_of json ms h, write_all-stream_of json [] ms h, read_loop-stream_of n ms h few)
