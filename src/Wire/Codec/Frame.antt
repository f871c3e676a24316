-- ===== src/Wire/Codec/Frame.antt =====
-- The frame of a message is self-delimiting: `read_frame` takes back exactly what `encode` lays out.
use mathlib.Core.List.{append_assoc}
use orbitproxy_go.Prelude.{
  ℕ, zero, suc, ◌^◌, ◌≤◌, ◌<◌, ◌≡◌, refl, ap, subst, some, [], ◌∷◌, ◌++◌, arith, length, take, drop,
  length-append, take_append, drop_append, length-take, take-append-drop, ◌⊎◌, inl, inr,
  Option-cases,
}
use orbitproxy_go.Wire.Types.{MessageType, find_byte}
use orbitproxy_go.Wire.Message.{Bytes}
use orbitproxy_go.Wire.Codec.{
  MsgTransportMapper, ReadFull, full, read_full, put_uint64, get_uint64, read_frame, read_sized,
  read_payload_of, check_length, ok,
}

-- The bytes of a frame with the type byte `b`.
abbrev pub frame : ℕ → Bytes → Bytes
frame b payload = b ∷ (put_uint64 (length payload) ++ payload)

pub get_uint64-put_uint64 : (n : ℕ) → n < 2 ^ 64 → get_uint64 0 (put_uint64 n) ≡ n
unfolding get_uint64 put_uint64
get_uint64-put_uint64 n h = omega arith

pub length-put_uint64 : (n : ℕ) → length (put_uint64 n) ≡ 8
unfolding put_uint64
length-put_uint64 n = refl

pub read_full_append : (n : ℕ) (xs ys : Bytes) → length xs ≡ n → read_full n (xs ++ ys) ≡ full xs ys
unfolding read_full
read_full_append zero [] ys h = refl
read_full_append zero (x ∷ xs) ys h = absurd (omega arith)
read_full_append (suc n) [] ys h = absurd (omega arith)
read_full_append (suc n) (x ∷ xs) ys h = ground (
  arith,
  length-append xs ys,
  take_append xs ys,
  drop_append xs ys,
  ap (λ k. take k (xs ++ ys)) h,
  ap (λ k. drop k (xs ++ ys)) h,
)

pub get_uint64_one : (b : ℕ) → get_uint64 0 (b ∷ []) ≡ b
unfolding get_uint64
get_uint64_one b = omega arith

pub check_length_fits :
    (m : MsgTransportMapper) (n : ℕ)
    → n ≤ m.max_msg_length
    → m.max_msg_length < 2 ^ 63
    → check_length m n ≡ ok tt
unfolding check_length
check_length_fits m n fits small = ground arith

check_length_inv :
    (m : MsgTransportMapper) (n : ℕ) {u : Unit {0}}
    → check_length m n ≡ ok u
    → (n ≤ m.max_msg_length) × (n < 2 ^ 63)
unfolding check_length
check_length_inv m n h = ground arith

-- Reading a frame of a registered type with a payload in the limit gives the payload and leaves the
-- bytes that follow.
pub read_frame-frame :
    (m : MsgTransportMapper) (b : ℕ) (payload rest : Bytes) {t : MessageType}
    → find_byte m.type_map b ≡ some t
    → length payload ≤ m.max_msg_length
    → m.max_msg_length < 2 ^ 63
    → read_frame m (frame b payload ++ rest) ≡ ok (b, payload, rest)
unfolding read_frame read_sized read_payload_of
read_frame-frame m b payload rest known fits small =
    let tail : Bytes = put_uint64 (length payload) ++ payload ++ rest in
    let lost : put_uint64 (length payload) ++ payload ++ rest
        ≡ put_uint64 (length payload) ++ (payload ++ rest) =
      append_assoc (put_uint64 (length payload)) payload rest in
    ground (
      arith,
      lost,
      read_full_append 1 (b ∷ []) tail refl,
      get_uint64_one b,
      read_full_append 8 (put_uint64 (length payload)) (payload ++ rest)
          (length-put_uint64 (length payload)),
      get_uint64-put_uint64 (length payload) (omega arith),
      read_full_append (length payload) payload rest refl,
      check_length_fits m (length payload) fits small,
    )

pub read_full_inv :
    (n : ℕ) (r : Bytes) {xs ys : Bytes}
    → read_full n r ≡ full xs ys
    → (r ≡ xs ++ ys) × (length xs ≡ n)
unfolding read_full
read_full_inv zero r h = (ground arith, ground arith)
read_full_inv (suc n) [] h = cc
read_full_inv (suc n) (x ∷ r) h =
    (ground (arith, take-append-drop n r), ground (arith, length-take n r))

-- Every element is a byte.
abbrev pub IsBytes : Bytes → Type 0
IsBytes [] = Unit
IsBytes (b ∷ bs) = (b < 256) × IsBytes bs

pub IsBytes-split : (xs ys : Bytes) → IsBytes (xs ++ ys) → IsBytes xs × IsBytes ys
IsBytes-split [] ys h = (tt, h)
IsBytes-split (x ∷ xs) ys h = let ih = IsBytes-split xs ys h.1 in ((h.0, ih.0), ih.1)

put_uint64-get_uint64 :
    (bs : Bytes) → length bs ≡ 8 → IsBytes bs → put_uint64 (get_uint64 0 bs) ≡ bs
unfolding put_uint64 get_uint64
put_uint64-get_uint64 (a ∷ b ∷ c ∷ d ∷ e ∷ f ∷ g ∷ h ∷ []) len small = ground arith
put_uint64-get_uint64 bs len small = absurd (omega arith)

get_uint64-lt : (bs : Bytes) → length bs ≡ 8 → IsBytes bs → get_uint64 0 bs < 2 ^ 64
unfolding get_uint64
get_uint64-lt (a ∷ b ∷ c ∷ d ∷ e ∷ f ∷ g ∷ h ∷ []) len small = omega arith
get_uint64-lt bs len small = absurd (omega arith)

get_uint64_single : (bs : Bytes) → length bs ≡ 1 → bs ≡ get_uint64 0 bs ∷ []
unfolding get_uint64
get_uint64_single (b ∷ []) h = ground arith
get_uint64_single bs h = absurd (omega arith)

ReadFull-cases :
    (x : ReadFull)
    → ((a : Bytes) × (r : Bytes) × (x ≡ full a r))
      ⊎ ((x ≡ ReadFull.eof) ⊎ (x ≡ ReadFull.unexpected_eof))
ReadFull-cases (full a r) = inl (a, r, refl)
ReadFull-cases ReadFull.eof = inr (inl refl)
ReadFull-cases ReadFull.unexpected_eof = inr (inr refl)

pub read_payload_of_inv :
    (b len : ℕ) (r : Bytes) {c : ℕ} {payload rest : Bytes}
    → read_payload_of b len r ≡ ok (c, payload, rest)
    → (b ≡ c) × (read_full len r ≡ full payload rest)
unfolding read_payload_of
read_payload_of_inv b len r h = elim (ReadFull-cases (read_full len r)) [
  | inr bad ↦ ground arith
  | inl (first, tail, e) ↦ ground arith
]

pub read_sized_inv :
    (m : MsgTransportMapper) (b : ℕ) (r : Bytes) {c : ℕ} {payload rest : Bytes}
    → read_sized m b r ≡ ok (c, payload, rest)
    → (size : Bytes) × (tail : Bytes) × (read_full 8 r ≡ full size tail)
      × (check_length m (get_uint64 0 size) ≡ ok tt)
      × (read_payload_of b (get_uint64 0 size) tail ≡ ok (c, payload, rest))
unfolding read_sized
read_sized_inv m b r h = elim (ReadFull-cases (read_full 8 r)) [
  | inr bad ↦ absurd (ground arith)
  | inl (size, tail, e) ↦ (size, tail, e, ground arith, ground arith)
]

pub read_frame_parts :
    (m : MsgTransportMapper) (r : Bytes) {c : ℕ} {payload rest : Bytes}
    → read_frame m r ≡ ok (c, payload, rest)
    → (first : Bytes) × (tail : Bytes) × (t : MessageType) × (read_full 1 r ≡ full first tail)
      × (find_byte m.type_map (get_uint64 0 first) ≡ some t)
      × (read_sized m (get_uint64 0 first) tail ≡ ok (c, payload, rest))
unfolding read_frame
read_frame_parts m r h = elim (ReadFull-cases (read_full 1 r)) [
  | inr bad ↦ absurd (ground arith)
  | inl (first, tail, e) ↦ elim (Option-cases (find_byte m.type_map (get_uint64 0 first))) [
    | inl unknown ↦ absurd (ground arith)
    | inr (t, known) ↦ (first, tail, t, e, known, ground arith)
  ]
]

IsBytes-tail : (xs ys : Bytes) {r : Bytes} → r ≡ xs ++ ys → IsBytes r → IsBytes ys
IsBytes-tail xs ys e h = (IsBytes-split xs ys (subst IsBytes e h)).1

IsBytes-head : (xs ys : Bytes) {r : Bytes} → r ≡ xs ++ ys → IsBytes r → IsBytes xs
IsBytes-head xs ys e h = (IsBytes-split xs ys (subst IsBytes e h)).0

assemble_frame :
    (b : ℕ) (r first tail size body payload rest : Bytes)
    → IsBytes r
    → r ≡ first ++ tail
    → length first ≡ 1
    → get_uint64 0 first ≡ b
    → tail ≡ size ++ body
    → length size ≡ 8
    → body ≡ payload ++ rest
    → length payload ≡ get_uint64 0 size
    → r ≡ frame b payload ++ rest
assemble_frame b r first tail size body payload rest bytes r_is one b_is tail_is eight body_is len =
    let sized : put_uint64 (length payload) ≡ size = rw len (
      put_uint64-get_uint64 size eight
        (IsBytes-head size body tail_is (IsBytes-tail first tail r_is bytes))) in
    cc (get_uint64_single first one, append_assoc (put_uint64 (length payload)) payload rest)

-- Whatever is read was a frame: a read that succeeds has consumed the frame of its result and no
-- byte more, its type byte is registered, and its payload is within the limit.
pub read_frame_inv :
    (m : MsgTransportMapper) (r : Bytes) (b : ℕ) (payload rest : Bytes)
    → IsBytes r
    → read_frame m r ≡ ok (b, payload, rest)
    → (r ≡ frame b payload ++ rest)
      × (length payload ≤ m.max_msg_length)
      × ((t : MessageType) × (find_byte m.type_map b ≡ some t))
read_frame_inv m r b payload rest bytes h =
    let (first, tail, t, e₁, known, h₁) = read_frame_parts m r h in
    let (size, body, e₂, fits, h₂) = read_sized_inv m (get_uint64 0 first) tail h₁ in
    let (is_b, e₃) = read_payload_of_inv (get_uint64 0 first) (get_uint64 0 size) body h₂ in
    let (r_is, one) = read_full_inv 1 r e₁ in
    let (tail_is, eight) = read_full_inv 8 tail e₂ in
    let (body_is, len) = read_full_inv (get_uint64 0 size) body e₃ in
    (
      assemble_frame b r first tail size body payload rest bytes r_is one is_b tail_is eight body_is
          len,
      omega (arith, check_length_inv m (get_uint64 0 size) fits),
      (t, subst (λ c. find_byte m.type_map c ≡ some t) is_b known),
    )
