-- ===== src/Control/Dispatcher/Tests.antt =====
-- Runs of the dispatcher. Two messages are sent, the first is written, and reading fails before the
-- second call of Send has answered; and two messages are read.
use orbitproxy_go.Prelude.{
  some, List, ℕ, ◌+◌, ◌≤◌, ◌≡◌, refl, true, false, codes, [], ◌∷◌, ◌++◌, length, arith,
}
use orbitproxy_go.Wire.Types.{MessageType}
use orbitproxy_go.Wire.Message.{Message, Bytes, msg_type, zero_message, restart}
use orbitproxy_go.Wire.Codec.{Json, ok}
use orbitproxy_go.Wire.Codec.Stream.{AllEncode, write_all}
use orbitproxy_go.Control.Dispatcher.Reading.{
  Handlers, no_handlers, register_handler, set_default_handler, find_handler, handle_message,
  read_loop,
}
use orbitproxy_go.Control.Dispatcher.Handled.{handled, read_loop-total, read_loop-write_all}
use orbitproxy_go.Control.Dispatcher.{
  Dispatcher, send_capacity, new_dispatcher, close_done, send_start, send_put, send_answer,
  loop_take, loop_written, Steps, here, next, starts, puts, answers, takes, writes, read_fails,
}
use orbitproxy_go.Control.Dispatcher.Order.{total, Steps-order, Steps-accepted, Steps-ended}

abbrev first : Message
first = restart (record { request_id = codes "r1" })

abbrev second : Message
second = restart (record { request_id = codes "r2" })

-- The first message is sent and written.
abbrev one_written : Dispatcher
one_written = loop_written first (
    loop_take first []
      (send_answer [] first [] (send_put [] first [] (send_start first new_dispatcher))))

-- The second is in the channel when reading fails.
abbrev ended : Dispatcher
ended = close_done (send_put [] second [] (send_start second one_written))

abbrev answered : Dispatcher
answered = send_answer [] second [] ended

one_written-Steps : Steps new_dispatcher one_written
unfolding new_dispatcher send_start send_put send_answer loop_take loop_written
one_written-Steps =
    next
      (next
        (next (next (next here (starts first)) (puts [] [] first refl (omega arith)))
          (answers [] [] first refl))
        (takes first [] refl refl refl))
      (writes first refl)

ended-Steps : Steps new_dispatcher ended
unfolding new_dispatcher send_start send_put send_answer loop_take loop_written close_done
ended-Steps =
    next (next (next one_written-Steps (starts second)) (puts [] [] second refl (omega arith)))
      read_fails

ended-answered : Steps ended answered
unfolding new_dispatcher send_start send_put send_answer loop_take loop_written close_done
ended-answered = next here (answers [] [] second refl)

answered_run :
    (answered.written ≡ first ∷ [])
    × (answered.accepted ≡ first ∷ [])
    × (answered.send_ch ≡ second ∷ [])
unfolding new_dispatcher send_start send_put send_answer loop_take loop_written close_done
answered_run = (refl, refl, refl)

Steps-order_example :
    (ended.entered ≡ ended.written ++ (ended.lost ++ (ended.in_flight ++ ended.send_ch)))
    × (length ended.send_ch ≤ send_capacity)
    × (ended.is_done ≡ false → ended.lost ≡ [])
Steps-order_example = Steps-order ended-Steps

abbrev one_each : Message → ℕ
one_each m = 1

Steps-accepted_test :
    total one_each ended.accepted + total one_each ended.answering ≤ total one_each ended.entered
Steps-accepted_test = Steps-accepted one_each ended-Steps

ended_is_done : ended.is_done ≡ true
unfolding close_done
ended_is_done = refl

Steps-ended_example : (answered.is_done ≡ true) × (answered.accepted ≡ ended.accepted)
Steps-ended_example = Steps-ended ended-answered ended_is_done

-- Two types of messages have a handler, a number here, and the others the default one.
abbrev table : Handlers ℕ
table = set_default_handler 9 (
    register_handler (zero_message MessageType.stop) 2
      (register_handler (zero_message MessageType.restart) 1 no_handlers))

-- An encoder that knows the zero messages.
abbrev plain_json : Json
plain_json = record {
  marshal = λ m. some (b'{' ∷ b'}' ∷ []);
  unmarshal = λ t content. some (zero_message t);
}

abbrev two_read : List Message
two_read = zero_message MessageType.stop ∷ Message.data_hello_ack ∷ []

two_read-AllEncode : AllEncode plain_json two_read
unfolding msg_type zero_message
two_read-AllEncode = (
  (
    b'{' ∷ b'}' ∷ [],
    record { marshals = refl; unmarshals = refl; non_empty = omega arith; fits = omega arith },
  ),
  (
    (
      b'{' ∷ b'}' ∷ [],
      record { marshals = refl; unmarshals = refl; non_empty = omega arith; fits = omega arith },
    ),
    tt,
  ),
)

read_loop-write_all_example :
    (w : Bytes) × (write_all plain_json [] two_read ≡ ok w)
    × (read_loop plain_json table 5 w ≡ some (handled plain_json table two_read))
read_loop-write_all_example =
    read_loop-write_all plain_json table 5 two_read two_read-AllEncode (omega arith)

two_handled :
    handled plain_json table two_read
    ≡ (2, zero_message MessageType.stop) ∷ (9, Message.data_hello_ack) ∷ []
unfolding handle_message find_handler register_handler set_default_handler no_handlers msg_type
    zero_message
two_handled = refl

read_loop-total_test :
    (calls : List (ℕ × Message)) × (read_loop plain_json table 3 (b'x' ∷ b'y' ∷ []) ≡ some calls)
read_loop-total_test = read_loop-total plain_json table 3 (b'x' ∷ b'y' ∷ []) (omega arith)
