-- ===== src/Control/Dispatcher.antt =====
-- internal/gateway_ctl/dispatcher/dispatcher.go: Send, sendLoop and the end of readLoop as steps of
-- goroutines. Where more than one case of a select is ready Go takes any, so each is a step. `sending`
-- are the calls of Send that wait in its second select and `answering` those that stand before the
-- third; `entered` is what the channel took, in order, and the last four lists are what became of it.
pub mod Order
pub mod Reading
pub mod Handled
mod Tests
use orbitproxy_go.Prelude.{
  ℕ, ◌<◌, ◌≡◌, Bool, true, false, List, [], ◌∷◌, ◌++◌, length, if◌then◌else◌,
}
use orbitproxy_go.Wire.Message.{Message}

-- The capacity of sendCh in NewDispatcher.
abbrev pub send_capacity : ℕ
send_capacity = 100

pub record Dispatcher : Type 0 where
  pub send_ch : List Message
  pub is_done : Bool
  pub send_loop : Bool
  pub sending : List Message
  pub answering : List Message
  pub in_flight : List Message
  pub entered : List Message
  pub written : List Message
  pub lost : List Message
  pub accepted : List Message
  pub answered_eof : List Message

unfoldable pub new_dispatcher : Dispatcher
new_dispatcher = record {
  send_ch = [];
  is_done = false;
  send_loop = true;
  sending = [];
  answering = [];
  in_flight = [];
  entered = [];
  written = [];
  lost = [];
  accepted = [];
  answered_eof = [];
}

-- closeOnce makes a second call do nothing.
unfoldable pub close_done : Dispatcher → Dispatcher
close_done d = record d { is_done = true }

-- The first select of Send.
unfoldable pub send_start : Message → Dispatcher → Dispatcher
send_start m d =
    if d.is_done
    then record d { answered_eof = m ∷ d.answered_eof }
    else record d { sending = m ∷ d.sending }

-- The second select: the end is seen, or the channel takes the message.
unfoldable pub send_eof : List Message → Message → List Message → Dispatcher → Dispatcher
send_eof before m after d = record d {
  sending = before ++ after;
  answered_eof = m ∷ d.answered_eof;
}

unfoldable pub send_put : List Message → Message → List Message → Dispatcher → Dispatcher
send_put before m after d = record d {
  sending = before ++ after;
  send_ch = d.send_ch ++ m ∷ [];
  entered = d.entered ++ m ∷ [];
  answering = m ∷ d.answering;
}

-- The third select: nil, unless the end has come meanwhile.
unfoldable pub send_answer : List Message → Message → List Message → Dispatcher → Dispatcher
send_answer before m after d =
    if d.is_done
    then record d { answering = before ++ after; answered_eof = m ∷ d.answered_eof }
    else record d { answering = before ++ after; accepted = m ∷ d.accepted }

-- sendLoop: `m := <-d.sendCh`, WriteMsg with its two results, and the case of doneCh.
unfoldable pub loop_take : Message → List Message → Dispatcher → Dispatcher
loop_take m rest d = record d { send_ch = rest; in_flight = m ∷ [] }

unfoldable pub loop_written : Message → Dispatcher → Dispatcher
loop_written m d = record d { in_flight = []; written = d.written ++ m ∷ [] }

unfoldable pub loop_failed : Message → Dispatcher → Dispatcher
unfolding close_done
loop_failed m d = record (close_done d) { in_flight = []; lost = m ∷ []; send_loop = false }

unfoldable pub loop_quit : Dispatcher → Dispatcher
loop_quit d = record d { send_loop = false }

pub data Step (d : Dispatcher) : Dispatcher → Type 0 where
  starts : (m : Message) → Step d (send_start m d)
  gives_up :
      (before after : List Message) (m : Message)
      → d.sending ≡ before ++ m ∷ after
      → d.is_done ≡ true
      → Step d (send_eof before m after d)
  puts :
      (before after : List Message) (m : Message)
      → d.sending ≡ before ++ m ∷ after
      → length d.send_ch < send_capacity
      → Step d (send_put before m after d)
  answers :
      (before after : List Message) (m : Message)
      → d.answering ≡ before ++ m ∷ after
      → Step d (send_answer before m after d)
  takes :
      (m : Message) (rest : List Message)
      → d.send_loop ≡ true
      → d.in_flight ≡ []
      → d.send_ch ≡ m ∷ rest
      → Step d (loop_take m rest d)
  writes : (m : Message) → d.in_flight ≡ m ∷ [] → Step d (loop_written m d)
  fails : (m : Message) → d.in_flight ≡ m ∷ [] → Step d (loop_failed m d)
  quits : d.send_loop ≡ true → d.in_flight ≡ [] → d.is_done ≡ true → Step d (loop_quit d)
  read_fails : Step d (close_done d)

-- A sequence of steps.
pub data Steps (d : Dispatcher) : Dispatcher → Type 0 where
  here : Steps d d
  next : {e f : Dispatcher} → Steps d e → Step e f → Steps d f
