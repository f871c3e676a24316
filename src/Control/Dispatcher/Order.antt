-- ===== src/Control/Dispatcher/Order.antt =====
-- internal/gateway_ctl/dispatcher/dispatcher.go: messages keep their order, and Send after the end fails.
use orbitproxy_go.Prelude.{
  ℕ, ◌+◌, ◌≤◌, ◌<◌, ◌≡◌, refl, sym, ap, ◌∙◌, inl, inr, true, false, List, [], ◌∷◌, ◌++◌, length,
  arith, length-append, append_assoc, Bool-cases,
}
use orbitproxy_go.Wire.Message.{Message}
use orbitproxy_go.Control.Dispatcher.{
  Dispatcher, send_capacity, new_dispatcher, close_done, send_start, send_eof, send_put,
  send_answer, loop_take, loop_written, loop_failed, loop_quit, Step, starts, gives_up, puts,
  answers, takes, writes, fails, quits, read_fails, Steps, here, next,
}

record OrderInv (d : Dispatcher) : Type 0 where
  pub order : d.entered ≡ d.written ++ (d.lost ++ (d.in_flight ++ d.send_ch))
  pub bounded : length d.send_ch ≤ send_capacity
  pub kept : d.send_loop ≡ true → d.lost ≡ []
  pub emptied : d.send_loop ≡ false → d.in_flight ≡ []
  pub alive : d.is_done ≡ false → d.send_loop ≡ true

-- The sum of a weight over a list: two lists with the same sums for every weight hold the same
-- elements, as often.
abbrev pub total {ℓ} : {A : Type ℓ} → (A → ℕ) → List A → ℕ
total w [] = 0
total w (x ∷ xs) = w x + total w xs

total-append {ℓ} :
    {A : Type ℓ} (w : A → ℕ) (xs ys : List A) → total w (xs ++ ys) ≡ total w xs + total w ys
total-append w [] ys = omega arith
total-append w (x ∷ xs) ys = omega (arith, total-append w xs ys)

append_last : (w l f s t : List Message) → (w ++ (l ++ (f ++ s))) ++ t ≡ w ++ (l ++ (f ++ (s ++ t)))
append_last w l f s t =
    append_assoc w (l ++ (f ++ s)) t
    ∙ ap (λ x. w ++ x) (append_assoc l (f ++ s) t ∙ ap (λ x. l ++ x) (append_assoc f s t))

-- With a message in its hand the loop runs, and has lost none.
in_flight-lost :
    (d : Dispatcher) (m : Message)
    → OrderInv d
    → d.in_flight ≡ m ∷ []
    → (d.send_loop ≡ true) × (d.lost ≡ [])
in_flight-lost d m v held = elim (Bool-cases d.send_loop) [
  | inl running ↦ (running, v.kept running)
  | inr ended ↦ cc (v.emptied ended)
]

-- The list equation of OrderInv, where nothing is lost.
in_order :
    (d : Dispatcher)
    → OrderInv d
    → d.lost ≡ []
    → {f s : List Message} → d.in_flight ≡ f
    → d.send_ch ≡ s
    → d.entered ≡ d.written ++ (f ++ s)
in_order d v none_lost {f} {s} held queued =
    v.order
    ∙ ap (λ x. d.written ++ (x ++ (d.in_flight ++ d.send_ch))) none_lost
    ∙ ap (λ x. d.written ++ (x ++ d.send_ch)) held
    ∙ ap (λ x. d.written ++ (f ++ x)) queued

send_put-OrderInv :
    (before after : List Message) (m : Message) (d : Dispatcher)
    → length d.send_ch < send_capacity
    → OrderInv d
    → OrderInv (send_put before m after d)
unfolding send_put
send_put-OrderInv before after m d room v = record {
  order =
      ap (λ l. l ++ m ∷ []) v.order ∙ append_last d.written d.lost d.in_flight d.send_ch (m ∷ []);
  bounded = omega (arith, length-append d.send_ch (m ∷ []));
  kept = v.kept;
  emptied = v.emptied;
  alive = v.alive;
}

loop_take-OrderInv :
    (m : Message) (rest : List Message) (d : Dispatcher)
    → d.send_loop ≡ true
    → d.in_flight ≡ []
    → d.send_ch ≡ m ∷ rest
    → OrderInv d
    → OrderInv (loop_take m rest d)
unfolding loop_take
loop_take-OrderInv m rest d running empty queued v = record {
  order =
      in_order d v (v.kept running) empty queued
      ∙ ap (λ x. d.written ++ (x ++ m ∷ rest)) (sym (v.kept running));
  bounded = omega (arith, v.bounded, ap length queued);
  kept = v.kept;
  emptied = λ ended. cc;
  alive = v.alive;
}

loop_written-OrderInv :
    (m : Message) (d : Dispatcher) → d.in_flight ≡ m ∷ [] → OrderInv d → OrderInv (loop_written m d)
unfolding loop_written
loop_written-OrderInv m d held v =
    let (running, none_lost) = in_flight-lost d m v held in
    record {
      order =
          in_order d v none_lost held refl
          ∙ sym (append_assoc d.written (m ∷ []) d.send_ch)
          ∙ ap (λ x. (d.written ++ m ∷ []) ++ (x ++ d.send_ch)) (sym none_lost);
      bounded = v.bounded;
      kept = v.kept;
      emptied = λ ended. refl;
      alive = v.alive;
    }

loop_failed-OrderInv :
    (m : Message) (d : Dispatcher) → d.in_flight ≡ m ∷ [] → OrderInv d → OrderInv (loop_failed m d)
unfolding loop_failed close_done
loop_failed-OrderInv m d held v =
    let (running, none_lost) = in_flight-lost d m v held in
    record {
      order = in_order d v none_lost held refl;
      bounded = v.bounded;
      kept = λ h. cc;
      emptied = λ h. refl;
      alive = λ h. cc;
    }

-- A step that leaves the channel and the loop alone, and may set the end.
same-OrderInv :
    (d e : Dispatcher)
    → e.send_ch ≡ d.send_ch
    → e.in_flight ≡ d.in_flight
    → e.entered ≡ d.entered
    → e.written ≡ d.written
    → e.lost ≡ d.lost
    → e.send_loop ≡ d.send_loop
    → (e.is_done ≡ false → d.is_done ≡ false)
    → OrderInv d
    → OrderInv e
same-OrderInv d e c f n w l s done v = record {
  order = rw (c, f, n, w, l) v.order;
  bounded = omega (arith, v.bounded, ap length c);
  kept = λ h. l ∙ v.kept (sym s ∙ h);
  emptied = λ h. f ∙ v.emptied (sym s ∙ h);
  alive = λ h. s ∙ v.alive (done h);
}

Step-OrderInv : {d e : Dispatcher} → Step d e → OrderInv d → OrderInv e
unfolding send_start send_eof send_answer loop_quit close_done
Step-OrderInv {d} (starts m) v =
    same-OrderInv d (send_start m d) (ground arith) (ground arith) (ground arith) (ground arith)
      (ground arith) (ground arith) (λ h. ground arith) v
Step-OrderInv {d} (gives_up before after m at ended) v =
    same-OrderInv d _ refl refl refl refl refl refl (λ h. h) v
Step-OrderInv {d} (puts before after m at room) v = send_put-OrderInv before after m d room v
Step-OrderInv {d} (answers before after m at) v =
    same-OrderInv d (send_answer before m after d) (ground arith) (ground arith) (ground arith)
      (ground arith) (ground arith) (ground arith) (λ h. ground arith) v
Step-OrderInv {d} (takes m rest running empty queued) v =
    loop_take-OrderInv m rest d running empty queued v
Step-OrderInv {d} (writes m held) v = loop_written-OrderInv m d held v
Step-OrderInv {d} (fails m held) v = loop_failed-OrderInv m d held v
Step-OrderInv {d} (quits running empty ended) v = record {
  order = v.order;
  bounded = v.bounded;
  kept = λ h. cc;
  emptied = λ h. empty;
  alive = λ h. cc;
}
Step-OrderInv {d} read_fails v = same-OrderInv d _ refl refl refl refl refl refl (λ h. cc) v

Steps-OrderInv : {d e : Dispatcher} → Steps d e → OrderInv d → OrderInv e
Steps-OrderInv here v = v
Steps-OrderInv (next r s) v = Step-OrderInv s (Steps-OrderInv r v)

new_dispatcher-OrderInv : OrderInv new_dispatcher
unfolding new_dispatcher
new_dispatcher-OrderInv = record {
  order = refl;
  bounded = omega arith;
  kept = λ h. refl;
  emptied = λ h. refl;
  alive = λ h. refl;
}

-- In every order of the steps of Send, sendLoop and readLoop the messages that the channel took are,
-- in the order in which it took them, those written, the one whose write failed, the one that
-- sendLoop holds, and the queue, which never has more than 100; and until Done is closed none is
-- lost.
pub Steps-order :
    {d : Dispatcher}
    → Steps new_dispatcher d
    → (d.entered ≡ d.written ++ (d.lost ++ (d.in_flight ++ d.send_ch)))
      × (length d.send_ch ≤ send_capacity)
      × (d.is_done ≡ false → d.lost ≡ [])
Steps-order r =
    let v = Steps-OrderInv r new_dispatcher-OrderInv in
    (v.order, v.bounded, λ running. v.kept (v.alive running))

Step-total :
    (w : Message → ℕ) {d e : Dispatcher}
    → Step d e
    → total w d.accepted + total w d.answering ≤ total w d.entered
    → total w e.accepted + total w e.answering ≤ total w e.entered
unfolding send_start send_eof send_put send_answer loop_take loop_written loop_failed loop_quit
    close_done
Step-total w {d} (starts m) b = ground arith
Step-total w (gives_up before after m at ended) b = b
Step-total w {d} (puts before after m at room) b = omega (arith, total-append w d.entered (m ∷ []))
Step-total w {d} (answers before after m at) b =
    ground (arith, ap (total w) at, total-append w before (m ∷ after), total-append w before after)
Step-total w (takes m rest running empty queued) b = b
Step-total w (writes m held) b = b
Step-total w (fails m held) b = b
Step-total w (quits running empty ended) b = b
Step-total w read_fails b = b

-- Each message for which Send returned nil went into the channel: for every weight of messages, the
-- sum over those that Send accepted or has still to answer, past its second select, is at most the
-- sum over those that the channel took.
pub Steps-accepted :
    (w : Message → ℕ) {d : Dispatcher}
    → Steps new_dispatcher d
    → total w d.accepted + total w d.answering ≤ total w d.entered
unfolding new_dispatcher
Steps-accepted w here = omega arith
Steps-accepted w (next r s) = Step-total w s (Steps-accepted w r)

Step-ended :
    {d e : Dispatcher}
    → Step d e
    → d.is_done ≡ true
    → (e.is_done ≡ true) × (e.accepted ≡ d.accepted)
unfolding send_start send_eof send_put send_answer loop_take loop_written loop_failed loop_quit
    close_done
Step-ended {d} (starts m) h = ground (arith, h)
Step-ended (gives_up before after m at ended) h = (h, refl)
Step-ended (puts before after m at room) h = (h, refl)
Step-ended {d} (answers before after m at) h = ground (arith, h)
Step-ended (takes m rest running empty queued) h = (h, refl)
Step-ended (writes m held) h = (h, refl)
Step-ended (fails m held) h = (refl, refl)
Step-ended (quits running empty ended) h = (h, refl)
Step-ended read_fails h = (refl, refl)

-- Once Done is closed it stays closed, and no call of Send returns nil any more, also none that has
-- put its message into the channel already.
pub Steps-ended :
    {d e : Dispatcher}
    → Steps d e
    → d.is_done ≡ true
    → (e.is_done ≡ true) × (e.accepted ≡ d.accepted)
Steps-ended here h = (h, refl)
Steps-ended (next r s) h =
    let (ended, same) = Steps-ended r h in
    let (ended', same') = Step-ended s ended in (ended', same' ∙ same)
