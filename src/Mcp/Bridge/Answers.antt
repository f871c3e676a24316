-- ===== src/Mcp/Bridge/Answers.antt =====
-- internal/mcp/mcpstdio/bridge.go: the answers of a work connection, and what reaches the child.
use orbitproxy_go.Prelude.{
  ◌==◌, ◌≡◌, refl, ◌⊎◌, inl, inr, true, false, ◌&&◌, Text, text_eq, text_eq_iff, codes, List, [],
  ◌∷◌, Option, none, some, length, take, arith, Bool-cases, Option-cases,
}
use orbitproxy_go.Mcp.Errors.{Err, Outcome, done, failed}
use orbitproxy_go.Mcp.JsonRpc.{Message, is_request, is_notification}
use orbitproxy_go.Mcp.Session.{Session, send_notification}
use orbitproxy_go.Mcp.Bridge.{
  Reading, Codec, Step, asks_pool, calls, notifies, invalidates, answers, no_request, no_body, body,
  max_body, derive_session_key, method_string, is_limit_error, is_dead_session_error,
  is_exited_on_start_error, pool_failed, synthesized_initialize, notified, call_failed, called,
  serve_message, after_pool, handle_work_conn,
}

-- The message is for the bridge itself: a request `initialize`, or the notification after it.
abbrev pub IsHandshake : Codec → Message → Type 0
IsHandshake codec m =
    ((method_string codec m ≡ codes "initialize") × (is_request m ≡ true))
    ⊎ ((method_string codec m ≡ codes "notifications/initialized") × (is_notification m ≡ true))

-- A step that is allowed for a connection whose body reads as `m`, if it does.
abbrev pub Allowed : Codec → Text → Option Message → Step → Type 0
Allowed codec key o (asks_pool k) = (k ≡ key) × ((m : Message) × (o ≡ some m))
Allowed codec key o (calls m) = (o ≡ some m) × (is_notification m ≡ false) × ¬ (IsHandshake codec m)
Allowed codec key o (notifies m) =
    (o ≡ some m) × (is_notification m ≡ true) × ¬ (IsHandshake codec m)
Allowed codec key o (invalidates k) = k ≡ key
Allowed codec key o (answers status b) = Unit

-- The steps are allowed, and the last of them is the only answer.
abbrev pub AnsweredOnce : Codec → Text → Option Message → List Step → Type 0
AnsweredOnce codec key o [] = ⊥
AnsweredOnce codec key o (answers status b ∷ rest) = rest ≡ []
AnsweredOnce codec key o (step ∷ rest) = Allowed codec key o step × AnsweredOnce codec key o rest

pool_failed-AnsweredOnce :
    (codec : Codec) (key : Text) (o : Option Message) (err : Err)
    → AnsweredOnce codec key o (pool_failed err ∷ [])
unfolding pool_failed
pool_failed-AnsweredOnce codec key o err = elim (Bool-cases (is_limit_error err)) [
  | inl full ↦ rw full refl
  | inr room ↦ rw room (elim (Bool-cases (is_exited_on_start_error err)) [
    | inl gone ↦ rw gone refl
    | inr other ↦ rw other refl
  ])
]

notified-AnsweredOnce :
    (codec : Codec) (key : Text) (o : Option Message) (r : Option Err)
    → AnsweredOnce codec key o (notified key r)
unfolding notified
notified-AnsweredOnce codec key o none = refl
notified-AnsweredOnce codec key o (some err) = elim (Bool-cases (is_dead_session_error err)) [
  | inl dead ↦ rw dead (refl, refl)
  | inr alive ↦ rw alive refl
]

called-AnsweredOnce :
    (codec : Codec) (key : Text) (o : Option Message) (r : Outcome Message)
    → AnsweredOnce codec key o (called codec key r)
unfolding called call_failed
called-AnsweredOnce codec key o (failed err) = elim (Bool-cases (is_dead_session_error err)) [
  | inl dead ↦ rw dead (refl, refl)
  | inr alive ↦ rw alive refl
]
called-AnsweredOnce codec key o (done resp) = elim (Option-cases (codec.marshal resp)) [
  | inl bad ↦ rw (bad, called) refl
  | inr (b, good) ↦ rw (good, called) refl
]

-- What the handler tests before it passes a message on.
not_ours_lem :
    (codec : Codec) (m : Message)
    → (text_eq (method_string codec m) (codes "initialize") && is_request m) ≡ false
    → (text_eq (method_string codec m) (codes "notifications/initialized") && is_notification m)
      ≡ false
    → ¬ (IsHandshake codec m)
not_ours_lem codec m first second (inl (method, kind)) =
    let same = (text_eq_iff (method_string codec m) (codes "initialize")).1 method in
    ground (arith, same, kind, first)
not_ours_lem codec m first second (inr (method, kind)) =
    let same = (text_eq_iff (method_string codec m) (codes "notifications/initialized")).1 method in
    ground (arith, same, kind, second)

serve_message-AnsweredOnce :
    (codec : Codec) (key : Text) (m : Message) (s : Session) (w : Option Text) (r : Outcome Message)
    → AnsweredOnce codec key (some m) (serve_message codec key m s w r)
unfolding serve_message synthesized_initialize
serve_message-AnsweredOnce codec key m s w r =
    elim (Bool-cases (text_eq (method_string codec m) (codes "initialize") && is_request m)) [
      | inl first ↦ rw first refl
      | inr past ↦
          rw past
            (elim (Bool-cases (
              text_eq (method_string codec m) (codes "notifications/initialized")
              && is_notification m)) [
                | inl second ↦ rw second refl
                | inr over ↦
                    let plain = not_ours_lem codec m past over in
                    rw over (elim (Bool-cases (is_notification m)) [
                      | inl note ↦ rw note (
                        (refl, note, plain),
                        notified-AnsweredOnce codec key (some m) (send_notification w s),
                      )
                      | inr call ↦
                          rw call ((refl, call, plain), called-AnsweredOnce codec key (some m) r)
                    ])
              ])
    ]

after_pool-AnsweredOnce :
    (codec : Codec) (key : Text) (m : Message) (got : Outcome Session) (w : Option Text)
    (r : Outcome Message)
    → AnsweredOnce codec key (some m) (after_pool codec key m got w r)
unfolding after_pool
after_pool-AnsweredOnce codec key m (failed err) w r =
    pool_failed-AnsweredOnce codec key (some m) err
after_pool-AnsweredOnce codec key m (done s) w r = serve_message-AnsweredOnce codec key m s w r

-- The message that the handler reads, if it does.
abbrev pub message_of : Codec → Reading → Option Message
message_of codec no_request = none
message_of codec no_body = none
message_of codec (body sent) = codec.unmarshal (take max_body sent)

-- On each path through the handler there is one answer to the client, as the last step. The pool is
-- asked for a session only for a body whose first 2 MiB are a JSON-RPC message, that message is all
-- that the child gets, as a call or as a notification by its kind, and it is neither a request
-- `initialize` nor a notification `notifications/initialized`; no session but that of the endpoint is
-- asked for or invalidated.
pub handle_work_conn-AnsweredOnce :
    (codec : Codec) (endpoint_id : Text) (reading : Reading) (got : Outcome Session)
    (w : Option Text) (r : Outcome Message)
    → AnsweredOnce codec endpoint_id
        (message_of codec reading)
        (handle_work_conn codec endpoint_id reading got w r)
unfolding handle_work_conn derive_session_key
handle_work_conn-AnsweredOnce codec endpoint_id no_request got w r = refl
handle_work_conn-AnsweredOnce codec endpoint_id no_body got w r = refl
handle_work_conn-AnsweredOnce codec endpoint_id (body sent) got w r =
    elim (Bool-cases (length (take max_body sent) == 0)) [
      | inl empty ↦ rw empty refl
      | inr some_bytes ↦ rw some_bytes (elim (Option-cases (codec.unmarshal (take max_body sent))) [
        | inl bad ↦ rw bad refl
        | inr (m, reads) ↦
            rw reads ((refl, (m, refl)), after_pool-AnsweredOnce codec endpoint_id m got w r)
      ])
    ]
