-- ===== src/Control/Dispatcher/Reading.antt =====
-- internal/gateway_ctl/dispatcher/dispatcher.go: the table of handlers and readLoop. A handler is a value
-- of a type `H`, and the loop gives the list of its calls; fuel counts the rounds, and without fuel the
-- result is `none`.
use mathlib.Core.Logic.{ite}
use orbitproxy_go.Prelude.{ℕ, zero, suc, none, some, Option, List, [], ◌∷◌, ◌++◌}
use orbitproxy_go.Wire.Types.{MessageType}
use orbitproxy_go.Wire.Message.{Message, Bytes, msg_type}
use orbitproxy_go.Wire.Codec.{Json, ok, err, read_msg}

MessageType-discrete : Discrete MessageType
MessageType-discrete = hlevel

pub record Handlers {ℓ} (H : Type ℓ) : Type ℓ where
  pub msg_handlers : List (MessageType × H)
  pub default_handler : Option H

module _ {ℓ} {H : Type ℓ} where
  unfoldable pub no_handlers : Handlers H
  no_handlers = record { msg_handlers = []; default_handler = none }

  -- RegisterHandler: the latest handler of a type stands first, and is the one that is found.
  unfoldable pub register_handler : Message → H → Handlers H → Handlers H
  register_handler prototype h hs = record hs {
    msg_handlers = (msg_type prototype, h) ∷ hs.msg_handlers;
  }

  unfoldable pub set_default_handler : H → Handlers H → Handlers H
  set_default_handler h hs = record hs { default_handler = some h }

  unfoldable pub find_handler : List (MessageType × H) → MessageType → Option H
  unfolding MessageType-discrete
  find_handler [] t = none
  find_handler ((s, h) ∷ hs) t = ite (MessageType-discrete s t) (some h) (find_handler hs t)

  -- The calls of one round: the handler of the type, or else the default one.
  unfoldable pub handle_message : Handlers H → Message → List (H × Message)
  handle_message hs m = elim (find_handler hs.msg_handlers (msg_type m)) [
    | some h ↦ (h, m) ∷ []
    | none ↦ elim hs.default_handler [ some h ↦ (h, m) ∷ [] | none ↦ [] ]
  ]

  -- It ends at the first error of ReadMsg; the call of closeDone there is the step read_fails.
  unfoldable pub read_loop : Json → Handlers H → ℕ → Bytes → Option (List (H × Message))
  read_loop json hs zero r = none
  read_loop json hs (suc n) r = elim (read_msg json r) [
    | err e ↦ some []
    | ok (m, r') ↦ elim (read_loop json hs n r') [
      | none ↦ none
      | some calls ↦ some (handle_message hs m ++ calls)
    ]
  ]
