-- ===== src/Context.antt =====
-- context_propagation/interceptor.py and shared.py: a user id that travels from a client through
-- workflows and activities in a header. The context variable is passed along; the payload
-- converter is a parameter.
pub mod Reach
mod Tests
use samples_python.Base.{Option, none, some, List, [], ◌∷◌, ◌++◌, get, set_item}
use samples_python.Base.Text.{Text, text, text_eq}

abbrev pub header_key : Text
header_key = text "__my_user_id"

-- The value of the context variable `user_id`.
abbrev pub UserId : Type 0
UserId = Option Text

-- The calls of a client.
pub data ClientCall : Type 0 where
  start_workflow query_workflow signal_workflow start_workflow_update : ClientCall

-- The calls that a workflow makes.
pub data WorkflowCall : Type 0 where
  signal_child_workflow signal_external_workflow start_activity : WorkflowCall
  start_child_workflow start_local_activity : WorkflowCall

-- What a worker is asked to do.
pub data Inbound : Type 0 where
  execute_workflow handle_signal handle_query : Inbound
  handle_update_validator handle_update_handler execute_activity : Inbound

module _ {Payload : Type 0} (to_payload : Text → Payload) (from_payload : Payload → Text) where
  abbrev pub Headers : Type 0
  Headers = List (Text × Payload)

  unfoldable pub set_header_from_context : UserId → Headers → Headers
  set_header_from_context none headers = headers
  set_header_from_context (some []) headers = headers
  set_header_from_context (some (c ∷ cs)) headers =
      set_item header_key (to_payload (c ∷ cs)) headers

  -- The body runs with the user id of the header, if there is one, and the context is reset; it
  -- gives a result or an exception, and what it leaves in the context.
  abbrev with_payload : {A : Type 0} → Option Payload → (UserId → A × UserId) → UserId → A × UserId
  with_payload none body user_id = body user_id
  with_payload (some payload) body user_id = ((body (some (from_payload payload))).0, user_id)

  unfoldable pub context_from_header :
      {A : Type 0} → Headers → (UserId → A × UserId) → UserId → A × UserId
  context_from_header headers body user_id = with_payload (get header_key headers) body user_id

  -- The headers that a client's call goes out with.
  unfoldable pub client_outbound : ClientCall → UserId → Headers → Headers
  unfolding set_header_from_context
  client_outbound start_workflow user_id headers = set_header_from_context user_id headers
  client_outbound query_workflow user_id headers = set_header_from_context user_id headers
  client_outbound signal_workflow user_id headers = set_header_from_context user_id headers
  client_outbound start_workflow_update user_id headers = set_header_from_context user_id headers

  unfoldable pub workflow_outbound : WorkflowCall → UserId → Headers → Headers
  unfolding set_header_from_context
  workflow_outbound signal_child_workflow user_id headers = set_header_from_context user_id headers
  workflow_outbound signal_external_workflow user_id headers =
      set_header_from_context user_id headers
  workflow_outbound start_activity user_id headers = set_header_from_context user_id headers
  workflow_outbound start_child_workflow user_id headers = set_header_from_context user_id headers
  workflow_outbound start_local_activity user_id headers = set_header_from_context user_id headers

  -- A worker's work, around its body.
  unfoldable pub inbound :
      {A : Type 0} → Inbound → Headers → (UserId → A × UserId) → UserId → A × UserId
  unfolding context_from_header
  inbound execute_activity headers next user_id = context_from_header headers next user_id
  inbound execute_workflow headers next user_id = context_from_header headers next user_id
  inbound handle_signal headers next user_id = context_from_header headers next user_id
  inbound handle_query headers next user_id = context_from_header headers next user_id
  inbound handle_update_validator headers next user_id = context_from_header headers next user_id
  inbound handle_update_handler headers next user_id = context_from_header headers next user_id
