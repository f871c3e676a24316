-- ===== src/Wire/Types.antt =====
-- wire/message.go: the message types, their names on the wire and their type bytes.
use orbitproxy_go.Prelude.{ℕ, Text, codes, Option, none, some, List, [], ◌∷◌, ◌==◌, if◌then◌else◌}

pub data MessageType : Type 0 where
  client_hello server_hello start_work_conn new_endpoint close_endpoint : MessageType
  endpoint_health discover_tools discover_tools_result : MessageType
  exec_preflight exec_preflight_result preflight preflight_result : MessageType
  endpoint_diagnostic disconnect stop restart update lifecycle_result : MessageType
  data_hello data_hello_ack : MessageType

-- The string constants MessageTypeClientHello and so on.
pub message_type_name : MessageType → Text
message_type_name client_hello = codes "client_hello"
message_type_name server_hello = codes "server_hello"
message_type_name start_work_conn = codes "start_work_conn"
message_type_name new_endpoint = codes "new_endpoint"
message_type_name close_endpoint = codes "close_endpoint"
message_type_name endpoint_health = codes "endpoint_health"
message_type_name discover_tools = codes "discover_tools"
message_type_name discover_tools_result = codes "discover_tools_result"
message_type_name exec_preflight = codes "exec_preflight"
message_type_name exec_preflight_result = codes "exec_preflight_result"
message_type_name preflight = codes "preflight"
message_type_name preflight_result = codes "preflight_result"
message_type_name endpoint_diagnostic = codes "endpoint_diagnostic"
message_type_name disconnect = codes "disconnect"
message_type_name stop = codes "stop"
message_type_name restart = codes "restart"
message_type_name update = codes "update"
message_type_name lifecycle_result = codes "lifecycle_result"
message_type_name data_hello = codes "data_hello"
message_type_name data_hello_ack = codes "data_hello_ack"

-- The byte constants TypeClientHello and so on.
unfoldable pub type_byte : MessageType → ℕ
type_byte client_hello = b'o'
type_byte server_hello = b'1'
type_byte start_work_conn = b's'
type_byte new_endpoint = b'3'
type_byte close_endpoint = b'e'
type_byte endpoint_health = b'H'
type_byte discover_tools = b'D'
type_byte discover_tools_result = b'F'
type_byte exec_preflight = b'P'
type_byte exec_preflight_result = b'Q'
type_byte preflight = b'R'
type_byte preflight_result = b'S'
type_byte endpoint_diagnostic = b'G'
type_byte disconnect = b'd'
type_byte stop = b't'
type_byte restart = b'x'
type_byte update = b'u'
type_byte lifecycle_result = b'L'
type_byte data_hello = b'a'
type_byte data_hello_ack = b'A'

-- A Go map literal or a map filled by registration, keyed by the type byte.
abbrev pub ByteMap : Type 0
ByteMap = List (ℕ × MessageType)

unfoldable pub find_byte : ByteMap → ℕ → Option MessageType
find_byte [] b = none
find_byte ((c, t) ∷ m) b = if c == b then some t else find_byte m b

-- byteTypeMap
unfoldable pub byte_type_map : ByteMap
unfolding type_byte
byte_type_map =
    (type_byte client_hello, client_hello)
    ∷ (type_byte server_hello, server_hello)
    ∷ (type_byte start_work_conn, start_work_conn)
    ∷ (type_byte new_endpoint, new_endpoint)
    ∷ (type_byte close_endpoint, close_endpoint)
    ∷ (type_byte endpoint_health, endpoint_health)
    ∷ (type_byte discover_tools, discover_tools)
    ∷ (type_byte discover_tools_result, discover_tools_result)
    ∷ (type_byte exec_preflight, exec_preflight)
    ∷ (type_byte exec_preflight_result, exec_preflight_result)
    ∷ (type_byte preflight, preflight)
    ∷ (type_byte preflight_result, preflight_result)
    ∷ (type_byte endpoint_diagnostic, endpoint_diagnostic)
    ∷ (type_byte disconnect, disconnect)
    ∷ (type_byte stop, stop)
    ∷ (type_byte restart, restart)
    ∷ (type_byte update, update)
    ∷ (type_byte lifecycle_result, lifecycle_result)
    ∷ (type_byte data_hello, data_hello)
    ∷ (type_byte data_hello_ack, data_hello_ack)
    ∷ []

unfoldable pub message_type_from_byte : ℕ → Option MessageType
unfolding find_byte byte_type_map
message_type_from_byte b = find_byte byte_type_map b
