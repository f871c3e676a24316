-- ===== src/Wire/Message/Structs.antt =====
-- The payload structs of package wire: handshake.go, work.go, endpoint.go, endpoint_health.go,
-- discover_tools.go, exec_preflight.go, preflight.go, endpoint_diagnostic.go, disconnect.go,
-- lifecycle.go and data_hello.go. A `json.RawMessage` is its bytes.
use orbitproxy_go.Prelude.{ℕ, ℤ, Text, Bool, Option, List}

abbrev pub Bytes : Type 0
Bytes = List ℕ

pub record ClientHello : Type 0 where
  pub machine_key : Text
  pub soft_version : Text
  pub timestamp : ℤ
  pub nonce : Text
  pub auth_signature : Text

pub record ServerHello : Type 0 where
  pub edge_id : Text
  pub session_id : Text
  pub data_sessions : ℤ

pub record StartWorkConn : Type 0 where
  pub endpoint_id : Text
  pub route_version : Text
  pub source_addr : Text
  pub error : Text

pub record DiscoverToolsOptions : Type 0 where
  pub request_id : Text
  pub timeout_seconds : ℤ

pub record EndpointProxy : Type 0 where
  pub proxy_id : Text
  pub pub_host : Text
  pub pub_port : ℤ

pub record NewEndpoint : Type 0 where
  pub endpoint_id : Text
  pub category : Text
  pub protocol : Text
  pub local_service_payload : Bytes
  pub health_enabled : Bool
  pub health_interval_seconds : ℤ
  pub health_timeout_seconds : ℤ
  pub health_max_failed : ℤ
  pub proxies : List EndpointProxy
  pub discover_tools : Option DiscoverToolsOptions
  pub error : Text

pub record CloseEndpoint : Type 0 where
  pub endpoint_id : Text

pub record EndpointHealth : Type 0 where
  pub endpoint_id : Text
  pub healthy : Bool
  pub reason : Text
  pub error_code : Text
  pub ts : ℤ

pub record DiscoverTools : Type 0 where
  pub request_id : Text
  pub endpoint_id : Text
  pub timeout_seconds : ℤ

pub record DiscoveredTool : Type 0 where
  pub name : Text
  pub description : Text
  pub input_schema_json : Bytes

pub record DiscoverToolsResult : Type 0 where
  pub request_id : Text
  pub endpoint_id : Text
  pub status : Text
  pub error_code : Text
  pub error_message : Text
  pub truncated : Bool
  pub server_name : Text
  pub server_version : Text
  pub tools : List DiscoveredTool

pub record ExecPreflight : Type 0 where
  pub request_id : Text
  pub endpoint_id : Text
  pub command : Text
  pub args : List Text
  pub work_dir : Text

pub record ExecPreflightResult : Type 0 where
  pub request_id : Text
  pub endpoint_id : Text
  pub status : Text
  pub error_code : Text
  pub error_message : Text
  pub command_found : Bool
  pub command_executable : Bool
  pub workdir_exists : Bool
  pub resolved_path : Text

pub record Preflight : Type 0 where
  pub request_id : Text
  pub endpoint_id : Text
  pub timeout_seconds : ℤ
  pub skip_protocol : Bool

pub record PreflightResult : Type 0 where
  pub request_id : Text
  pub endpoint_id : Text
  pub status : Text
  pub error_code : Text
  pub error_message : Text
  pub truncated : Bool
  pub server_name : Text
  pub server_version : Text
  pub resolved_path : Text
  pub tools : List DiscoveredTool
  pub extra : Bytes

pub record EndpointDiagnostic : Type 0 where
  pub endpoint_id : Text
  pub level : Text
  pub error_code : Text
  pub message : Text
  pub stderr_tail : Text
  pub occurred_count : ℤ

pub record Disconnect : Type 0 where
  pub reason : Text
  pub reason_text : Text

pub record Stop : Type 0 where
  pub request_id : Text
  pub reason : Text
  pub reason_text : Text

pub record Restart : Type 0 where
  pub request_id : Text

pub record Update : Type 0 where
  pub request_id : Text
  pub download_url : Text
  pub version : Text
  pub artifact : Text

pub record LifecycleResult : Type 0 where
  pub request_id : Text
  pub status : Text
  pub error_code : Text
  pub error_message : Text
  pub version : Text

pub record DataHello : Type 0 where
  pub session_id : Text
  pub machine_key : Text
  pub index : ℤ
  pub timestamp : ℤ
  pub nonce : Text
  pub auth_signature : Text
