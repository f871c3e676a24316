-- ===== src/Endpoint/Manager/Bridged.antt =====
-- internal/endpoint: the bridge is only given work connections of endpoints that the pool of child
-- processes knows.
use orbitproxy_go.Prelude.{text_Eq}
use orbitproxy_go.Mcp.Pool
use orbitproxy_go.Endpoint.Runtime.{Runtime}
use orbitproxy_go.Endpoint.Manager.{Manager}
use orbitproxy_go.Endpoint.Manager.Synced.{Synced}
