-- ===== src/Mcp/JsonRpc/Lines/Tests.antt =====
-- Two messages on two lines.
use orbitproxy_go.Prelude.{
  ◌≡◌, refl, Text, text_eq, codes, [], ◌∷◌, map, Option, none, some, arith, if◌then◌else◌,
}
use orbitproxy_go.Mcp.JsonRpc.{Message}
use orbitproxy_go.Mcp.JsonRpc.Lines.{
  message, drop_cr, read_stream, write_stream, OnOneLine, read_stream-write_stream,
}

abbrev pong : Message
pong = record {
  json_rpc = codes "\"2.0\"";
  id = codes "2";
  method = [];
  params = [];
  result = codes "true";
  error = [];
}

abbrev marshal : Message → Text
marshal m = codes "{pong}"

abbrev unmarshal : Text → Option Message
unmarshal t = if text_eq t (codes "{pong}") then some pong else none

pong-OnOneLine : OnOneLine unmarshal marshal pong
unfolding text_eq drop_cr
pong-OnOneLine = record {
  read_back = refl;
  one_line = (refl, (refl, (refl, (refl, (refl, (refl, tt))))));
  no_cr = refl;
  full = refl;
  short = omega arith;
}

read_stream-write_stream_example :
    read_stream unmarshal (write_stream marshal (pong ∷ pong ∷ [])) ≡ map message (pong ∷ pong ∷ [])
read_stream-write_stream_example =
    read_stream-write_stream unmarshal marshal (pong ∷ pong ∷ [])
      (pong-OnOneLine, (pong-OnOneLine, tt))
