-- ===== src/Mcp/JsonRpc/Lines.antt =====
-- internal/mcp/mcpstdio/jsonrpc.go: Writer and Reader, which carry a message on each line. A stream is
-- its bytes; json.Marshal and json.Unmarshal are parameters. bufio.Scanner takes a line up to a limit,
-- and fails for good at a longer one.
mod Tests
use orbitproxy_go.Prelude.{
  ℕ, suc, ◌*◌, ◌≤◌, ◌<◌, ◌==◌, ◌≡◌, refl, ap, ◌∙◌, inl, inr, leb, Bool, true, false, Text, text_eq,
  codes, List, [], ◌∷◌, ◌++◌, map, append_assoc, Option, none, some, length, arith, if◌then◌else◌,
  Bool-cases, Option-cases,
}
use orbitproxy_go.Prelude.Paths.{split}
use orbitproxy_go.Mcp.JsonRpc.{Message}

abbrev pub max_line : ℕ
max_line = 4 * 1024 * 1024

-- Write, where json.Marshal gives bytes.
unfoldable pub write_line : Text → Text
write_line raw = raw ++ b'\n' ∷ []

-- What Read gives: a message, or the NonJSONLineError of a line.
pub data Read : Type 0 where
  message : Message → Read
  non_json : Text → Read

-- The carriage return at the end of a line, which the scanner takes off.
unfoldable pub drop_cr : Text → Text
drop_cr [] = []
drop_cr (c ∷ []) = if c == b'\r' then [] else c ∷ []
drop_cr (c ∷ d ∷ s) = c ∷ drop_cr (d ∷ s)

-- What Read gives, call after call, until it gives another error: an empty line is passed over, and a
-- line that is too long is the end.
unfoldable pub read_lines : (Text → Option Message) → List Text → List Read
read_lines unmarshal [] = []
read_lines unmarshal (raw ∷ raws) =
    let rest = read_lines unmarshal raws in
    let line = drop_cr raw in
    let result : Read = elim (unmarshal line) [ none ↦ non_json line | some m ↦ message m ] in
    if leb max_line (length raw) then [] else if text_eq line [] then rest else result ∷ rest

unfoldable pub read_stream : (Text → Option Message) → Text → List Read
unfolding read_lines
read_stream unmarshal stream = read_lines unmarshal (split b'\n' stream)

unfoldable pub write_stream : (Message → Text) → List Message → Text
write_stream marshal [] = []
write_stream marshal (m ∷ ms) = write_line (marshal m) ++ write_stream marshal ms

abbrev pub NoNewline : Text → Type 0
NoNewline [] = Unit
NoNewline (c ∷ s) = ((c == b'\n') ≡ false) × NoNewline s

-- What json.Marshal makes of a message: bytes that are read back, on one line that is not too long.
pub record OnOneLine (unmarshal : Text → Option Message) (marshal : Message → Text) (m : Message)
    : Type 0 where
  pub read_back : unmarshal (marshal m) ≡ some m
  pub one_line : NoNewline (marshal m)
  pub no_cr : drop_cr (marshal m) ≡ marshal m
  pub full : text_eq (marshal m) [] ≡ false
  pub short : length (marshal m) < max_line

abbrev pub AllOnOneLine : (Text → Option Message) → (Message → Text) → List Message → Type 0
AllOnOneLine unmarshal marshal [] = Unit
AllOnOneLine unmarshal marshal (m ∷ ms) =
    OnOneLine unmarshal marshal m × AllOnOneLine unmarshal marshal ms

split-append : (s t : Text) → NoNewline s → split b'\n' (s ++ b'\n' ∷ t) ≡ s ∷ split b'\n' t
unfolding split
split-append [] t none_in = refl
split-append (c ∷ s) t (other, none_in) = rw (other, split-append s t none_in) refl

read_one :
    (unmarshal : Text → Option Message) (marshal : Message → Text) (m : Message) (raws : List Text)
    → OnOneLine unmarshal marshal m
    → read_lines unmarshal (marshal m ∷ raws) ≡ message m ∷ read_lines unmarshal raws
unfolding read_lines
read_one unmarshal marshal m raws o =
    let short : leb max_line (length (marshal m)) ≡ false = ground (arith, o.short) in
    rw (o.no_cr, o.read_back, o.full, short) refl

-- Messages that are written one after the other, each on a line of its own shorter than 4 MiB, are read
-- back, all of them and in their order.
pub read_stream-write_stream :
    (unmarshal : Text → Option Message) (marshal : Message → Text) (ms : List Message)
    → AllOnOneLine unmarshal marshal ms
    → read_stream unmarshal (write_stream marshal ms) ≡ map message ms
unfolding read_stream read_lines write_stream write_line split text_eq drop_cr
read_stream-write_stream unmarshal marshal [] all = refl
read_stream-write_stream unmarshal marshal (m ∷ ms) (o, all) =
    let raw = marshal m in
    let rest = write_stream marshal ms in
    ap (read_stream unmarshal) (append_assoc raw (b'\n' ∷ []) rest)
    ∙ ap (read_lines unmarshal) (split-append raw rest o.one_line)
    ∙ read_one unmarshal marshal m (split b'\n' rest) o
    ∙ ap (◌∷◌ (message m)) (read_stream-write_stream unmarshal marshal ms all)
