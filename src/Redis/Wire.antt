-- ===== src/Redis/Wire.antt =====
-- internal/collectors/redis/resp.go: `command` and `readReply`, on the bytes that are sent and those
-- that the connection has left to read before it fails.
pub mod Framing
use prostometrics_agent.Base.{
  ℕ, ◌+◌, ◌*◌, ◌^◌, Bool, true, false, List, [], ◌∷◌, ◌++◌, Option, none, some, Bytes, codes,
  if◌then◌else◌, ltb, length, take, drop, ◌==◌,
}
use prostometrics_agent.Base.Integers.{ℤ, pos, negsuc}
use prostometrics_agent.Text.Number.{itoa, parse_int}
use prostometrics_agent.Text.Search.{cut, trim_right_of}

abbrev pub max_bulk_bytes : ℕ
max_bulk_bytes = 4 * 2 ^ 20

abbrev pub line_end : Bytes
line_end = 13 ∷ 10 ∷ []

-- `$%d\r\n%s\r\n`
abbrev pub bulk : Bytes → Bytes
bulk arg = b'$' ∷ itoa (length arg) ++ line_end ++ arg ++ line_end

unfoldable pub bulks : List Bytes → Bytes
bulks [] = []
bulks (arg ∷ args) = bulk arg ++ bulks args

-- The request that `command` writes.
unfoldable pub request : List Bytes → Bytes
request args = b'*' ∷ itoa (length args) ++ line_end ++ bulks args

pub data ReplyError : Type 0 where
  read_failed empty_reply bad_bulk_length exceeds_limit unsupported : ReplyError
  redis_error : Bytes → ReplyError

-- The reply, or the error, with the bytes left.
pub data Reply : Type 0 where
  replied : Bytes → Bytes → Reply
  refused : ReplyError → Bytes → Reply

abbrev read_bulk : ℕ → Bytes → Reply
read_bulk size rest =
    if ltb max_bulk_bytes size
    then refused exceeds_limit rest
    else if ltb (length rest) (size + 2)
    then refused read_failed []
    else replied (take size rest) (drop (size + 2) rest)

abbrev pub read_size : Option ℤ → Bytes → Reply
read_size none rest = refused bad_bulk_length rest
read_size (some (negsuc n)) rest = replied [] rest
read_size (some (pos size)) rest = read_bulk size rest

abbrev read_kind : ℕ → Bytes → Bytes → Reply
read_kind kind line rest =
    let size = read_size (parse_int line) rest in
    if kind == b'+'
    then replied line rest
    else if kind == b'-'
    then refused (redis_error line) rest
    else if kind == b':'
    then replied line rest
    else if kind == b'$'
    then size
    else refused unsupported rest

-- The line without its end, and the bytes that follow it.
abbrev pub read_line : Bytes → Bytes → Reply
read_line [] rest = refused empty_reply rest
read_line (kind ∷ line) rest = read_kind kind line rest

abbrev pub read_cut : Option (Bytes × Bytes) → Reply
read_cut none = refused read_failed []
read_cut (some (line, rest)) = read_line (trim_right_of line_end (line ++ 10 ∷ [])) rest

unfoldable pub read_reply : Bytes → Reply
read_reply s = read_cut (cut s 10)
