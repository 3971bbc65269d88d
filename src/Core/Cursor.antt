-- ===== src/Core/Cursor.antt =====
-- internal/core/cursor.go: the keyset pagination cursor and its text form.
pub mod RoundTrip
use bfeed.Base.{ℕ, ◌==◌, if◌then◌else◌, ◌&&◌, Option, none, some, List, [], ◌∷◌, ◌++◌}
use bfeed.Base.Int.{ℤ}
use bfeed.Base.Text.{Text}
use bfeed.Core.Types.{Cursor, Entry, Order, published_desc, read_at_desc, unix}

-- `CursorKey`
unfoldable pub cursor_key : Entry → Order → ℤ
unfolding unix
cursor_key e published_desc = unix e.published_at
cursor_key e read_at_desc = elim e.read_at [ none ↦ unix e.published_at | some t ↦ unix t ]

-- What the code takes from strconv and encoding/base64: the decimal form of an int64 and its
-- parser, and the unpadded URL alphabet with its decoder.
pub record Codec : Type 0 where
  pub format_int : ℤ → Text
  pub parse_int : Text → Option ℤ
  pub base64_encode : Text → Text
  pub base64_decode : Text → Option Text

-- `strings.SplitN(s, ":", 2)`: the text before the first colon and the text behind it, if any.
unfoldable pub split_colon : Text → Text × Option Text
split_colon [] = ([], none)
split_colon (c ∷ s) =
    let (front, back) = split_colon s in if c == b':' then ([], some s) else (c ∷ front, back)

module _ (codec : Codec) where
  -- `EncodeCursor`
  unfoldable pub encode_cursor : Cursor → Text
  encode_cursor c = codec.base64_encode (codec.format_int c.key ++ (b':' ∷ codec.format_int c.id))

  parse_cursor : Option ℤ → Option ℤ → Option Cursor
  parse_cursor (some key) (some id) = some (record { key = key; id = id })
  parse_cursor _ _ = none

  decode_parts : Text × Option Text → Option Cursor
  decode_parts (front, none) = none
  decode_parts (front, some back) = parse_cursor (codec.parse_int front) (codec.parse_int back)

  decode_bytes : Option Text → Option Cursor
  unfolding parse_cursor decode_parts
  decode_bytes none = none
  decode_bytes (some b) = decode_parts (split_colon b)

  -- `DecodeCursor`
  unfoldable pub decode_cursor : Text → Option Cursor
  unfolding decode_bytes
  decode_cursor s = decode_bytes (codec.base64_decode s)
