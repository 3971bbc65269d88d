-- ===== src/Core/Cursor/RoundTrip.antt =====
-- The text form of a cursor and back.
use bfeed.Base.{◌-◌, ◌^◌, ◌==◌, Bool, false, ◌||◌, ◌≡◌, refl, some, [], ◌∷◌, ◌++◌, arith}
use bfeed.Base.Int.{ℤ, pos, negsuc, ◌≤ℤ◌, ◌<ℤ◌}
use bfeed.Base.Text.{Text}
use bfeed.Core.Types.{Cursor}
use bfeed.Core.Cursor.{Codec, split_colon, encode_cursor, decode_cursor}

abbrev pub has_colon : Text → Bool
has_colon [] = false
has_colon (c ∷ s) = (c == b':') || has_colon s

abbrev pub IsInt64 : ℤ → Type 0
IsInt64 n = (negsuc (2 ^ 63 - 1) ≤ℤ n) × (n <ℤ pos (2 ^ 63))

-- The documented laws of the packages: what is encoded decodes, an int64 that is formatted parses,
-- and a decimal number holds no colon.
pub record IsCodec (codec : Codec) : Type 0 where
  pub decode_encode : (s : Text) → codec.base64_decode (codec.base64_encode s) ≡ some s
  pub parse_format : (n : ℤ) → IsInt64 n → codec.parse_int (codec.format_int n) ≡ some n
  pub no_colon : (n : ℤ) → has_colon (codec.format_int n) ≡ false

pub split_colon-append :
    (s t : Text) → has_colon s ≡ false → split_colon (s ++ (b':' ∷ t)) ≡ (s, some t)
unfolding split_colon
split_colon-append [] t h = refl
split_colon-append (c ∷ s) t h = ground (arith, split_colon-append s t)

-- Decoding an encoded cursor gives the cursor, if its key and id are 64-bit numbers and the codec
-- keeps its documented laws.
pub decode_cursor-encode_cursor :
    (codec : Codec) (c : Cursor)
    → IsCodec codec
    → IsInt64 c.key
    → IsInt64 c.id
    → decode_cursor codec (encode_cursor codec c) ≡ some c
unfolding encode_cursor decode_cursor
decode_cursor-encode_cursor codec c laws key_fits id_fits =
    let text = codec.format_int c.key ++ (b':' ∷ codec.format_int c.id) in
    ground (
      arith,
      laws.decode_encode text,
      split_colon-append (codec.format_int c.key) (codec.format_int c.id),
      laws.no_colon c.key,
      laws.parse_format c.key key_fits,
      laws.parse_format c.id id_fits,
    )
