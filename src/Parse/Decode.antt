-- ===== src/Parse/Decode.antt =====
-- `decodeReader` and `hasXMLEncodingDecl`, on bytes.
use bfeed.Base.{
  ℕ, if◌then◌else◌, Bool, true, false, not, ◌&&◌, ◌||◌, ◌==◌, Option, none, some, [], ◌∷◌, take,
}
use bfeed.Base.Text.{Text, codes}
use bfeed.Parse.Links.{has_prefix}

abbrev pub is_blank : ℕ → Bool
is_blank c = c == b' ' || c == 9 || c == 13 || c == 10

-- `strings.TrimLeft` of byte order marks, blanks and line ends.
unfoldable pub trim_prolog : Text → Text
trim_prolog [] = []
trim_prolog (a ∷ []) = if is_blank a then [] else a ∷ []
trim_prolog (a ∷ b ∷ []) =
    let rest = trim_prolog (b ∷ []) in if is_blank a then rest else a ∷ b ∷ []
trim_prolog (a ∷ b ∷ c ∷ s) =
    let rest = trim_prolog (b ∷ c ∷ s) in
    let past_mark = trim_prolog s in
    if is_blank a
    then rest
    else if a == 239 && b == 187 && c == 191
    then past_mark
    else a ∷ b ∷ c ∷ s

-- `strings.Index`, as the text before the first occurrence.
unfoldable pub before : Text → Text → Option Text
unfolding has_prefix
before [] sub = if has_prefix [] sub then some [] else none
before (c ∷ s) sub =
    let rest = before s sub in
    if has_prefix (c ∷ s) sub then some [] else elim rest [ none ↦ none | some t ↦ some (c ∷ t) ]

abbrev pub is_found : Option Text → Bool
is_found none = false
is_found (some t) = true

abbrev pub names_encoding : Option Text → Bool
names_encoding none = false
names_encoding (some decl) = is_found (before decl (codes "encoding="))

-- `hasXMLEncodingDecl`
unfoldable pub has_xml_encoding_decl : Text → Bool
unfolding has_prefix before trim_prolog
has_xml_encoding_decl bytes =
    let s = trim_prolog (take 512 bytes) in
    if has_prefix s (codes "<?xml") then names_encoding (before s (codes "?>")) else false

-- `charset.DetermineEncoding`, as its decoder and whether it is certain, and `utf8.Valid`.
pub record CharsetLib : Type 0 where
  pub determine_encoding : Text → Text → (Text → Text) × Bool
  pub is_utf8 : Text → Bool

-- `decodeReader`
unfoldable pub decode_reader : CharsetLib → Text → Text → Text
unfolding has_xml_encoding_decl
decode_reader lib bytes content_type =
    if has_xml_encoding_decl bytes
    then bytes
    else let (decoder, certain) = lib.determine_encoding bytes content_type in
      if certain || not (lib.is_utf8 bytes) then decoder bytes else bytes
