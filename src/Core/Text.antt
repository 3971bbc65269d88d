-- ===== src/Core/Text.antt =====
-- internal/core/text.go: `PlainText`.
use bfeed.Base.{List, [], ◌∷◌, ◌++◌}
use bfeed.Base.Text.{Text}

-- The regular expression of the tags replaced by a space, `html.UnescapeString`, `strings.Fields`.
pub record TextLib : Type 0 where
  pub replace_tags : Text → Text
  pub unescape : Text → Text
  pub fields : Text → List Text

-- `strings.Join` with a space
unfoldable pub join_spaces : List Text → Text
join_spaces [] = []
join_spaces (w ∷ []) = w
join_spaces (w ∷ v ∷ ws) = w ++ (b' ' ∷ join_spaces (v ∷ ws))

unfoldable pub plain_text : TextLib → Text → Text
unfolding join_spaces
plain_text lib s = join_spaces (lib.fields (lib.unescape (lib.replace_tags s)))
