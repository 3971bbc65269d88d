-- ===== src/Tests/Sanitize.antt =====
-- A page with a tracking pixel inside a paragraph, and a link that tracks.
use bfeed.Base.{◌≡◌, refl, none, some, List, [], ◌∷◌, ◌++◌}
use bfeed.Base.Text.{Text, codes, text_eq}
use bfeed.Core.Types.{ok}
use bfeed.Parse.Links.{Tag, Node, node, Nodes, no_nodes, and_nodes, has_prefix}
use bfeed.Store.Table.{delete, select}
use bfeed.Sanitize.{
  SanitizeLib, clean, clean_all, clean_tag, clean_link, clean_image, clean_url, untracked, is_pixel,
  is_tracking_param, attr, set_attr,
}
use bfeed.Sanitize.Clean.{AllTags, IsCleanTag, children, clean-AllTags}

-- The keys of a query, one after another.
abbrev keys : List (Text × List Text) → Text
keys [] = []
keys ((k, vs) ∷ q) = k ++ keys q

abbrev toy : SanitizeLib Text
toy = record {
  parse = λ s. some s;
  query = λ u. (codes "utm_source", []) ∷ (codes "id", []) ∷ [];
  encode = λ q. keys q;
  with_raw_query = λ q u. q;
  resolve_reference = λ b u. u;
  string = λ u. u;
  parse_html = λ s. ok (node none no_nodes);
  render_html = λ n. [];
  policy = λ s. s;
}

abbrev pixel : Tag
pixel = record {
  name = codes "img";
  attrs = (codes "width", codes "1") ∷ (codes "height", codes "1") ∷ [];
}

abbrev link : Text → Tag
link to = record { name = codes "a"; attrs = (codes "href", to) ∷ [] }

abbrev page : Text → Nodes → Node
page to ns = node none (
    and_nodes (node (some (record { name = codes "p"; attrs = [] })) ns)
      (and_nodes (node (some (link to)) no_nodes) no_nodes))

abbrev tracked : Node
tracked =
    page (codes "http://a.org/?utm_source=x&id=1") (and_nodes (node (some pixel) no_nodes) no_nodes)

clean-AllTags_example : AllTags (IsCleanTag toy none) (children (clean toy none tracked))
clean-AllTags_example = clean-AllTags toy none tracked

cleaned : clean toy none tracked ≡ page (codes "id") no_nodes
unfolding clean clean_all clean_tag clean_link clean_image clean_url untracked is_pixel
    is_tracking_param attr set_attr delete select has_prefix text_eq
cleaned = refl
