-- ===== src/Sanitize.antt =====
-- internal/sanitize/sanitize.go: what is done to a page before the policy of bluemonday.
pub mod Clean
use bfeed.Base.{
  if◌then◌else◌, Bool, true, false, not, ◌&&◌, ◌||◌, Option, none, some, List, [], ◌∷◌,
}
use bfeed.Base.Text.{Text, text_eq, codes, is_empty}
use bfeed.Core.Types.{Result, ok, err}
use bfeed.Store.Table.{delete}
use bfeed.Parse.Links.{Tag, Node, node, Nodes, no_nodes, and_nodes, has_prefix}

-- net/url with the values of a query by their keys, `html.Parse` and `html.Render`, and the policy.
pub record SanitizeLib (U : Type 0) : Type 0 where
  pub parse : Text → Option U
  pub query : U → List (Text × List Text)
  pub encode : List (Text × List Text) → Text
  pub with_raw_query : Text → U → U
  pub resolve_reference : U → U → U
  pub string : U → Text
  pub parse_html : Text → Result Node
  pub render_html : Node → Text
  pub policy : Text → Text

-- `isTrackingParam`
unfoldable pub is_tracking_param : Text → Bool
unfolding has_prefix
is_tracking_param k =
    text_eq k (codes "fbclid")
    || text_eq k (codes "gclid")
    || text_eq k (codes "mc_eid")
    || text_eq k (codes "igshid")
    || has_prefix k (codes "utm_")

-- `attr` and `setAttr`
unfoldable pub attr : Text → List (Text × Text) → Text
attr key [] = []
attr key ((k, v) ∷ attrs) = let rest = attr key attrs in if text_eq k key then v else rest

unfoldable pub set_attr : Text → Text → List (Text × Text) → List (Text × Text)
set_attr key val [] = (key, val) ∷ []
set_attr key val ((k, v) ∷ attrs) =
    let rest = set_attr key val attrs in if text_eq k key then (k, val) ∷ attrs else (k, v) ∷ rest

-- A tracking pixel; `keep` is its negation.
unfoldable pub is_pixel : Option Tag → Bool
unfolding attr
is_pixel none = false
is_pixel (some t) =
    text_eq t.name (codes "img")
    && text_eq (attr (codes "width") t.attrs) (codes "1")
    && text_eq (attr (codes "height") t.attrs) (codes "1")

module _ {U : Type 0} (lib : SanitizeLib U) (base : Option U) where
  abbrev pub against_base : U → Text
  against_base u = elim base [
    | none ↦ lib.string u
    | some b ↦ lib.string (lib.resolve_reference b u)
  ]

  -- The query without its tracking parameters.
  unfoldable pub untracked : U → List (Text × List Text)
  unfolding is_tracking_param
  untracked u = delete (λ p. is_tracking_param p.0) (lib.query u)

  -- `cleanURL`
  unfoldable pub clean_url : Text → Text
  unfolding untracked
  clean_url raw = if is_empty raw then raw else elim (lib.parse raw) [
    | none ↦ raw
    | some u ↦ against_base (lib.with_raw_query (lib.encode (untracked u)) u)
  ]

  -- `resolveURL`
  unfoldable pub resolve_url : Text → Text
  resolve_url raw = elim (lib.parse raw) [
    | none ↦ raw
    | some u ↦ elim base [ none ↦ raw | some b ↦ lib.string (lib.resolve_reference b u) ]
  ]

  unfoldable pub clean_link : Tag → Tag
  unfolding clean_url set_attr attr
  clean_link t =
      if text_eq t.name (codes "a")
      then record t {
        attrs = set_attr (codes "href") (clean_url (attr (codes "href") t.attrs)) t.attrs;
      }
      else t

  unfoldable pub clean_image : Tag → Tag
  unfolding resolve_url set_attr attr
  clean_image t =
      let src = attr (codes "src") t.attrs in
      if text_eq t.name (codes "img") && not (is_empty src)
      then record t { attrs = set_attr (codes "src") (resolve_url src) t.attrs }
      else t

  unfoldable pub clean_tag : Option Tag → Option Tag
  unfolding clean_link clean_image
  clean_tag none = none
  clean_tag (some t) = some (clean_image (clean_link t))

  -- The loop of `clean` over the children of a node.
  unfoldable pub clean_all : Nodes → Nodes
  unfolding clean_tag is_pixel
  clean_all no_nodes = no_nodes
  clean_all (and_nodes (node t cs) ns) =
      let rest = clean_all ns in
      let inner = clean_all cs in
      if is_pixel t then rest else and_nodes (node (clean_tag t) inner) rest

  unfoldable pub clean : Node → Node
  unfolding clean_all
  clean (node t cs) = node t (clean_all cs)

module _ {U : Type 0} (lib : SanitizeLib U) where
  unfoldable pub preprocess : Text → Text → Text
  unfolding clean
  preprocess page url = elim (lib.parse_html page) [
    | err e ↦ page
    | ok doc ↦ lib.render_html (clean lib (lib.parse url) doc)
  ]

  -- `Sanitize`
  unfoldable pub sanitize : Text → Text → Text
  unfolding preprocess
  sanitize page url = lib.policy (preprocess page url)
