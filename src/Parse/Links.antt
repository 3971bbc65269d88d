-- ===== src/Parse/Links.antt =====
-- `resolve`, `commentsURL` and `Discover`.
use bfeed.Base.{
  if◌then◌else◌, Bool, true, false, not, ◌&&◌, ◌||◌, Option, none, some, List, [], ◌∷◌, ◌++◌,
}
use bfeed.Base.Text.{Text, text_eq, codes, is_empty}
use bfeed.Core.Types.{Result, ok, err}

-- net/url, `U` being `*url.URL`: `url.Parse`, `IsAbs`, `ResolveReference` and `String`.
pub record UrlLib (U : Type 0) : Type 0 where
  pub parse : Text → Option U
  pub is_abs : U → Bool
  pub resolve_reference : U → U → U
  pub string : U → Text

-- `strings.HasPrefix`
unfoldable pub has_prefix : Text → Text → Bool
has_prefix s [] = true
has_prefix [] (p ∷ ps) = false
has_prefix (c ∷ s) (p ∷ ps) = text_eq (c ∷ []) (p ∷ []) && has_prefix s ps

module _ {U : Type 0} (url : UrlLib U) where
  unfoldable pub resolve : Option U → Text → Text
  resolve none ref = ref
  resolve (some base) ref =
      if is_empty ref
      then ref
      else elim (url.parse ref) [ none ↦ ref | some u ↦ url.string (url.resolve_reference base u) ]

  -- The forms that count as relative links.
  abbrev pub relative : Text → Bool
  relative s =
      has_prefix s (codes "/")
      || has_prefix s (codes "./")
      || has_prefix s (codes "../")
      || has_prefix s (codes "#")
      || has_prefix s (codes "?")

  unfoldable pub comments_of : Option U → Text → Text
  unfolding resolve has_prefix
  comments_of base s = if is_empty s then [] else elim (url.parse s) [
    | none ↦ []
    | some u ↦ if url.is_abs u then s else if relative s then resolve base s else []
  ]

  -- `commentsURL`; `trim` is `strings.TrimSpace`.
  unfoldable pub comments_url : (Text → Text) → Option U → Text → Text
  unfolding comments_of
  comments_url trim base raw = comments_of base (trim raw)

-- `html.Node`: an element with its name and attributes, or another node, and its children.
pub record Tag : Type 0 where
  pub name : Text
  pub attrs : List (Text × Text)

mutual
  pub data Node : Type 0 where
    node : Option Tag → Nodes → Node

  pub data Nodes : Type 0 where
    no_nodes : Nodes
    and_nodes : Node → Nodes → Nodes

-- `rel`, `typ` and `href`
pub record LinkAttrs : Type 0 where
  pub rel : Text
  pub kind : Text
  pub href : Text

-- `lower` is `strings.ToLower`.
module _ (lower : Text → Text) where
  unfoldable pub set_attr : Text × Text → LinkAttrs → LinkAttrs
  set_attr (key, val) l =
      if text_eq (lower key) (codes "rel")
      then record l { rel = lower val }
      else if text_eq (lower key) (codes "type")
      then record l { kind = lower val }
      else if text_eq (lower key) (codes "href")
      then record l { href = val }
      else l

  unfoldable pub link_attrs : List (Text × Text) → LinkAttrs → LinkAttrs
  unfolding set_attr
  link_attrs [] l = l
  link_attrs (a ∷ attrs) l = link_attrs attrs (set_attr a l)

abbrev pub is_feed_type : Text → Bool
is_feed_type kind =
    text_eq kind (codes "application/rss+xml")
    || text_eq kind (codes "application/atom+xml")
    || text_eq kind (codes "application/json")
    || text_eq kind (codes "application/feed+json")

abbrev pub is_feed_link : LinkAttrs → Bool
is_feed_link l = text_eq l.rel (codes "alternate") && not (is_empty l.href) && is_feed_type l.kind

module _ {U : Type 0} (url : UrlLib U) (lower : Text → Text) (base : Option U) where
  unfoldable pub tag_links : Option Tag → List Text
  unfolding link_attrs resolve
  tag_links none = []
  tag_links (some t) =
      let l = link_attrs lower t.attrs (record { rel = []; kind = []; href = [] }) in
      if text_eq t.name (codes "link") && is_feed_link l then resolve url base l.href ∷ [] else []

  unfoldable mutual
    pub walk : Node → List Text
    walk (node t ns) = tag_links t ++ walk_all ns

    pub walk_all : Nodes → List Text
    walk_all no_nodes = []
    walk_all (and_nodes n ns) = walk n ++ walk_all ns

-- `Discover`; `html` is `html.Parse`.
unfoldable pub discover :
    {U : Type 0}
    → UrlLib U
    → (Text → Text)
    → (Text → Result Node)
    → Text
    → Text
    → Result (List Text)
unfolding walk
discover url lower html bytes page = elim (html bytes) [
  | ok doc ↦ ok (walk url lower (url.parse page) doc)
  | err e ↦ err (record e { message = codes "html parse: " ++ e.message })
]
