-- ===== src/Core/Opml.antt =====
-- internal/core/opml.go: the export of the subscriptions.
pub mod Grouping
use bfeed.Base.{
  if◌then◌else◌, Bool, true, false, not, ◌&&◌, ◌||◌, Option, none, some, List, [], ◌∷◌, ◌++◌,
}
use bfeed.Base.Int.{eq_ℤ}
use bfeed.Base.Text.{Text, text_eq, codes, is_empty}
use bfeed.Core.Types.{RowId, Feed, Category, Result, ok, err, display_title}
use bfeed.Store.Table.{exists}

pub record OutlineAttrs : Type 0 where
  pub text : Text
  pub title : Text
  pub kind : Text
  pub xml_url : Text
  pub html_url : Text

-- `opmlOutline`
mutual
  pub data Outline : Type 0 where
    outline : OutlineAttrs → Outlines → Outline

  pub data Outlines : Type 0 where
    no_outlines : Outlines
    and_outlines : Outline → Outlines → Outlines

-- `opmlDocument`, with the title of its head and the outlines of its body.
pub record OpmlDocument : Type 0 where
  pub version : Text
  pub head_title : Text
  pub outlines : List Outline

-- net/url (`url.Parse`, the fields of the URL, its `String` without its user) and `xml.MarshalIndent`.
pub record OpmlLib (U : Type 0) : Type 0 where
  pub parse : Text → Option U
  pub host : U → Text
  pub scheme : U → Text
  pub has_user : U → Bool
  pub string_without_user : U → Text
  pub marshal_indent : OpmlDocument → Result Text
  pub trim_space : Text → Text

unfoldable pub to_outlines : List Outline → Outlines
to_outlines [] = no_outlines
to_outlines (o ∷ os) = and_outlines o (to_outlines os)

-- `byCategory` and `uncategorised`
pub record Grouped : Type 0 where
  pub by_category : RowId → List Outline
  pub uncategorised : List Outline

module _ {U : Type 0} (lib : OpmlLib U) where
  -- `opmlURL`
  unfoldable pub opml_url : Text → Text
  opml_url raw = elim (lib.parse raw) [
    | none ↦ []
    | some u ↦
        if is_empty (lib.host u)
          || not (text_eq (lib.scheme u) (codes "http") || text_eq (lib.scheme u) (codes "https"))
        then []
        else if lib.has_user u
        then lib.string_without_user u
        else raw
  ]

  unfoldable pub feed_outline : Feed → Outline
  unfolding opml_url
  feed_outline f =
      let title = display_title lib.trim_space f in
      outline
        (record {
          text = title;
          title = title;
          kind = codes "rss";
          xml_url = opml_url f.feed_url;
          html_url = opml_url f.site_url;
        })
        no_outlines

  unfoldable pub category_outline : Category → List Outline → Outline
  unfolding to_outlines
  category_outline c os =
      outline (record { text = c.title; title = c.title; kind = []; xml_url = []; html_url = [] })
        (to_outlines os)

  -- The category of a feed, if it is a known one.
  unfoldable pub known_category : List Category → Option RowId → Option RowId
  known_category cs none = none
  known_category cs (some k) = if exists (λ c. eq_ℤ c.id k) cs then some k else none

  abbrev pub place : Option RowId → Outline → Grouped → Grouped
  place none o g = record g { uncategorised = g.uncategorised ++ (o ∷ []) }
  place (some k) o g = record g {
    by_category = λ j. if eq_ℤ k j then g.by_category j ++ (o ∷ []) else g.by_category j;
  }

  -- The loop over the feeds.
  unfoldable pub group : List Category → List Feed → Grouped → Grouped
  unfolding known_category feed_outline
  group cs [] g = g
  group cs (f ∷ fs) g = group cs fs (place (known_category cs f.category_id) (feed_outline f) g)

  -- The loop over the categories.
  unfoldable pub category_outlines : Grouped → List Category → List Outline
  unfolding category_outline
  category_outlines g [] = []
  category_outlines g (c ∷ cs) = category_outline c (g.by_category c.id) ∷ category_outlines g cs

  unfoldable pub opml_document : List Feed → List Category → OpmlDocument
  unfolding group category_outlines
  opml_document fs cs =
      let g = group cs fs (record { by_category = λ k. []; uncategorised = [] }) in
      record {
        version = codes "2.0";
        head_title = codes "bfeed subscriptions";
        outlines = category_outlines g cs ++ g.uncategorised;
      }

  -- `MarshalOPML`
  unfoldable pub marshal_opml : List Feed → List Category → Result Text
  unfolding opml_document
  marshal_opml fs cs = elim (lib.marshal_indent (opml_document fs cs)) [
    | err e ↦ err e
    | ok xml ↦ ok (codes "<?xml version=\"1.0\" encoding=\"UTF-8\"?>" ++ (10 ∷ (xml ++ (10 ∷ []))))
  ]
