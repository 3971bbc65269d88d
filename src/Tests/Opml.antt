-- ===== src/Tests/Opml.antt =====
-- The export of three feeds under two categories.
use bfeed.Base.{◌+◌, ◌≡◌, refl, false, none, some, List, [], ◌∷◌, ◌++◌, map, count, length}
use bfeed.Base.Int.{pos}
use bfeed.Base.Text.{Text, codes, text_eq}
use bfeed.Core.Types.{Feed, Category, ok}
use bfeed.Store.Table.{select, exists}
use bfeed.Core.Opml.{OpmlLib, opml_document, feed_outline, opml_url}
use bfeed.Core.Opml.Grouping.{
  in_category, is_loose, feeds_in, one, sum, AreDistinct, opml_document-IsPartition,
}
use bfeed.Tests.Service.{sample_feed}

-- Every text is an address over http.
abbrev export : OpmlLib Text
export = record {
  parse = λ s. some s;
  host = λ u. u;
  scheme = λ u. codes "http";
  has_user = λ u. false;
  string_without_user = λ u. u;
  marshal_indent = λ d. ok d.head_title;
  trim_space = λ s. s;
}

abbrev categories : List Category
categories =
    record { id = pos 1; user_id = pos 1; title = codes "News" }
    ∷ record { id = pos 2; user_id = pos 1; title = codes "Blogs" }
    ∷ []

abbrev feeds : List Feed
feeds =
    record sample_feed { category_id = some (pos 2) }
    ∷ record sample_feed { category_id = none }
    ∷ record sample_feed { category_id = some (pos 9) }
    ∷ []

opml_document-IsPartition_example :
    ((opml_document export feeds categories).outlines
      ≡ map (feeds_in export categories feeds) categories
        ++ map (feed_outline export) (select (is_loose categories) feeds))
    × (((f : Feed)
          → sum (λ c. one (in_category c.id f)) categories + one (is_loose categories f) ≡ 1)
        × (sum (λ c. count (in_category c.id) feeds) categories + count (is_loose categories) feeds
            ≡ length feeds))
unfolding AreDistinct exists
opml_document-IsPartition_example =
    opml_document-IsPartition export feeds categories (refl, (refl, tt))

-- An address that is not of the web is left out.
left_out : opml_url (record export { scheme = λ u. codes "ftp" }) (codes "ftp://example.org") ≡ []
unfolding opml_url text_eq
left_out = refl
