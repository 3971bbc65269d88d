-- ===== src/Sanitize/Clean.antt =====
-- Nothing that tracks the reader is left.
use bfeed.Base.{
  ◌≡◌, refl, sym, ◌∙◌, true, false, not, ◌&&◌, Option, none, some, List, [], ◌∷◌, ◌⊎◌, inl, inr,
  Bool-cases, Option-cases,
}
use mathlib.Core.Path.{subst}
use bfeed.Base.Text.{Text, text_eq, text_eq_refl, eq_of_text_eq, codes, is_empty}
use bfeed.Store.Table.{All, delete, select}
use bfeed.Parse.Links.{Tag, Node, node, Nodes, no_nodes, and_nodes}
use bfeed.Sanitize.{
  SanitizeLib, is_tracking_param, attr, set_attr, is_pixel, against_base, untracked, clean_url,
  clean_link, clean_image, clean_tag, clean_all, clean,
}

attr-set_attr : (key v : Text) (ats : List (Text × Text)) → attr key (set_attr key v ats) ≡ v
unfolding attr set_attr
attr-set_attr key v [] = rw (text_eq_refl key) refl
attr-set_attr key v ((k, w) ∷ ats) = elim (Bool-cases (text_eq k key)) [
  | inl h ↦ rw h (rw h refl)
  | inr h ↦ rw h (rw h (attr-set_attr key v ats))
]

apart_keys :
    (k key other : Text)
    → text_eq other key ≡ false
    → text_eq k other ≡ true
    → text_eq k key ≡ false
apart_keys k key other n h = rw (eq_of_text_eq k other h) n

attr-set_other :
    (key other v : Text) (ats : List (Text × Text))
    → text_eq other key ≡ false
    → attr key (set_attr other v ats) ≡ attr key ats
unfolding attr set_attr
attr-set_other key other v [] n = rw n refl
attr-set_other key other v ((k, w) ∷ ats) n = elim (Bool-cases (text_eq k other)) [
  | inl h ↦ rw (h, apart_keys k key other n h) refl
  | inr h ↦ rw (h, attr-set_other key other v ats n) refl
]

-- A name and attributes under other keys than href and src stay.
clean_link-attr :
    {U : Type 0} (lib : SanitizeLib U) (base : Option U) (t : Tag) (key : Text)
    → text_eq (codes "href") key ≡ false
    → ((clean_link lib base t).name ≡ t.name)
      × (attr key (clean_link lib base t).attrs ≡ attr key t.attrs)
unfolding clean_link
clean_link-attr lib base t key n = elim (Bool-cases (text_eq t.name (codes "a"))) [
  | inl h ↦ rw (h, clean_link) (refl, attr-set_other key (codes "href") _ t.attrs n)
  | inr h ↦ rw (h, clean_link) (refl, refl)
]

clean_image-attr :
    {U : Type 0} (lib : SanitizeLib U) (base : Option U) (t : Tag) (key : Text)
    → text_eq (codes "src") key ≡ false
    → ((clean_image lib base t).name ≡ t.name)
      × (attr key (clean_image lib base t).attrs ≡ attr key t.attrs)
unfolding clean_image
clean_image-attr lib base t key n =
    elim (Bool-cases
      (text_eq t.name (codes "img") && not (is_empty (attr (codes "src") t.attrs)))) [
        | inl h ↦ rw (h, clean_image) (refl, attr-set_other key (codes "src") _ t.attrs n)
        | inr h ↦ rw (h, clean_image) (refl, refl)
      ]

differ :
    (text_eq (codes "href") (codes "width") ≡ false)
    × ((text_eq (codes "src") (codes "width") ≡ false)
        × ((text_eq (codes "href") (codes "height") ≡ false)
            × ((text_eq (codes "src") (codes "height") ≡ false)
                × (text_eq (codes "src") (codes "href") ≡ false))))
unfolding text_eq
differ = (refl, (refl, (refl, (refl, refl))))

-- Of every node below.
pub AllTags : (Option Tag → Type 0) → Nodes → Type 0
AllTags P no_nodes = Unit
AllTags P (and_nodes (node t cs) ns) = P t × (AllTags P cs × AllTags P ns)

abbrev pub children : Node → Nodes
children (node t cs) = cs

module _ {U : Type 0} (lib : SanitizeLib U) (base : Option U) where
  -- An address that is no URL, or one whose query has been written without tracking parameters.
  pub IsUntracked : Text → Type 0
  IsUntracked v =
      (is_empty v ≡ true)
      ⊎ ((lib.parse v ≡ none)
          ⊎ ((u : U) × ((q : List (Text × List Text)) × ((v
                    ≡ against_base lib base (lib.with_raw_query (lib.encode q) u))
                  × All (λ p. is_tracking_param p.0 ≡ false) q))))

  all-IsUntracked :
      (q : List (Text × List Text))
      → All (λ p. is_tracking_param p.0 ≡ false) (delete (λ p. is_tracking_param p.0) q)
  unfolding delete select
  all-IsUntracked [] = tt
  all-IsUntracked (p ∷ q) = elim (Bool-cases (is_tracking_param p.0)) [
    | inl h ↦ rw h (all-IsUntracked q)
    | inr h ↦ rw h (h, all-IsUntracked q)
  ]

  clean_url-IsUntracked : (raw : Text) → IsUntracked (clean_url lib base raw)
  unfolding clean_url IsUntracked untracked
  clean_url-IsUntracked raw = elim (Bool-cases (is_empty raw)) [
    | inl h ↦ inl (rw (h, clean_url) h)
    | inr h ↦ elim (Option-cases (lib.parse raw)) [
      | inl k ↦ inr (inl (rw (h, k, clean_url) k))
      | inr (u, k) ↦ inr (
          inr
            (u, (untracked lib base u, (rw (h, k, clean_url) refl, all-IsUntracked (lib.query u)))))
    ]
  ]

  -- What is said of a tag that is left: no tracking pixel, and a link with an untracked address.
  pub IsCleanTag : Option Tag → Type 0
  IsCleanTag none = Unit
  IsCleanTag (some t) =
      (is_pixel (some t) ≡ false)
      × (text_eq t.name (codes "a") ≡ true → IsUntracked (attr (codes "href") t.attrs))

  still_no_pixel :
      (t : Tag) → is_pixel (some t) ≡ false → is_pixel (clean_tag lib base (some t)) ≡ false
  unfolding is_pixel clean_tag
  still_no_pixel t h =
      let w = clean_link-attr lib base t (codes "width") differ.0 in
      let v = clean_image-attr lib base (clean_link lib base t) (codes "width") differ.1.0 in
      let x = clean_link-attr lib base t (codes "height") differ.1.1.0 in
      let y = clean_image-attr lib base (clean_link lib base t) (codes "height") differ.1.1.1.0 in
      rw (v.0 ∙ w.0, v.1 ∙ w.1, y.1 ∙ x.1) h

  link-IsUntracked :
      (t : Tag)
      → text_eq (clean_image lib base (clean_link lib base t)).name (codes "a") ≡ true
      → IsUntracked (attr (codes "href") (clean_image lib base (clean_link lib base t)).attrs)
  unfolding clean_link
  link-IsUntracked t h =
      let v = clean_image-attr lib base (clean_link lib base t) (codes "href") differ.1.1.1.1 in
      let w = clean_link-attr lib base t (codes "width") differ.0 in
      let name : text_eq t.name (codes "a") ≡ true = rw (← (v.0 ∙ w.0)) h in
      subst IsUntracked (sym (v.1 ∙ linked name))
        (clean_url-IsUntracked (attr (codes "href") t.attrs))
    where
      linked :
          text_eq t.name (codes "a") ≡ true
          → attr (codes "href") (clean_link lib base t).attrs
            ≡ clean_url lib base (attr (codes "href") t.attrs)
      linked n = rw n (attr-set_attr (codes "href") _ t.attrs)

  clean_tag-IsCleanTag : (t : Option Tag) → is_pixel t ≡ false → IsCleanTag (clean_tag lib base t)
  unfolding clean_tag IsCleanTag
  clean_tag-IsCleanTag none h = tt
  clean_tag-IsCleanTag (some t) h = (still_no_pixel t h, link-IsUntracked t)

  clean_all-AllTags : (ns : Nodes) → AllTags IsCleanTag (clean_all lib base ns)
  unfolding clean_all AllTags
  clean_all-AllTags no_nodes = tt
  clean_all-AllTags (and_nodes (node t cs) ns) = elim (Bool-cases (is_pixel t)) [
    | inl h ↦ rw h (clean_all-AllTags ns)
    | inr h ↦ rw h (clean_tag-IsCleanTag t h, (clean_all-AllTags cs, clean_all-AllTags ns))
  ]

  -- In the page that is rendered, no node is an image of one by one pixel, and each link is
  -- empty, no URL, or a URL whose query was written without a tracking parameter.
  pub clean-AllTags : (doc : Node) → AllTags IsCleanTag (children (clean lib base doc))
  unfolding clean
  clean-AllTags (node t cs) = clean_all-AllTags cs
