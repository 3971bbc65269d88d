-- ===== src/Parse/Items/Identity.antt =====
-- The GUIDs of the entries of a feed: the publisher's, or derived from the link and the title.
use bfeed.Base.{
  ℕ, suc, ◌≡◌, refl, sym, ◌∙◌, Bool, true, false, ◌&&◌, Option, List, [], ◌∷◌, ◌++◌, length,
  Bool-cases, inl, inr, arith, if◌then◌else◌,
}
use mathlib.Core.List.{head-eq_of_cons-eq, tail-eq_of_cons-eq}
use bfeed.Base.Text.{Text, is_empty}
use bfeed.Store.Table.{All, drop}
use bfeed.Parse.Fields.{join_fields, IsDecimal, join_fields_inj}
use bfeed.Parse.Links.{resolve}
use bfeed.Parse.Items.{Item, ParseLib, key_parts, item_guid, parse_item, parse_items}

module _ {U : Type 0} (lib : ParseLib U) (base : Option U) where
  -- The publisher's GUID, a link or a title.
  unfoldable pub HasIdentity : Item → Type 0
  HasIdentity it =
      (is_empty it.guid && (is_empty (resolve lib.url base it.link) && is_empty it.title)) ≡ false

  same_item :
      (i j : ℕ) (it : Item) → HasIdentity it → parse_item lib base i it ≡ parse_item lib base j it
  unfolding parse_item item_guid key_parts HasIdentity
  same_item i j it h = elim (Bool-cases (is_empty it.guid)) [
    | inr g ↦ rw g refl
    | inl g ↦
        let n : (is_empty (resolve lib.url base it.link) && is_empty it.title) ≡ false =
          ground (arith, h, g) in
        rw n refl
  ]

  shifted :
      (i j : ℕ) (its : List Item)
      → All HasIdentity its
      → parse_items lib base i its ≡ parse_items lib base j its
  unfolding parse_items
  shifted i j [] h = refl
  shifted i j (it ∷ its) (h, hs) = rw (same_item i j it h, shifted (suc i) (suc j) its hs) refl

  after_new :
      (i j : ℕ) (new old : List Item)
      → All HasIdentity old
      → drop (length new) (parse_items lib base i (new ++ old)) ≡ parse_items lib base j old
  unfolding parse_items drop
  after_new i j [] old h = shifted i j old h
  after_new i j (it ∷ new) old h = after_new (suc i) j new old h

  -- When a feed puts new items before the old ones, and each of the old ones has a GUID, a link or a
  -- title, then the old ones give the same entries as before.
  pub parse_items-prepend :
      (new old : List Item)
      → All HasIdentity old
      → drop (length new) (parse_items lib base 0 (new ++ old)) ≡ parse_items lib base 0 old
  parse_items-prepend new old h = after_new 0 0 new old h

  derived :
      (i : ℕ) (it : Item)
      → is_empty it.guid ≡ true
      → (parse_item lib base i it).guid
        ≡ lib.hash (join_fields lib.itoa (key_parts lib (resolve lib.url base it.link) it.title i))
  unfolding parse_item item_guid
  derived i it g = rw g refl

  fields :
      IsDecimal lib.itoa
      → (p q : Bool) (i j : ℕ) (l m t s : Text)
      → (if p then l ∷ t ∷ lib.itoa i ∷ [] else l ∷ t ∷ [])
        ≡ (if q then m ∷ s ∷ lib.itoa j ∷ [] else m ∷ s ∷ [])
      → ((l ≡ m) × (t ≡ s)) × (p ≡ true → i ≡ j)
  fields decimal true true i j l m t s e =
      let n =
        decimal.injective i j (head-eq_of_cons-eq (tail-eq_of_cons-eq (tail-eq_of_cons-eq e))) in
      ((head-eq_of_cons-eq e, head-eq_of_cons-eq (tail-eq_of_cons-eq e)), λ h. n)
  fields decimal true false i j l m t s e =
      absurd (ground (arith, tail-eq_of_cons-eq (tail-eq_of_cons-eq e)))
  fields decimal false true i j l m t s e =
      absurd (ground (arith, tail-eq_of_cons-eq (tail-eq_of_cons-eq e)))
  fields decimal false false i j l m t s e = (
    (head-eq_of_cons-eq e, head-eq_of_cons-eq (tail-eq_of_cons-eq e)),
    λ h. absurd (ground (arith, h)),
  )

  key_parts_inj :
      IsDecimal lib.itoa
      → (i j : ℕ) (l m t s : Text) → key_parts lib l t i ≡ key_parts lib m s j
      → ((l ≡ m) × (t ≡ s)) × ((is_empty l && is_empty t) ≡ true → i ≡ j)
  unfolding key_parts
  key_parts_inj decimal i j l m t s e =
      fields decimal (is_empty l && is_empty t) (is_empty m && is_empty s) i j l m t s e

  -- If decimal numbers differ where the numbers do and hold no colon, and the hash has no collision:
  -- two items of a feed without GUIDs get the same GUID only if they have the same link and the same
  -- title, and, where both of these are empty, only if they stand at the same place.
  pub parse_item-guid_inj :
      IsDecimal lib.itoa
      → ((s t : Text) → lib.hash s ≡ lib.hash t → s ≡ t)
      → (i j : ℕ) (x y : Item) → is_empty x.guid ≡ true
      → is_empty y.guid ≡ true
      → (parse_item lib base i x).guid ≡ (parse_item lib base j y).guid
      → ((resolve lib.url base x.link ≡ resolve lib.url base y.link) × (x.title ≡ y.title))
        × ((is_empty (resolve lib.url base x.link) && is_empty x.title) ≡ true → i ≡ j)
  unfolding parse_item item_guid
  parse_item-guid_inj decimal no_collision i j x y g h e = key_parts_inj decimal i j _ _ _ _ (
      join_fields_inj lib.itoa decimal _ _
        (no_collision _ _ (sym (derived i x g) ∙ (e ∙ derived j y h))))
