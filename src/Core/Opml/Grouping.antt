-- ===== src/Core/Opml/Grouping.antt =====
-- Each feed stands once in the export.
use bfeed.Base.{
  ℕ, ◌+◌, ◌≡◌, refl, sym, ap, if◌then◌else◌, Bool, true, false, not, none, some, List, [], ◌∷◌,
  ◌++◌, map, count, length, Bool-cases, Option-cases, inl, inr, arith,
}
use mathlib.Core.Path.{subst}
use bfeed.Base.Int.{eq_ℤ, eq_of_eq_ℤ, eq_ℤ-refl}
use bfeed.Core.Types.{RowId, Feed, Category}
use bfeed.Store.Table.{All, exists, select}
use bfeed.Store.Table.Order.{All-map}
use bfeed.Core.Opml.{
  Outline, OpmlLib, Grouped, feed_outline, category_outline, known_category, place, group,
  category_outlines, opml_document,
}

pub in_category : RowId → Feed → Bool
in_category k f = elim f.category_id [ none ↦ false | some j ↦ eq_ℤ k j ]

abbrev has_id : RowId → Category → Bool
has_id k c = eq_ℤ c.id k

-- The feed has no category, or one that is not exported.
pub is_loose : List Category → Feed → Bool
is_loose cs f = elim f.category_id [ none ↦ true | some j ↦ not (exists (has_id j) cs) ]

append_assoc :
    {A : Type 0} (xs : List A) (y : A) (zs : List A) → (xs ++ (y ∷ [])) ++ zs ≡ xs ++ (y ∷ zs)
append_assoc [] y zs = refl
append_assoc (x ∷ xs) y zs = ap (λ ws. x ∷ ws) (append_assoc xs y zs)

append_nil : {A : Type 0} (xs : List A) → xs ++ [] ≡ xs
append_nil [] = refl
append_nil (x ∷ xs) = ap (λ ws. x ∷ ws) (append_nil xs)

module _ {U : Type 0} (lib : OpmlLib U) (cs : List Category) where
  -- Where a feed goes.
  loose_placed :
      (f : Feed) (g : Grouped)
      → (place lib (known_category lib cs f.category_id) (feed_outline lib f) g).uncategorised
        ≡ (if is_loose cs f then g.uncategorised ++ (feed_outline lib f ∷ []) else g.uncategorised)
  unfolding is_loose known_category
  loose_placed f g = elim (Option-cases f.category_id) [
    | inl h ↦ rw h refl
    | inr (j, h) ↦ elim (Bool-cases (exists (has_id j) cs)) [
      | inl k ↦ rw (h, k) refl
      | inr k ↦ rw (h, k) refl
    ]
  ]

  placed :
      (k : RowId) (f : Feed) (g : Grouped)
      → exists (has_id k) cs ≡ true
      → (place lib (known_category lib cs f.category_id) (feed_outline lib f) g).by_category k ≡ (
          if in_category k f then g.by_category k ++ (feed_outline lib f ∷ []) else g.by_category k)
  unfolding in_category known_category
  placed k f g e = elim (Option-cases f.category_id) [
    | inl h ↦ rw h refl
    | inr (j, h) ↦ elim (Bool-cases (exists (has_id j) cs)) [
      | inl n ↦ rw (h, n, swapped j k) refl
      | inr n ↦ rw (h, n, other j n) refl
    ]
  ]
    where
      swapped : (i l : RowId) → eq_ℤ i l ≡ eq_ℤ l i
      swapped i l = ground arith

      other : (j : RowId) → exists (has_id j) cs ≡ false → eq_ℤ k j ≡ false
      other j n = elim (Bool-cases (eq_ℤ k j)) [
        | inr m ↦ m
        | inl m ↦
            let found = subst (λ i. exists (has_id i) cs ≡ true) (eq_of_eq_ℤ k j m) e in
            absurd (ground (arith, found, n))
      ]

  loose_group :
      (fs : List Feed) (g : Grouped)
      → (group lib cs fs g).uncategorised
        ≡ g.uncategorised ++ map (feed_outline lib) (select (is_loose cs) fs)
  unfolding group select
  loose_group [] g = sym (append_nil _)
  loose_group (f ∷ fs) g = elim (Bool-cases (is_loose cs f)) [
    | inl h ↦ rw (loose_group fs, loose_placed f g, h, append_assoc) refl
    | inr h ↦ rw (loose_group fs, loose_placed f g, h) refl
  ]

  in_group :
      (k : RowId) (fs : List Feed) (g : Grouped)
      → exists (has_id k) cs ≡ true
      → (group lib cs fs g).by_category k
        ≡ g.by_category k ++ map (feed_outline lib) (select (in_category k) fs)
  unfolding group select
  in_group k [] g e = sym (append_nil _)
  in_group k (f ∷ fs) g e = elim (Bool-cases (in_category k f)) [
    | inl h ↦ rw (in_group k fs _ e, placed k f g e, h, append_assoc) refl
    | inr h ↦ rw (in_group k fs _ e, placed k f g e, h) refl
  ]

known_in_cons :
    (c d : Category) (cs : List Category)
    → exists (has_id d.id) cs ≡ true
    → exists (has_id d.id) (c ∷ cs) ≡ true
unfolding exists
known_in_cons c d cs h = ground (arith, h)

all_known : (cs : List Category) → All (λ c. exists (has_id c.id) cs ≡ true) cs
unfolding exists
all_known [] = tt
all_known (c ∷ cs) =
    (rw (eq_ℤ-refl c.id) refl, All-map _ _ cs (λ d. known_in_cons c d cs) (all_known cs))

module _ {U : Type 0} (lib : OpmlLib U) (cs : List Category) (fs : List Feed) where
  -- The outlines of the feeds of a category, in the order of the feeds.
  pub feeds_in : Category → Outline
  feeds_in c = category_outline lib c (map (feed_outline lib) (select (in_category c.id) fs))

  category_outlines_lem :
      (ds : List Category) (g : Grouped)
      → ((k : RowId) → g.by_category k ≡ [])
      → All (λ c. exists (has_id c.id) cs ≡ true) ds
      → category_outlines lib (group lib cs fs g) ds ≡ map feeds_in ds
  unfolding category_outlines feeds_in
  category_outlines_lem [] g e h = refl
  category_outlines_lem (c ∷ ds) g e (h, hs) =
      rw (in_group lib cs c.id fs g h, e c.id, category_outlines_lem ds g e hs) refl

-- How many of the categories a feed stands under, and whether it stands at the end.
abbrev pub one : Bool → ℕ
one true = 1
one false = 0

abbrev pub sum : (Category → ℕ) → List Category → ℕ
sum f [] = 0
sum f (c ∷ cs) = f c + sum f cs

unfoldable pub AreDistinct : List Category → Type 0
AreDistinct [] = Unit
AreDistinct (c ∷ cs) = (exists (has_id c.id) cs ≡ false) × AreDistinct cs

sum_zero : (cs : List Category) → sum (λ c. 0) cs ≡ 0
sum_zero [] = refl
sum_zero (c ∷ cs) = omega (arith, sum_zero cs)

absent :
    (j : RowId) (cs : List Category)
    → exists (has_id j) cs ≡ false
    → sum (λ c. one (eq_ℤ c.id j)) cs ≡ 0
unfolding exists
absent j [] h = refl
absent j (c ∷ cs) h = ground (arith, h, absent j cs)

once :
    (j : RowId) (cs : List Category)
    → AreDistinct cs
    → sum (λ c. one (eq_ℤ c.id j)) cs + one (not (exists (has_id j) cs)) ≡ 1
unfolding AreDistinct exists
once j [] d = refl
once j (c ∷ cs) d = elim (Bool-cases (eq_ℤ c.id j)) [
  | inl h ↦
      let gone = subst (λ i. exists (has_id i) cs ≡ false) (eq_of_eq_ℤ c.id j h) d.0 in
      ground (arith, h, absent j cs gone)
  | inr h ↦ ground (arith, h, once j cs d.1)
]

placed_once :
    (cs : List Category) (f : Feed)
    → AreDistinct cs
    → sum (λ c. one (in_category c.id f)) cs + one (is_loose cs f) ≡ 1
unfolding in_category is_loose
placed_once cs f d = elim (Option-cases f.category_id) [
  | inl h ↦ rw (h, sum_zero cs) refl
  | inr (j, h) ↦ rw h (once j cs d)
]

sum_counts :
    (f : Feed) (fs : List Feed) (cs : List Category)
    → sum (λ c. count (in_category c.id) (f ∷ fs)) cs
      ≡ sum (λ c. one (in_category c.id f)) cs + sum (λ c. count (in_category c.id) fs) cs
sum_counts f fs [] = refl
sum_counts f fs (c ∷ cs) = ground (arith, sum_counts f fs cs)

all_placed_once :
    (cs : List Category) (fs : List Feed)
    → AreDistinct cs
    → sum (λ c. count (in_category c.id) fs) cs + count (is_loose cs) fs ≡ length fs
all_placed_once cs [] d = omega (arith, sum_zero cs)
all_placed_once cs (f ∷ fs) d =
    ground (arith, sum_counts f fs cs, placed_once cs f d, all_placed_once cs fs d)

-- If the categories have different ids: the body of the export has an outline for each category, in
-- their order, that holds the outlines of its feeds in the order of the feeds, and then the outlines
-- of the feeds that have no category or one that is not exported, and these places hold each feed
-- exactly once.
pub opml_document-IsPartition :
    {U : Type 0} (lib : OpmlLib U) (fs : List Feed) (cs : List Category)
    → AreDistinct cs
    → ((opml_document lib fs cs).outlines
        ≡ map (feeds_in lib cs fs) cs ++ map (feed_outline lib) (select (is_loose cs) fs))
      × (((f : Feed) → sum (λ c. one (in_category c.id f)) cs + one (is_loose cs f) ≡ 1)
          × (sum (λ c. count (in_category c.id) fs) cs + count (is_loose cs) fs ≡ length fs))
unfolding opml_document
opml_document-IsPartition lib fs cs d =
    let outlines =
      category_outlines_lem lib cs fs cs (record { by_category = λ k. []; uncategorised = [] })
        (λ k. refl) (all_known cs) in
    (
      rw (outlines, loose_group lib cs fs (record { by_category = λ k. []; uncategorised = [] }))
          refl,
      ((λ f. placed_once cs f d), all_placed_once cs fs d),
    )
