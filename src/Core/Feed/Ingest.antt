-- ===== src/Core/Feed/Ingest.antt =====
-- What `ingest` hands to the store.
use bfeed.Base.{
  ◌≡◌, refl, ap, ◌∙◌, ◌⊎◌, inl, inr, Bool, true, false, if◌then◌else◌, some, List, [], ◌∷◌,
  Bool-cases, Option-cases, arith,
}
use bfeed.Base.Text.{Text, text_eq, text_eq_refl, eq_of_text_eq}
use bfeed.Base.Exec.{Step, returned, panicked, Exec, pure, ◌>>=◌, continue}
use bfeed.Base.Exec.Ensures.{Gives}
use bfeed.Core.Types.{Feed, Time, Entry, unread}
use bfeed.Core.Ports.{Dedup, ParsedEntry}
use bfeed.Core.Feed.World.{FeedService, World, call}
use bfeed.Core.Feed.Record.{is_known, new_entry, new_entries}

-- Whatever the state, the action gives a value in `V`, if it returns.
record Yields {W A : Type 0} (V : A → Type 0) (m : Exec W A) : Type 0 where
  pub at : (w : W) → Gives V (m w).0

Yields-pure : {W A : Type 0} {V : A → Type 0} (a : A) → V a → Yields {W = W} V (pure a)
Yields-pure a v = record { at = λ w. v }

module _ {W A B : Type 0} {U : A → Type 0} {V : B → Type 0} where
  continued :
      (r : Step A × W) (f : A → Exec W B)
      → Gives U r.0
      → ((a : A) → U a → Yields V (f a))
      → Gives V (continue r f).0
  continued (returned a, w) f u k = (k a u).at w
  continued (panicked x, w) f u k = tt

  Yields-bind :
      (m : Exec W A) (f : A → Exec W B)
      → Yields U m
      → ((a : A) → U a → Yields V (f a))
      → Yields V (m >>= f)
  unfolding ◌>>=◌
  Yields-bind m f u k = record { at = λ w. continued (m w) f (u.at w) k }

anything : {W A : Type 0} (m : Exec W A) → Yields (λ _. Unit {0}) m
anything m = record { at = λ w. given (m w).0 }
  where
    given : {A : Type 0} (r : Step A) → Gives (λ _. Unit {0}) r
    given (returned a) = tt
    given (panicked x) = tt

-- An entry for the feed, made of the parsed one.
pub record IsMade (f : Feed) (pe : ParsedEntry) (e : Entry) : Type 0 where
  guid : e.guid ≡ pe.guid
  hash : e.hash ≡ pe.hash
  url : e.url ≡ pe.url
  title : e.title ≡ pe.title
  feed : e.feed_id ≡ f.id
  user : e.user_id ≡ f.user_id
  status : e.status ≡ unread

-- Which parsed entries are handed on: not those that have a tombstone, nor those whose GUID is stored
-- with the same hash, and an entry for each of the others, in their order.
pub data Picks (f : Feed) (d : Dedup) : List ParsedEntry → List Entry → Type 0 where
  end : Picks f d [] []
  deleted :
      {pe : ParsedEntry} {pes : List ParsedEntry} {es : List Entry}
      → d.tombstoned pe.guid ≡ true
      → Picks f d pes es
      → Picks f d (pe ∷ pes) es
  unchanged :
      {pe : ParsedEntry} {pes : List ParsedEntry} {es : List Entry}
      → d.existing pe.guid ≡ some pe.hash
      → Picks f d pes es
      → Picks f d (pe ∷ pes) es
  picked :
      {pe : ParsedEntry} {pes : List ParsedEntry} {e : Entry} {es : List Entry}
      → d.tombstoned pe.guid ≡ false
      → (d.existing pe.guid ≡ some pe.hash → ⊥)
      → IsMade f pe e
      → Picks f d pes es
      → Picks f d (pe ∷ pes) (e ∷ es)

is_known-cases :
    (d : Dedup) (pe : ParsedEntry)
    → is_known d pe ≡ true
    → (d.tombstoned pe.guid ≡ true) ⊎ (d.existing pe.guid ≡ some pe.hash)
unfolding is_known
is_known-cases d pe h = elim (Bool-cases (d.tombstoned pe.guid)) [
  | inl e ↦ inl e
  | inr e ↦ elim (Option-cases (d.existing pe.guid)) [
    | inl n ↦ absurd (ground (arith, e, n, h))
    | inr (old, o) ↦
        let same : text_eq old pe.hash ≡ true = ground (arith, e, o, h) in
        inr (o ∙ ap some (eq_of_text_eq _ _ same))
  ]
]

is_known-false :
    (d : Dedup) (pe : ParsedEntry)
    → is_known d pe ≡ false
    → (d.tombstoned pe.guid ≡ false) × (d.existing pe.guid ≡ some pe.hash → ⊥)
unfolding is_known
is_known-false d pe h =
    (ground (arith, h), λ e. absurd (ground (arith, h, e, text_eq_refl pe.hash)))

module _ {S F U : Type 0} (s : FeedService S F U) (f : Feed) (now : Time) (base : Text)
    (d : Dedup) where
  added :
      (pe : ParsedEntry) (pes : List ParsedEntry) (content summary : Text) (es : List Entry)
      → is_known d pe ≡ false
      → Picks f d pes es
      → Picks f d (pe ∷ pes) (new_entry s f now pe content summary ∷ es)
  unfolding new_entry
  added pe pes content summary es e ps =
      let (alive, fresh) = is_known-false d pe e in
      picked alive fresh
        (record {
          guid = refl;
          hash = refl;
          url = refl;
          title = refl;
          feed = refl;
          user = refl;
          status = refl;
        })
        ps

  skipped :
      (pe : ParsedEntry) (pes : List ParsedEntry) (es : List Entry)
      → is_known d pe ≡ true
      → Picks f d pes es
      → Picks f d (pe ∷ pes) es
  skipped pe pes es e ps = elim (is_known-cases d pe e) [
    | inl t ↦ deleted t ps
    | inr u ↦ unchanged u ps
  ]

  sanitise_one : ParsedEntry → Exec (World S) (List Entry) → Exec (World S) (List Entry)
  sanitise_one pe rest = do
    content ← call (s.san.sanitize pe.content base)
    summary ← call (s.san.sanitize pe.summary base)
    es ← rest
    pure (new_entry s f now pe content summary ∷ es)

  step-Yields :
      (pe : ParsedEntry) (pes : List ParsedEntry) (rest : Exec (World S) (List Entry)) (b : Bool)
      → is_known d pe ≡ b
      → Yields (Picks f d pes) rest
      → Yields (Picks f d (pe ∷ pes)) (if b then rest else sanitise_one pe rest)
  unfolding sanitise_one
  step-Yields pe pes rest true e y = record { at = λ w. weaken (rest w).0 (y.at w) }
    where
      weaken : (r : Step (List Entry)) → Gives (Picks f d pes) r → Gives (Picks f d (pe ∷ pes)) r
      weaken (returned es) ps = skipped pe pes es e ps
      weaken (panicked x) g = tt
  step-Yields pe pes rest false e y = Yields-bind _ _ (anything _) λ content _.
      Yields-bind _ _ (anything _)
        λ summary _. Yields-bind _ _ y λ es n. Yields-pure _ (added pe pes content summary es e n)

  entries-Yields :
      (pes : List ParsedEntry) → Yields (Picks f d pes) (new_entries s f now base d pes)
  unfolding new_entries sanitise_one
  entries-Yields [] = Yields-pure [] end
  entries-Yields (pe ∷ pes) =
      step-Yields pe pes (new_entries s f now base d pes) (is_known d pe) refl (entries-Yields pes)

  -- Whatever the sanitiser does, if the loop of `ingest` returns, then it gives an unread entry of the feed
  -- for each parsed entry that neither has a tombstone nor is stored with the same hash, in their order
  -- and with its GUID, hash, URL and title, and none for the others.
  pub new_entries-Gives :
      (pes : List ParsedEntry) (w : World S)
      → Gives (Picks f d pes) (new_entries s f now base d pes w).0
  new_entries-Gives pes w = (entries-Yields pes).at w
