-- ===== src/Store/Sql/Triple.antt =====
-- What holds of the tables after an action: a triple with a postcondition for each way to end.
use bfeed.Base.{◌≡◌, refl, if◌then◌else◌, Bool, true, false, Option, none, some, List, [], ◌∷◌}
use bfeed.Core.Types.{Error}
use bfeed.Store.Rows.{Db}
use bfeed.Store.Sql.{
  Sql, SqlResult, SqlError, done, failed, Conn, with_db, give, fail, applied, faulty, statement,
  query, next, boundary, rolled_back, transaction, left_early, commit_some, transaction_or, ◌>>=◌,
}

module _ {A : Type 0} where
  abbrev pub After : (A → Db → Type 0) → (Db → Type 0) → SqlResult A × Conn → Type 0
  After Q F (done a, c) = Q a c.db
  After Q F (failed e, c) = F c.db

  -- From tables in `P` the action ends in `Q` of its value, or, where it fails, in `F`.
  pub record Triple (P : Db → Type 0) (Q : A → Db → Type 0) (F : Db → Type 0) (m : Sql A)
      : Type 0 where
    pub at : (c : Conn) → P c.db → After Q F (m c)

  -- What a statement may do.
  abbrev pub Given : (A → Db → Type 0) → SqlResult (A × Db) → Type 0
  Given Q (done (a, db)) = Q a db
  Given Q (failed e) = Unit

  abbrev pub Found : (A → Type 0) → SqlResult A → Type 0
  Found Q (done a) = Q a
  Found Q (failed e) = Unit

module _ {A : Type 0} where
  After-applied :
      (F : Db → Type 0) (Q : A → Db → Type 0) (c : Conn) (r : SqlResult (A × Db))
      → F c.db
      → Given Q r
      → After Q F (applied c r)
  unfolding applied
  After-applied F Q c (failed e) p h = p
  After-applied F Q c (done (a, db)) p h = h

  After-faulty :
      (F : Db → Type 0) (Q : A → Db → Type 0) (f : Db → SqlResult (A × Db))
      (fs : List (Option Error)) (c : Conn)
      → F c.db
      → Given Q (f c.db)
      → After Q F (faulty f fs c)
  unfolding faulty
  After-faulty F Q f [] c p h = After-applied F Q c (f c.db) p h
  After-faulty F Q f (none ∷ fs) c p h = After-applied F Q (record c { faults = fs }) (f c.db) p h
  After-faulty F Q f (some e ∷ fs) c p h = p

module _ {A : Type 0} {P F : Db → Type 0} {Q : A → Db → Type 0} where
  pub Triple-give : (a : A) → ((db : Db) → P db → Q a db) → Triple P Q F (give a)
  Triple-give a h = record { at = λ c p. h c.db p }

  pub Triple-fail : (e : SqlError) → ((db : Db) → P db → F db) → Triple P Q F (fail e)
  Triple-fail e h = record { at = λ c p. h c.db p }

  pub Triple-if :
      (b : Bool) (m n : Sql A) → Triple P Q F m → Triple P Q F n → Triple P Q F (if b then m else n)
  Triple-if true m n hm hn = hm
  Triple-if false m n hm hn = hn

  pub Triple-if_known :
      (b : Bool) (m n : Sql A)
      → (b ≡ true → Triple P Q F m)
      → (b ≡ false → Triple P Q F n)
      → Triple P Q F (if b then m else n)
  Triple-if_known true m n hm hn = hm refl
  Triple-if_known false m n hm hn = hn refl

  -- A precondition that does not depend on the tables.
  pub Triple-with : {X : Type 0} (m : Sql A) → (X → Triple P Q F m) → Triple (λ db. X × P db) Q F m
  Triple-with m h = record { at = λ c p. (h p.0).at c p.1 }

  pub Triple-statement :
      (f : Db → SqlResult (A × Db))
      → ((db : Db) → P db → F db)
      → ((db : Db) → P db → Given Q (f db))
      → Triple P Q F (statement f)
  unfolding statement
  Triple-statement f w h = record {
    at = λ c p. After-faulty F Q f c.faults c (w c.db p) (h c.db p);
  }

module _ {A : Type 0} {P F : Db → Type 0} {Q : A → Db → Type 0} where
  pub Triple-query :
      (f : Db → SqlResult A)
      → ((db : Db) → P db → F db)
      → ((db : Db) → P db → Found (λ a. Q a db) (f db))
      → Triple P Q F (query f)
  Triple-query f w h = Triple-statement _ w (λ db p. given db (f db) (h db p))
    where
      given : (db : Db) (r : SqlResult A) → Found (λ a. Q a db) r → Given Q (with_db db r)
      given db (done a) q = q
      given db (failed e) q = tt

module _ {A B : Type 0} {F : Db → Type 0} {Q : A → Db → Type 0} {R : B → Db → Type 0} where
  After-next :
      (r : SqlResult A × Conn) (f : A → Sql B)
      → After Q F r
      → ((a : A) → Triple (Q a) R F (f a))
      → After R F (next r f)
  After-next (done a, c) f q k = (k a).at c q
  After-next (failed e, c) f q k = q

module _ {A B : Type 0} {P F : Db → Type 0} {Q : A → Db → Type 0} {R : B → Db → Type 0} where
  pub Triple-bind :
      (m : Sql A) (f : A → Sql B)
      → Triple P Q F m
      → ((a : A) → Triple (Q a) R F (f a))
      → Triple P R F (m >>= f)
  unfolding ◌>>=◌
  Triple-bind m f tm tf = record { at = λ c p. After-next {F = F} {Q = Q} (m c) f (tm.at c p) tf }

module _ {A : Type 0} where
  committed :
      (F : Db → Type 0) (Q : A → Db → Type 0) (db : Db) (r : SqlResult A × Conn)
      → F db
      → After Q (λ _. Unit {0}) r
      → After Q F (rolled_back db r)
  unfolding rolled_back
  committed F Q db (done a, c) p q = q
  committed F Q db (failed e, c) p q = p

Triple-boundary : {P : Db → Type 0} → Triple P (λ _. P) (λ _. Unit {0}) boundary
Triple-boundary = Triple-statement _ (λ db p. tt) (λ db p. p)

module _ {A : Type 0} {P F : Db → Type 0} {Q : A → Db → Type 0} where
  -- A transaction that fails leaves the tables as they were.
  pub Triple-transaction :
      (m : Sql A)
      → ((db : Db) → P db → F db)
      → Triple P Q (λ _. Unit {0}) m
      → Triple P Q F (transaction m)
  unfolding transaction
  Triple-transaction m w tm =
      let body : Triple P Q (λ _. Unit {0})
          (boundary >>= λ _. (m >>= λ a. (boundary >>= λ _. give a))) =
        Triple-bind _ _ Triple-boundary λ _.
          Triple-bind _ _ tm λ a. Triple-bind _ _ Triple-boundary λ _. Triple-give a (λ db q. q) in
      record { at = λ c p. committed F Q c.db _ (w c.db p) (body.at c p) }

module _ {A : Type 0} where
  -- What holds of a body that may return early: `X` where it does.
  abbrev pub OrEarly : Type 0 → (A → Db → Type 0) → Option A → Db → Type 0
  OrEarly X Q none db = X
  OrEarly X Q (some b) db = Q b db

  ended_early :
      (X : Type 0) (F : Db → Type 0) (Q : A → Db → Type 0) (a : A) (db : Db)
      (r : SqlResult (Option A) × Conn)
      → F db
      → (X → Q a db)
      → After (OrEarly X Q) (λ _. Unit {0}) r
      → After Q F (left_early a db r)
  unfolding left_early
  ended_early X F Q a db (done (some b), c) f w q = q
  ended_early X F Q a db (done none, c) f w x = w x
  ended_early X F Q a db (failed e, c) f w q = f

  commit_some-Triple :
      (X : Type 0) (Q : A → Db → Type 0) (o : Option A)
      → Triple (OrEarly X Q o) (OrEarly X Q) (λ _. Unit {0}) (commit_some o)
  commit_some-Triple X Q none = Triple-give none (λ db x. x)
  commit_some-Triple X Q (some b) =
      Triple-bind _ _ Triple-boundary λ _. Triple-give (some b) (λ db q. q)

module _ {A : Type 0} {P F : Db → Type 0} {Q : A → Db → Type 0} where
  -- A transaction that is left early leaves the tables as they were, too.
  pub Triple-transaction_or :
      {X : Type 0} (a : A) (m : Sql (Option A))
      → ((db : Db) → P db → F db)
      → ((db : Db) → X → P db → Q a db)
      → Triple P (OrEarly X Q) (λ _. Unit {0}) m
      → Triple P Q F (transaction_or a m)
  unfolding transaction_or
  Triple-transaction_or {X} a m w early tm =
      let body : Triple P (OrEarly X Q) (λ _. Unit {0}) (boundary >>= λ _. (m >>= commit_some)) =
        Triple-bind _ _ Triple-boundary λ _. Triple-bind _ _ tm (commit_some-Triple X Q) in
      record {
        at = λ c p. ended_early X F Q a c.db _ (w c.db p) (λ x. early c.db x p) (body.at c p);
      }
