-- ===== src/Base/Exec/Ensures.antt =====
-- What holds of the state when an action returns: one rule for each way to build an action.
use mathlib.Core.Bool.{Bool, true, false}
use bfeed.Base.Tests.{if◌then◌else◌}
use bfeed.Base.Text.{Text}
use bfeed.Base.Exec.Defs.{
  Step, returned, panicked, Exec, pure, handle, recover_with, deferred, continue, ◌>>=◌,
}

-- The action keeps `pre`, whether it returns or panics.
pub record Keeps {W A : Type 0} (pre : W → Type 0) (m : Exec W A) : Type 0 where
  pub at : (w : W) → pre w → pre (m w).1

abbrev pub WhenReturned : {W A : Type 0} → (W → Type 0) → Step A × W → Type 0
WhenReturned post (returned a, w) = post w
WhenReturned post (panicked r, w) = Unit

abbrev pub Gives : {A : Type 0} → (A → Type 0) → Step A → Type 0
Gives V (returned a) = V a
Gives V (panicked r) = Unit

-- From a state in `pre` the action, if it returns, ends in `post`.
pub record Ensures {W A : Type 0} (pre post : W → Type 0) (m : Exec W A) : Type 0 where
  pub at : (w : W) → pre w → WhenReturned post (m w)

module _ {W A : Type 0} {pre : W → Type 0} where
  pub Keeps-pure : (a : A) → Keeps pre (pure a)
  Keeps-pure a = record { at = λ w h. h }

  pub Keeps-if :
      (b : Bool) (m n : Exec W A) → Keeps pre m → Keeps pre n → Keeps pre (if b then m else n)
  Keeps-if true m n hm hn = hm
  Keeps-if false m n hm hn = hn

  handled :
      (r : Step A × W) (h : Text → Exec W A)
      → pre r.1
      → ((x : Text) → Keeps pre (h x))
      → pre (handle r h).1
  handled (returned a, w) h p k = p
  handled (panicked x, w) h p k = (k x).at w p

  pub Keeps-recover_with :
      (m : Exec W A) (h : Text → Exec W A)
      → Keeps pre m
      → ((x : Text) → Keeps pre (h x))
      → Keeps pre (recover_with m h)
  unfolding recover_with
  Keeps-recover_with m h km kh = record { at = λ w p. handled (m w) h (km.at w p) kh }

  pub Keeps-deferred :
      (m : Exec W A) (f : W → W)
      → Keeps pre m
      → ((w : W) → pre w → pre (f w))
      → Keeps pre (deferred m f)
  unfolding deferred
  Keeps-deferred m f km kf = record { at = λ w p. kf (m w).1 (km.at w p) }

module _ {W A B : Type 0} {pre : W → Type 0} where
  keeps_then :
      (r : Step A × W) (f : A → Exec W B)
      → pre r.1
      → ((a : A) → Keeps pre (f a))
      → pre (continue r f).1
  keeps_then (returned a, w) f p k = (k a).at w p
  keeps_then (panicked x, w) f p k = p

  pub Keeps-bind :
      (m : Exec W A) (f : A → Exec W B)
      → Keeps pre m
      → ((a : A) → Keeps pre (f a))
      → Keeps pre (m >>= f)
  unfolding ◌>>=◌
  Keeps-bind m f km kf = record { at = λ w p. keeps_then (m w) f (km.at w p) kf }

pub ruleset keeps_rules = (Keeps-pure, Keeps-if, Keeps-bind)

module _ {W A : Type 0} {post : W → Type 0} where
  recovered :
      (r : Step A × W) (h : Text → Exec W A)
      → WhenReturned post r
      → ((x : Text) → Ensures (λ _. Unit {0}) post (h x))
      → WhenReturned post (handle r h)
  recovered (returned a, w) h p k = p
  recovered (panicked x, w) h p k = (k x).at w tt

module _ {W A : Type 0} {pre post : W → Type 0} where
  pub Ensures-if :
      (b : Bool) (m n : Exec W A)
      → Ensures pre post m
      → Ensures pre post n
      → Ensures pre post (if b then m else n)
  Ensures-if true m n hm hn = hm
  Ensures-if false m n hm hn = hn

  pub Ensures-recover_with :
      (m : Exec W A) (h : Text → Exec W A)
      → Ensures pre post m
      → ((x : Text) → Ensures (λ _. Unit {0}) post (h x))
      → Ensures pre post (recover_with m h)
  unfolding recover_with
  Ensures-recover_with m h em eh = record { at = λ w p. recovered (m w) h (em.at w p) eh }

  pub Ensures-any : (m : Exec W A) → Ensures (λ _. Unit {0}) post m → Ensures pre post m
  Ensures-any m em = record { at = λ w p. em.at w tt }

module _ {W A B : Type 0} {post : W → Type 0} where
  kept_then :
      (r : Step A × W) (f : A → Exec W B)
      → WhenReturned post r
      → ((a : A) → Keeps post (f a))
      → WhenReturned post (continue r f)
  kept_then (returned a, w) f p k = when_returned (f a w) ((k a).at w p)
    where
      when_returned : (r : Step B × W) → post r.1 → WhenReturned post r
      when_returned (returned b, w) q = q
      when_returned (panicked x, w) q = tt
  kept_then (panicked x, w) f p k = tt

module _ {W A B : Type 0} {pre post : W → Type 0} where
  bound_value :
      (V : A → Type 0) (r : Step A × W) (f : A → Exec W B)
      → pre r.1
      → Gives V r.0
      → ((a : A) → V a → Ensures pre post (f a))
      → WhenReturned post (continue r f)
  bound_value V (returned a, w) f p v k = (k a v).at w p
  bound_value V (panicked x, w) f p v k = tt

  -- The rest of the block may use what is known of the value.
  pub Ensures-bind-value :
      (V : A → Type 0) (m : Exec W A) (f : A → Exec W B)
      → Keeps pre m
      → ((w : W) → Gives V (m w).0)
      → ((a : A) → V a → Ensures pre post (f a))
      → Ensures pre post (m >>= f)
  unfolding ◌>>=◌
  Ensures-bind-value V m f km vm ef = record {
    at = λ w p. bound_value V (m w) f (km.at w p) (vm w) ef;
  }

  bound_at :
      (r : Step A × W) (f : A → Exec W B)
      → pre r.1
      → ((a : A) → Ensures pre post (f a))
      → WhenReturned post (continue r f)
  bound_at (returned a, w) f p k = (k a).at w p
  bound_at (panicked x, w) f p k = tt

  pub Ensures-bind :
      (m : Exec W A) (f : A → Exec W B)
      → Keeps pre m
      → ((a : A) → Ensures pre post (f a))
      → Ensures pre post (m >>= f)
  unfolding ◌>>=◌
  Ensures-bind m f km ef = record { at = λ w p. bound_at (m w) f (km.at w p) ef }

  -- What an action ensures, the rest keeps.
  pub Ensures-then :
      (m : Exec W A) (f : A → Exec W B)
      → Ensures pre post m
      → ((a : A) → Keeps post (f a))
      → Ensures pre post (m >>= f)
  unfolding ◌>>=◌
  Ensures-then m f em kf = record { at = λ w p. kept_then (m w) f (em.at w p) kf }

module _ {W A B : Type 0} {mid post : W → Type 0} where
  sequenced :
      (r : Step A × W) (f : A → Exec W B)
      → WhenReturned mid r
      → ((a : A) → Ensures mid post (f a))
      → WhenReturned post (continue r f)
  sequenced (returned a, w) f p k = (k a).at w p
  sequenced (panicked x, w) f p k = tt

module _ {W A B : Type 0} {pre mid post : W → Type 0} where
  -- Two parts with a condition in between.
  pub Ensures-seq :
      (m : Exec W A) (f : A → Exec W B)
      → Ensures pre mid m
      → ((a : A) → Ensures mid post (f a))
      → Ensures pre post (m >>= f)
  unfolding ◌>>=◌
  Ensures-seq m f em ef = record { at = λ w p. sequenced (m w) f (em.at w p) ef }
