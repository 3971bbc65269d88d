-- ===== src/Base/Exec/Tally.antt =====
-- How often an action counts, and that it returns: one rule for each way to build an action.
use Prim.Native.Nat.{ℕ, ◌+◌}
use mathlib.Core.Path.{◌≡◌, refl}
use mathlib.Core.Bool.{Bool, true, false}
use native.Mathlib.Omega.{arith}
use bfeed.Base.Tests.{if◌then◌else◌}
use bfeed.Base.Text.{Text}
use bfeed.Base.Exec.Defs.{
  Step, returned, panicked, Exec, pure, handle, recover_with, continue, ◌>>=◌,
}

abbrev pub score {ℓ} : {A : Type ℓ} → Step A → ℕ
score (returned a) = 1
score (panicked r) = 0

-- From a state in `inv` the action ends in one, and leaves the tally as it was.
pub record IsSilent {W A : Type 0} (inv : W → Type 0) (tally : W → ℕ) (m : Exec W A) : Type 0 where
  pub keeps : (w : W) → inv w → inv (m w).1
  pub at : (w : W) → inv w → tally (m w).1 ≡ tally w

-- Where an action ends: in `post` if it returned, in `inv` if it panicked.
abbrev pub Ends : {W A : Type 0} → (W → Type 0) → (W → Type 0) → Step A × W → Type 0
Ends inv post (returned a, w) = post w
Ends inv post (panicked r, w) = inv w

-- From a state in `inv` the action returns in `post` and has added one to the tally, or it panics in
-- `inv` and has added nothing.
pub record IsOnce {W A : Type 0} (inv post : W → Type 0) (tally : W → ℕ) (m : Exec W A)
    : Type 0 where
  pub ends : (w : W) → inv w → Ends inv post (m w)
  pub at : (w : W) → inv w → tally (m w).1 ≡ tally w + score (m w).0

-- The action returns.
pub record IsTotal {W A : Type 0} (m : Exec W A) : Type 0 where
  pub at : (w : W) → score (m w).0 ≡ 1

module _ {W A : Type 0} {inv : W → Type 0} {tally : W → ℕ} where
  pub IsSilent-pure : (a : A) → IsSilent inv tally (pure a)
  IsSilent-pure a = record { keeps = λ w h. h; at = λ w h. refl }

  pub IsSilent-if :
      (b : Bool) (m n : Exec W A)
      → IsSilent inv tally m
      → IsSilent inv tally n
      → IsSilent inv tally (if b then m else n)
  IsSilent-if true m n hm hn = hm
  IsSilent-if false m n hm hn = hn

module _ {W A : Type 0} {inv post : W → Type 0} {tally : W → ℕ} where
  pub IsOnce-if :
      (b : Bool) (m n : Exec W A)
      → IsOnce inv post tally m
      → IsOnce inv post tally n
      → IsOnce inv post tally (if b then m else n)
  IsOnce-if true m n hm hn = hm
  IsOnce-if false m n hm hn = hn

  handled :
      (t : ℕ) (r : Step A × W) (h : Text → Exec W A)
      → Ends inv post r
      → tally r.1 ≡ t + score r.0
      → ((x : Text) → IsOnce inv post tally (h x))
      → Ends inv post (handle r h) × (tally (handle r h).1 ≡ t + score (handle r h).0)
  handled t (returned a, w') h p e k = (p, e)
  handled t (panicked x, w') h p e k = ((k x).ends w' p, omega (arith, (k x).at w' p))

  pub IsOnce-recover_with :
      (m : Exec W A) (h : Text → Exec W A)
      → IsOnce inv post tally m
      → ((x : Text) → IsOnce inv post tally (h x))
      → IsOnce inv post tally (recover_with m h)
  unfolding recover_with
  IsOnce-recover_with m h om oh = record {
    ends = λ w p. (handled (tally w) (m w) h (om.ends w p) (om.at w p) oh).0;
    at = λ w p. (handled (tally w) (m w) h (om.ends w p) (om.at w p) oh).1;
  }

module _ {W A B : Type 0} {inv : W → Type 0} {tally : W → ℕ} where
  silent_then :
      (t : ℕ) (r : Step A × W) (f : A → Exec W B)
      → inv r.1
      → tally r.1 ≡ t
      → ((a : A) → IsSilent inv tally (f a))
      → inv (continue r f).1 × (tally (continue r f).1 ≡ t)
  silent_then t (returned a, w') f p e k = ((k a).keeps w' p, omega (arith, (k a).at w' p))
  silent_then t (panicked x, w') f p e k = (p, e)

  pub IsSilent-bind :
      (m : Exec W A) (f : A → Exec W B)
      → IsSilent inv tally m
      → ((a : A) → IsSilent inv tally (f a))
      → IsSilent inv tally (m >>= f)
  unfolding ◌>>=◌
  IsSilent-bind m f sm sf = record {
    keeps = λ w p. (silent_then (tally w) (m w) f (sm.keeps w p) (sm.at w p) sf).0;
    at = λ w p. (silent_then (tally w) (m w) f (sm.keeps w p) (sm.at w p) sf).1;
  }

module _ {W A B : Type 0} {inv post : W → Type 0} {tally : W → ℕ} where
  once_then :
      (t : ℕ) (r : Step A × W) (f : A → Exec W B)
      → inv r.1
      → tally r.1 ≡ t
      → ((a : A) → IsOnce inv post tally (f a))
      → Ends inv post (continue r f) × (tally (continue r f).1 ≡ t + score (continue r f).0)
  once_then t (returned a, w') f p e k = ((k a).ends w' p, omega (arith, (k a).at w' p))
  once_then t (panicked x, w') f p e k = (p, omega arith)

  pub IsOnce-bind :
      (m : Exec W A) (f : A → Exec W B)
      → IsSilent inv tally m
      → ((a : A) → IsOnce inv post tally (f a))
      → IsOnce inv post tally (m >>= f)
  unfolding ◌>>=◌
  IsOnce-bind m f sm of = record {
    ends = λ w p. (once_then (tally w) (m w) f (sm.keeps w p) (sm.at w p) of).0;
    at = λ w p. (once_then (tally w) (m w) f (sm.keeps w p) (sm.at w p) of).1;
  }

pub ruleset silent_rules = (IsSilent-pure, IsSilent-if, IsSilent-bind)

pub ruleset once_rules = (silent_rules, IsOnce-if, IsOnce-bind, IsOnce-recover_with)

module _ {W A : Type 0} where
  pub IsTotal-pure : (a : A) → IsTotal {W = W} (pure a)
  IsTotal-pure a = record { at = λ w. refl }

  pub IsTotal-if :
      (b : Bool) (m n : Exec W A) → IsTotal m → IsTotal n → IsTotal (if b then m else n)
  IsTotal-if true m n hm hn = hm
  IsTotal-if false m n hm hn = hn

  total_handled :
      (r : Step A × W) (h : Text → Exec W A)
      → ((x : Text) → IsTotal (h x))
      → score (handle r h).0 ≡ 1
  total_handled (returned a, w) h k = refl
  total_handled (panicked x, w) h k = (k x).at w

  -- What recovers by an action that returns, returns.
  pub IsTotal-recover_with :
      (m : Exec W A) (h : Text → Exec W A)
      → ((x : Text) → IsTotal (h x))
      → IsTotal (recover_with m h)
  unfolding recover_with
  IsTotal-recover_with m h th = record { at = λ w. total_handled (m w) h th }

module _ {W A B : Type 0} where
  total_then :
      (r : Step A × W) (f : A → Exec W B)
      → score r.0 ≡ 1
      → ((a : A) → IsTotal (f a))
      → score (continue r f).0 ≡ 1
  total_then (returned a, w) f e k = (k a).at w
  total_then (panicked x, w) f e k = absurd (omega arith)

  pub IsTotal-bind :
      (m : Exec W A) (f : A → Exec W B) → IsTotal m → ((a : A) → IsTotal (f a)) → IsTotal (m >>= f)
  unfolding ◌>>=◌
  IsTotal-bind m f tm tf = record { at = λ w. total_then (m w) f (tm.at w) tf }

pub ruleset total_rules = (IsTotal-pure, IsTotal-if, IsTotal-bind, IsTotal-recover_with)

pub Ends-of_returned :
    {W A : Type 0} (inv post : W → Type 0) (r : Step A × W)
    → score r.0 ≡ 1
    → post r.1
    → Ends inv post r
Ends-of_returned inv post (returned a, w) e p = p
Ends-of_returned inv post (panicked x, w) e p = absurd (omega arith)
