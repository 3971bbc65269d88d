-- ===== src/Base/Exec/Defs.antt =====
-- Actions on a state that return or panic. Errors are values; a panic unwinds to `recover_with`.
use bfeed.Base.Text.{Text}

pub data Step {ℓ} (A : Type ℓ) : Type ℓ where
  returned : A → Step A
  panicked : Text → Step A

abbrev pub Exec : Type 0 → Type 0 → Type 0
Exec W A = W → Step A × W

abbrev pub modify : {W : Type 0} → (W → W) → Exec W (Unit {0})
modify f w = (returned tt, f w)

module _ {W A : Type 0} where
  abbrev pub pure : A → Exec W A
  pure a w = (returned a, w)

  abbrev pub gets : (W → A) → Exec W A
  gets f w = (returned (f w), w)

  -- A deferred `recover`: a panic of the body becomes the handler's result.
  abbrev pub handle : Step A × W → (Text → Exec W A) → Step A × W
  handle (returned a, w) h = (returned a, w)
  handle (panicked r, w) h = h r w

  unfoldable pub recover_with : Exec W A → (Text → Exec W A) → Exec W A
  recover_with m h w = handle (m w) h

  -- A deferred call: it runs on a return and while a panic unwinds.
  unfoldable pub deferred : Exec W A → (W → W) → Exec W A
  deferred m f w = let (r, w') = m w in (r, f w')

module _ {W A B : Type 0} where
  abbrev pub continue : Step A × W → (A → Exec W B) → Step B × W
  continue (returned a, w) f = f a w
  continue (panicked r, w) f = (panicked r, w)

  infixl 5 ◌>>=◌
  unfoldable pub ◌>>=◌ : Exec W A → (A → Exec W B) → Exec W B
  ◌>>=◌ m f w = continue (m w) f

infixl 5 ◌>>◌
abbrev pub ◌>>◌ : {W B : Type 0} → Exec W (Unit {0}) → Exec W B → Exec W B
m >> k = m >>= λ _. k
