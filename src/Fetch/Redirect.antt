-- ===== src/Fetch/Redirect.antt =====
-- `checkRedirect`: the cap on a chain of redirects, and whether all of it was permanent.
use mathlib.Core.Option
use bfeed.Base.{
  ℕ, suc, ◌+◌, ◌≡◌, leb, ltb, ◌==◌, if◌then◌else◌, Bool, true, false, ◌&&◌, ◌||◌, Option, none,
  some, List, [], ◌∷◌, length, arith,
}

-- `redirectTracker`
pub record RedirectTracker : Type 0 where
  pub hops : ℕ
  pub permanent : Bool

-- The tracker that `Fetch` puts into the request's context.
abbrev pub fresh : RedirectTracker
fresh = record { hops = 0; permanent = true }

-- A redirect: how many requests the client has made, and the status of `req.Response`, or `none`
-- where that is nil.
pub record Redirect : Type 0 where
  pub via : ℕ
  pub status : Option ℕ

abbrev pub is_permanent : Option ℕ → Bool
is_permanent none = false
is_permanent (some status) = (status == 301) || (status == 308)

-- `checkRedirect`; `none` is the error that stops the chain.
unfoldable pub check_redirect : ℕ → RedirectTracker → Redirect → Option RedirectTracker
check_redirect n rt r =
    if leb n r.via
    then none
    else some (record {
      hops = rt.hops + 1;
      permanent = if is_permanent r.status then rt.permanent else false;
    })

-- `out.PermanentRedirect`
unfoldable pub permanent_redirect : RedirectTracker → Bool
permanent_redirect rt = ltb 0 rt.hops && rt.permanent

-- The calls of a chain, in order, up to the first error.
unfoldable pub check_redirects : ℕ → RedirectTracker → List Redirect → Option RedirectTracker
check_redirects n rt [] = some rt
check_redirects n rt (r ∷ rs) = elim (check_redirect n rt r) [
  | none ↦ none
  | some rt' ↦ check_redirects n rt' rs
]

abbrev pub all_permanent : List Redirect → Bool
all_permanent [] = true
all_permanent (r ∷ rs) = is_permanent r.status && all_permanent rs

-- The client has made `k` requests before the first redirect of the chain, and one more before each
-- that follows.
abbrev pub IsChain : ℕ → List Redirect → Type 0
IsChain k [] = Unit
IsChain k (r ∷ rs) = (r.via ≡ k) × IsChain (suc k) rs

followed :
    (n k : ℕ) (rt : RedirectTracker) (rs : List Redirect)
    → IsChain k rs
    → check_redirects n rt rs ≡ (
        if ltb 0 (length rs) && leb (suc n) (k + length rs)
        then none
        else some
            (record { hops = rt.hops + length rs; permanent = rt.permanent && all_permanent rs }))
unfolding check_redirects check_redirect
followed n k rt [] c = ground arith
followed n k rt (r ∷ rs) (e, c) =
    let ih =
      followed n (suc k)
        (record {
          hops = rt.hops + 1;
          permanent = if is_permanent r.status then rt.permanent else false;
        })
        rs c in
    ground (arith, e, ih)

-- A chain that starts after the first request passes a cap of n exactly if it has less than n
-- redirects, or none; then the permanence reported says that there were redirects, and each of them
-- a 301 or a 308.
pub check_redirects_lem :
    (n : ℕ) (rs : List Redirect)
    → IsChain 1 rs
    → Option.map permanent_redirect (check_redirects n fresh rs) ≡ (
        if length rs == 0 || ltb (length rs) n
        then some (ltb 0 (length rs) && all_permanent rs)
        else none)
unfolding permanent_redirect
check_redirects_lem n rs c = let e = followed n 1 fresh rs c in ground (arith, e)
