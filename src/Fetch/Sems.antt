-- ===== src/Fetch/Sems.antt =====
-- The semaphores of the hosts: `hostSem`, `acquire` and `unref`, with fetches that run side by side.
pub mod Counting
pub mod Invariant
pub mod Hosts
pub mod Progress
use bfeed.Base.{
  ℕ, suc, ◌+◌, ◌-◌, ◌<◌, ◌==◌, ◌≡◌, if◌then◌else◌, Bool, true, false, Option, none, some, List, [],
  ◌∷◌, ◌++◌,
}
use bfeed.Base.Int.{ℤ, pos, leb_ℤ, pos_part}
use bfeed.Base.Text.{Text, text_eq}

-- `hostSem`: the tokens in the channel, and the count of those who hold or await one.
pub record HostSem : Type 0 where
  pub tokens : ℕ
  pub refs : ℕ

-- `Client.sems`. A semaphore is known by its place in the heap, and `next` is the next free place.
pub record Sems : Type 0 where
  pub table : Text → Option ℕ
  pub heap : ℕ → HostSem
  pub next : ℕ

-- The capacity that `New` gives the channels.
unfoldable pub host_concurrency : ℤ → ℕ
host_concurrency n = if leb_ℤ n (pos 0) then 3 else pos_part n

abbrev pub change_sem : ℕ → (HostSem → HostSem) → Sems → Sems
change_sem p f c = record c { heap = λ q. if p == q then f (c.heap q) else c.heap q }

abbrev pub set_key : Text → Option ℕ → (Text → Option ℕ) → Text → Option ℕ
set_key k o m l = if text_eq k l then o else m l

abbrev pub add_ref : HostSem → HostSem
add_ref s = record s { refs = s.refs + 1 }

-- The part of `acquire` under the lock: the semaphore of the key, new if there is none, with a
-- reference more.
unfoldable pub join : Text → Sems → ℕ × Sems
join k c = elim (c.table k) [
  | some p ↦ (p, change_sem p add_ref c)
  | none ↦ (
    c.next,
    record {
      table = set_key k (some c.next) c.table;
      heap = λ q. if c.next == q then record { tokens = 0; refs = 1 } else c.heap q;
      next = suc c.next;
    },
  )
]

-- `s.ch <- struct{}{}` and `<-s.ch`
unfoldable pub put_token : ℕ → Sems → Sems
put_token p c = change_sem p (λ s. record s { tokens = s.tokens + 1 }) c

unfoldable pub take_token : ℕ → Sems → Sems
take_token p c = change_sem p (λ s. record s { tokens = s.tokens - 1 }) c

-- `unref`
unfoldable pub unref : Text → ℕ → Sems → Sems
unref k p c =
    let n = (c.heap p).refs - 1 in
    record c {
      table = if n == 0 then set_key k none c.table else c.table;
      heap = λ q. if p == q then record (c.heap q) { refs = (c.heap q).refs - 1 } else c.heap q;
    }

-- Where a fetch stands, with its key and its semaphore.
pub data Fetching : Type 0 where
  ready : Text → Fetching  -- before `acquire`
  waiting : Text → ℕ → Fetching  -- at its `select`
  holding : Text → ℕ → Fetching  -- with a token
  leaving : Text → ℕ → Fetching  -- before `unref`
  ended : Fetching

-- One step of one fetch, on channels of `cap` tokens.
pub data Move (cap : ℕ) (c : Sems) : Fetching → Sems → Fetching → Type 0 where
  joins : (k : Text) → Move cap c (ready k) (join k c).1 (waiting k (join k c).0)
  takes :
      (k : Text) (p : ℕ)
      → (c.heap p).tokens < cap
      → Move cap c (waiting k p) (put_token p c) (holding k p)
  releases : (k : Text) (p : ℕ) → Move cap c (holding k p) (take_token p c) (leaving k p)
  leaves : (k : Text) (p : ℕ) → Move cap c (leaving k p) (unref k p c) ended
  cancels : (k : Text) (p : ℕ) → Move cap c (waiting k p) c (leaving k p)

-- The client and its fetches.
pub record Fetches : Type 0 where
  pub sems : Sems
  pub threads : List Fetching

-- Some fetch moves.
pub data Step (cap : ℕ) : Fetches → Fetches → Type 0 where
  moves :
      {c d : Sems} {t u : Fetching} (xs ys : List Fetching)
      → Move cap c t d u
      → Step cap
          (record { sems = c; threads = xs ++ (t ∷ ys) })
          (record { sems = d; threads = xs ++ (u ∷ ys) })

pub data Reach (cap : ℕ) (s : Fetches) : Fetches → Type 0 where
  here : Reach cap s s
  later : {t u : Fetches} → Reach cap s t → Step cap t u → Reach cap s u

-- A client as `New` makes it, and fetches that have not begun.
abbrev pub no_sems : Sems
no_sems = record { table = λ k. none; heap = λ p. record { tokens = 0; refs = 0 }; next = 0 }

abbrev pub all_ready : List Text → List Fetching
all_ready [] = []
all_ready (k ∷ ks) = ready k ∷ all_ready ks

abbrev pub begun : List Text → Fetches
begun ks = record { sems = no_sems; threads = all_ready ks }
