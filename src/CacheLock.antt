-- ===== src/CacheLock.antt =====
-- apps/support/owned_cache_lock.py: a lock in Redis that only its owner's token releases, where the
-- cache is backed by Redis (the local-memory path serves isolated unit tests). Redis is a parameter:
-- one key, read at an instant, over any type of contents.
pub mod Exclusion
mod Tests
use judah.Prelude.{
  ℕ, ◌+◌, ◌≤◌, ◌<◌, ◌≡◌, Bool, true, false, Option, none, some, List, [], ◌∷◌, ◌==◌, if◌then◌else◌,
}

-- The commands that the lock sends: `GET`, `SET … NX EX` and `DEL`, with the instants that they run at.
pub record Redis (C : Type 0) : Type 0 where
  pub get : ℕ → C → Option ℕ
  pub set_nx_ex : ℕ → ℕ → ℕ → C → Bool × C
  pub del : C → C

-- What the documentation of `SET … NX EX` says.
pub record IsExpiring {C : Type 0} (r : Redis C) : Type 0 where
  pub sets :
      (now token timeout : ℕ) (c : C)
      → r.get now c ≡ none
      → (r.set_nx_ex now token timeout c).0 ≡ true
  pub keeps :
      (now token timeout later : ℕ) (c : C)
      → r.get now c ≡ none
      → now ≤ later
      → later < now + timeout
      → r.get later (r.set_nx_ex now token timeout c).1 ≡ some token
  pub refuses :
      (now token timeout other : ℕ) (c : C)
      → r.get now c ≡ some other
      → r.set_nx_ex now token timeout c ≡ (false, c)

-- `OwnedCacheLock` on one key
pub record Lock : Type 0 where
  pub token : ℕ
  pub timeout : ℕ
  pub acquired : Bool

abbrev pub holds : ℕ → Option ℕ → Bool
holds token none = false
holds token (some t) = t == token

module _ {C : Type 0} (r : Redis C) where
  unfoldable pub acquire : ℕ → Lock → C → Lock × C
  acquire now l c =
      let (done, c') = r.set_nx_ex now l.token l.timeout c in (record l { acquired = done }, c')

  -- `_COMPARE_DELETE`, which Redis runs as one step
  unfoldable pub compare_delete : ℕ → ℕ → C → Bool × C
  compare_delete now token c = if holds token (r.get now c) then (true, r.del c) else (false, c)

  -- Whether the key was deleted, the lock after it, and the contents.
  unfoldable pub release : ℕ → Lock → C → Bool × Lock × C
  release now l c =
      if l.acquired
      then (let (released, c') = compare_delete now l.token c in
          (released, record l { acquired = false }, c'))
      else (false, l, c)
