-- ===== src/CacheLock/Tests.antt =====
-- A key that holds a token and its expiry, and the theorem there.
use judah.Prelude.{
  ℕ, ◌+◌, ◌≡◌, refl, Bool, true, false, Option, none, some, List, [], ◌∷◌, map, ltb, arith,
  if◌then◌else◌,
}
use judah.CacheLock.{Redis, IsExpiring, Lock, acquire, release}
use judah.CacheLock.Exclusion.{Attempt, acquires, releases, contend, acquire-excludes}

-- The token and the instant that it expires at
abbrev Key : Type 0
Key = Option (ℕ × ℕ)

abbrev read : ℕ → Key → Option ℕ
read now none = none
read now (some (token, expiry)) = if ltb now expiry then some token else none

abbrev put : ℕ → ℕ → ℕ → Key → Option ℕ → Bool × Key
put now token timeout k none = (true, some (token, now + timeout))
put now token timeout k (some t) = (false, k)

abbrev redis : Redis Key
redis = record {
  get = read;
  set_nx_ex = λ now token timeout k. put now token timeout k (read now k);
  del = λ k. none;
}

redis-IsExpiring : IsExpiring redis
redis-IsExpiring = record {
  sets = λ now token timeout k free. rw free refl;
  keeps = λ now token timeout later k free from until. rw free (ground arith);
  refuses = λ now token timeout other k h. rw h refl;
}

abbrev mine : Lock
mine = record { token = 1; timeout = 60; acquired = false }

abbrev theirs : Lock
theirs = record { token = 2; timeout = 60; acquired = true }

abbrev rivals : List Attempt
rivals = acquires 110 theirs ∷ releases 120 theirs ∷ []

acquire-excludes_example :
    let (after, held) = acquire redis 100 mine none in
    (after.acquired ≡ true)
    × (contend redis rivals held ≡ (map (λ a. false) rivals, held))
    × (release redis 130 after held ≡ (true, record after { acquired = false }, redis.del held))
acquire-excludes_example =
    acquire-excludes redis 100 130 mine none rivals redis-IsExpiring refl (omega arith)
      (omega arith)
      ((ground arith, omega arith, omega arith), ((ground arith, omega arith, omega arith), tt))
