-- ===== src/CacheLock/Exclusion.antt =====
-- One owner at a time until the lock expires.
use judah.Prelude.{
  ℕ, ◌+◌, ◌≤◌, ◌<◌, map, ◌≡◌, ◌≢◌, refl, Bool, true, false, none, some, List, [], ◌∷◌, All, arith,
  ◌==◌, Bool-cases, inl, inr,
}
use judah.CacheLock.{Redis, IsExpiring, Lock, acquire, compare_delete, release}

-- What another owner tries, and when
pub data Attempt : Type 0 where
  acquires : ℕ → Lock → Attempt
  releases : ℕ → Lock → Attempt

abbrev pub lock_of : Attempt → Lock
lock_of (acquires now l) = l
lock_of (releases now l) = l

abbrev pub time_of : Attempt → ℕ
time_of (acquires now l) = now
time_of (releases now l) = now

-- An attempt with another token from an instant to a deadline
abbrev pub IsRival : ℕ → ℕ → ℕ → Attempt → Type 0
IsRival token since deadline a =
    ((lock_of a).token ≢ token) × (since ≤ time_of a) × (time_of a < deadline)

module _ {C : Type 0} (r : Redis C) where
  -- Whether the attempt succeeded, and the contents after it.
  unfoldable pub attempt : Attempt → C → Bool × C
  attempt (acquires now l) c = let (l', c') = acquire r now l c in (l'.acquired, c')
  attempt (releases now l) c = let (done, l', c') = release r now l c in (done, c')

  -- Attempts in order: their answers, and the contents at the end.
  pub contend : List Attempt → C → List Bool × C
  contend [] c = ([], c)
  contend (a ∷ as') c =
      let (done, c') = attempt a c in let (rest, end) = contend as' c' in (done ∷ rest, end)

  rival_fails :
      (a : Attempt) (token : ℕ) (c : C)
      → IsExpiring r
      → (lock_of a).token ≢ token
      → r.get (time_of a) c ≡ some token
      → attempt a c ≡ (false, c)
  unfolding attempt acquire release compare_delete
  rival_fails (acquires now l) token c ex v h = rw (ex.refuses now l.token l.timeout token c h) refl
  rival_fails (releases now l) token c ex v h = elim (Bool-cases l.acquired) [
    | inl t ↦ let other : (token == l.token) ≡ false = ground arith in rw (t, h, other) refl
    | inr f ↦ rw f refl
  ]

  contend-fails :
      (rivals : List Attempt) (token since deadline : ℕ) (c : C)
      → IsExpiring r
      → ((t : ℕ) → since ≤ t → t < deadline → r.get t c ≡ some token)
      → All (IsRival token since deadline) rivals
      → contend rivals c ≡ (map (λ a. false) rivals, c)
  unfolding contend
  contend-fails [] token since deadline c ex h v = refl
  contend-fails (a ∷ as') token since deadline c ex h v =
      rw
        (
          rival_fails a token c ex v.0.0 (h (time_of a) v.0.1 v.0.2),
          contend-fails as' token since deadline c ex h v.1,
        )
        refl

  -- Where Redis expires a key no earlier than it was told to, the lock of a free key is acquired; until
  -- it expires every attempt of others to acquire or release the key fails and leaves it as it is,
  -- in any order; and its owner's release, in that time, deletes the key and gives the lock up.
  pub acquire-excludes :
      (now later : ℕ) (l : Lock) (c : C) (rivals : List Attempt)
      → IsExpiring r
      → r.get now c ≡ none
      → now ≤ later
      → later < now + l.timeout
      → All (IsRival l.token now (now + l.timeout)) rivals
      → let (mine, held) = acquire r now l c in
        (mine.acquired ≡ true)
        × (contend rivals held ≡ (map (λ a. false) rivals, held))
        × (release r later mine held ≡ (true, record mine { acquired = false }, r.del held))
  unfolding acquire release compare_delete
  acquire-excludes now later l c rivals ex free from until v =
      let held = (r.set_nx_ex now l.token l.timeout c).1 in
      let keeps : (t : ℕ) → now ≤ t → t < now + l.timeout → r.get t held ≡ some l.token =
        λ t p q. ex.keeps now l.token l.timeout t c free p q in
      let same : (l.token == l.token) ≡ true = ground arith in
      (
        ex.sets now l.token l.timeout c free,
        contend-fails rivals l.token now (now + l.timeout) held ex keeps v,
        rw (ex.sets now l.token l.timeout c free, keeps later from until, same) refl,
      )
