-- ===== src/Cycle/Keys.antt =====
-- What the parsing of a stage timestamp accepts, and that a cycle key tells occurrences apart.
use judah.Prelude.{
  ℕ, ◌*◌, ◌≤◌, ◌<◌, ◌≡◌, refl, ◌↔◌, false, [], ◌∷◌, ◌++◌, Text, any, ◌==◌, ℤ, pos, negsuc, Result,
  ok, err, arith,
}
use judah.Cycle.Identity.{
  StageValue, milliseconds_of, parse_stage_entry_timestamp, min_stage_entry_ms, max_stage_entry_ms,
  canonical, build_cycle_key, source_system_hubspot,
}

-- A stage value is accepted exactly when it reads as a whole number of milliseconds from
-- 2000-01-01 up to, and not including, 2100-01-01; the instant is that many milliseconds.
pub parse_stage_entry_timestamp_iff :
    (value : StageValue) (t : ℕ)
    → (parse_stage_entry_timestamp value ≡ ok t) ↔ (
        (ms : ℕ) × (milliseconds_of value ≡ ok (pos ms))
        × (min_stage_entry_ms ≤ ms)
        × (ms < max_stage_entry_ms)
        × (t ≡ ms * 1000))
unfolding parse_stage_entry_timestamp
parse_stage_entry_timestamp_iff value t = (accepted (milliseconds_of value) refl, λ h. ground arith)
  where
    accepted :
        (r : Result _ ℤ)
        → milliseconds_of value ≡ r
        → parse_stage_entry_timestamp value ≡ ok t
        → (ms : ℕ) × (milliseconds_of value ≡ ok (pos ms))
          × (min_stage_entry_ms ≤ ms)
          × (ms < max_stage_entry_ms)
          × (t ≡ ms * 1000)
    accepted (ok (pos ms)) e h = (ms, e, ground arith, ground arith, ground arith)
    accepted (ok (negsuc n)) e h = absurd (ground arith)
    accepted (err x) e h = absurd (ground arith)

-- A text is split at its first bar in one way only.
split_at_bar :
    (s t u v : Text)
    → any (λ c. c == b'|') s ≡ false
    → any (λ c. c == b'|') t ≡ false
    → s ++ b'|' ∷ u ≡ t ++ b'|' ∷ v
    → (s ≡ t) × (u ≡ v)
split_at_bar [] [] u v p q e = ground arith
split_at_bar [] (c ∷ t) u v p q e = absurd (ground arith)
split_at_bar (c ∷ s) [] u v p q e = absurd (ground arith)
split_at_bar (c ∷ s) (d ∷ t) u v p q e = ground (arith, split_at_bar s t u v)

module _ (sha256 : Text → Text) (isoformat : ℕ → Text) where
  -- Two HubSpot occurrences have one cycle key only if account, ticket and instant all agree. The
  -- accounts and tickets hold no bar, the digest does not collide on the two canonical texts, and
  -- the ISO format tells the two instants apart.
  pub build_cycle_key-injective :
      (account account' ticket ticket' : Text) (entered entered' : ℕ)
      → any (λ c. c == b'|') account ≡ false
      → any (λ c. c == b'|') account' ≡ false
      → any (λ c. c == b'|') ticket ≡ false
      → any (λ c. c == b'|') ticket' ≡ false
      → (let c = canonical sha256 isoformat source_system_hubspot account ticket entered in
          let c' = canonical sha256 isoformat source_system_hubspot account' ticket' entered' in
          sha256 c ≡ sha256 c' → c ≡ c')
      → (isoformat entered ≡ isoformat entered' → entered ≡ entered')
      → build_cycle_key sha256 isoformat source_system_hubspot account ticket entered
        ≡ build_cycle_key sha256 isoformat source_system_hubspot account' ticket' entered'
      → (account ≡ account') × (ticket ≡ ticket') × (entered ≡ entered')
  unfolding build_cycle_key
  build_cycle_key-injective account account' ticket ticket' entered entered' a a' b b' digest iso
        e =
      let same = digest (ground arith) in
      let (_, rest) = split_at_bar source_system_hubspot source_system_hubspot _ _ refl refl same in
      let (accounts, rest') = split_at_bar account account' _ _ a a' rest in
      let (tickets, instants) = split_at_bar ticket ticket' _ _ b b' rest' in
      (accounts, tickets, iso instants)
