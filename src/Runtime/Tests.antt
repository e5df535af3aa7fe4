-- ===== src/Runtime/Tests.antt =====
-- A production runtime with a canary of one agent, and the theorem there.
use judah.Prelude.{
  ◌≡◌, refl, true, Option, some, [], ◌∷◌, Text, codes, strip, strip_left, strip_right, is_space,
}
use judah.Runtime.{
  Runtime, not_enforced, is_authoritative, configured_canary_values, distinct, canary_agent_ids,
  valid_ids, assignment_gate_rejection_reason, may_assign,
}
use judah.Runtime.Gate.{IsCleared, may_assign-IsCleared}

abbrev production : Runtime
production = record {
  django_environment = codes "production";
  railway_environment = [];
  authority = codes "production";
  auto_assignment_enabled = true;
  provider = not_enforced;
  canary_values = codes " a1 " ∷ [] ∷ codes "a1" ∷ [];
  eligibility_shadow = true;
  eligibility_enforced = true;
}

-- Every text reads as an agent.
abbrev uuid : Text → Option Text
uuid v = some v

abbrev normal : Text → Text
normal v = v

may_assign_now : may_assign uuid normal production ≡ true
unfolding may_assign is_authoritative assignment_gate_rejection_reason configured_canary_values
    canary_agent_ids valid_ids distinct strip strip_left strip_right is_space
may_assign_now = refl

may_assign-IsCleared_example : IsCleared uuid normal production
may_assign-IsCleared_example = may_assign-IsCleared uuid normal production may_assign_now
