-- ===== src/Queue/Order.antt =====
-- The two orders of the agents are total.
use judah.Prelude.{◌≡◌, true, false, arith}
use judah.Queue.{Agent, before, ranks_before}

pub before_refl : (a : Agent) → before a a ≡ true
unfolding before
before_refl a = ground arith

pub before_total : (a b : Agent) → before a b ≡ false → before b a ≡ true
unfolding before
before_total a b h = ground arith

pub before_trans : (a b c : Agent) → before a b ≡ true → before b c ≡ true → before a c ≡ true
unfolding before
before_trans a b c h k = ground arith

pub ranks_before_refl : (a : Agent) → ranks_before a a ≡ true
unfolding ranks_before
ranks_before_refl a = ground arith

pub ranks_before_total : (a b : Agent) → ranks_before a b ≡ false → ranks_before b a ≡ true
unfolding ranks_before
ranks_before_total a b h = ground arith

pub ranks_before_trans :
    (a b c : Agent) → ranks_before a b ≡ true → ranks_before b c ≡ true → ranks_before a c ≡ true
unfolding ranks_before
ranks_before_trans a b c h k = ground arith
