-- ===== src/Delivery/Sender/Backoff.antt =====
-- The delay before a retry.
use ssh_mobile.Base.{ℕ, zero, suc, ◌-◌, ◌*◌, ◌^◌, ◌≤◌, ◌≡◌, true, min, arith}
use ssh_mobile.Delivery.Types.{RetryPolicy, is_valid_policy, delay_for_attempt, duration_max}

pow_mono : (m n : ℕ) → m ≤ n → 2 ^ m ≤ 2 ^ n
pow_mono zero zero h = omega arith
pow_mono zero (suc n) h = omega (arith, pow_mono zero n (omega arith))
pow_mono (suc m) zero h = absurd (omega arith)
pow_mono (suc m) (suc n) h = omega (arith, pow_mono m n (omega arith))

scaled : (c m n : ℕ) → m ≤ n → c * 2 ^ m ≤ c * 2 ^ n
scaled zero m n h = omega arith
scaled (suc c) m n h = omega (arith, scaled c m n h, pow_mono m n h)

grow : (c m : ℕ) → c ≤ c * 2 ^ m
grow zero m = omega arith
grow (suc c) m = omega (arith, grow c m, pow_mono 0 m (omega arith))

-- Under a valid policy whose backoff is a duration, each delay is between the initial and the
-- largest backoff, and a later attempt never waits less than an earlier one.
pub delay_for_attempt_mono :
    (r : RetryPolicy) (i j : ℕ)
    → is_valid_policy r ≡ true
    → r.initial_backoff ≤ duration_max
    → i ≤ j
    → (r.initial_backoff ≤ delay_for_attempt r i)
      × (delay_for_attempt r i ≤ delay_for_attempt r j)
      × (delay_for_attempt r j ≤ r.max_backoff)
unfolding is_valid_policy delay_for_attempt
delay_for_attempt_mono r i j valid fits le =
    let ordered : r.initial_backoff ≤ r.max_backoff = ground (arith) in
    let fit : r.initial_backoff ≤ r.initial_backoff * 2 ^ min (i - 1) 31 =
      grow r.initial_backoff (min (i - 1) 31) in
    let mono : r.initial_backoff * 2 ^ min (i - 1) 31 ≤ r.initial_backoff * 2 ^ min (j - 1) 31 =
      scaled r.initial_backoff (min (i - 1) 31) (min (j - 1) 31) (omega arith) in
    (omega arith, omega arith, omega arith)
