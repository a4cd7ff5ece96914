-- ===== src/PoolHealth/Backoff.antt =====
-- `backoffFor`: the delay before a quarantined member is probed again.
use Prim.Native.Nat.{min}
use Prim.Native.Nat.pow
use native.Mathlib.Nat.{pow-suc}
use sing_box_webui.Prelude.{
  ℕ, zero, suc, ◌-◌, ◌*◌, ◌/◌, ◌%◌, ◌^◌, ◌≤◌, ◌≡◌, true, inl, inr, arith, leb, Bool-cases,
  if◌then◌else◌,
}
use sing_box_webui.Prelude.Int.{
  ℤ, pos, negsuc, ◌*ℤ◌, leb_ℤ, ltb_ℤ, ◌≤ℤ◌, quot_ℤ, wrap_i64, quot_ℤ-pos, *ℤ-pos, wrap_i64-pos,
}
use sing_box_webui.PoolHealth.Model.{second, initial_backoff}

-- `for range exponent` over the rounds that are left; `delay *= 2` wraps as an int64 does.
backoff_loop : ℕ → ℤ → ℤ → ℤ
backoff_loop zero delay maximum = if ltb_ℤ maximum delay then maximum else delay
backoff_loop (suc rounds) delay maximum =
    let rest = backoff_loop rounds (wrap_i64 (delay *ℤ pos 2)) maximum in
    if leb_ℤ (quot_ℤ maximum 2) delay then maximum else rest

-- The rounds of `for range exponent`: none where it is negative.
abbrev pub rounds_of : ℤ → ℕ
rounds_of (pos n) = n
rounds_of (negsuc n) = 0

unfoldable pub backoff_for : ℤ → ℤ → ℤ
unfolding backoff_loop
backoff_for exponent maximum = backoff_loop (rounds_of exponent) initial_backoff maximum

-- Under an int64 maximum no doubling wraps, so the loop is one on natural numbers.
backoff_loop-suc :
    (n d m : ℕ)
    → m ≤ 2 ^ 63 - 1
    → backoff_loop (suc n) (pos d) (pos m)
      ≡ (if leb (m / 2) d then pos m else backoff_loop n (pos (d * 2)) (pos m))
unfolding backoff_loop
backoff_loop-suc n d m h =
    rw (quot_ℤ-pos m 2, *ℤ-pos d 2)
      (elim (Bool-cases (leb (m / 2) d)) [
        | inl e ↦ rw e
        | inr e ↦ rw (e, wrap_i64-pos (d * 2) (ground arith))
      ])

pub double-pow : (d n : ℕ) → d * 2 ^ suc n ≡ d * 2 * 2 ^ n
double-pow d n = rw (pow-suc) (grind arith)

pub pow2_pos : (n : ℕ) → 1 ≤ 2 ^ n
pow2_pos zero = omega arith
pow2_pos (suc n) = rw (pow-suc) (omega (arith, pow2_pos n))

-- The loop's early return: half of an even maximum reached means that the maximum is passed.
double_below : (d n m : ℕ) → m % 2 ≡ 0 → leb (m / 2) d ≡ true → m ≤ d * 2 * 2 ^ n
double_below d n m e h = grind (arith, pow2_pos n)

backoff_loop_closed :
    (n d m : ℕ)
    → m ≤ 2 ^ 63 - 1
    → m % 2 ≡ 0
    → backoff_loop n (pos d) (pos m) ≡ pos (min m (d * 2 ^ n))
unfolding backoff_loop
backoff_loop_closed zero d m h e = rw (pow.zero 2) (ground arith)
backoff_loop_closed (suc n) d m h e =
    rw (backoff_loop-suc n d m h, backoff_loop_closed n (d * 2) m h e, double-pow d n)
      (ground (arith, double_below d n m e))

-- The delay is fifteen seconds doubled once for each failure past the threshold, capped at the
-- maximum, for every maximum that is an even number of nanoseconds and fits an int64.
pub backoff_for_closed :
    (n m : ℕ)
    → m ≤ 2 ^ 63 - 1
    → m % 2 ≡ 0
    → backoff_for (pos n) (pos m) ≡ pos (min m (15 * second * 2 ^ n))
unfolding backoff_for
backoff_for_closed n m h e = backoff_loop_closed n (15 * second) m h e

-- Whatever the exponent, the delay lies between the initial delay and the maximum, where the
-- maximum is at least the initial delay and fits an int64.
backoff_loop_bounds :
    (n d m : ℕ)
    → m ≤ 2 ^ 63 - 1
    → 15 * second ≤ d
    → 15 * second ≤ m
    → (pos (15 * second) ≤ℤ backoff_loop n (pos d) (pos m))
      × (backoff_loop n (pos d) (pos m) ≤ℤ pos m)
unfolding backoff_loop
backoff_loop_bounds zero d m h b c = ground arith
backoff_loop_bounds (suc n) d m h b c =
    rw (backoff_loop-suc n d m h) (elim (Bool-cases (leb (m / 2) d)) [
      | inl e ↦ rw e (omega arith, omega arith)
      | inr e ↦ rw e (backoff_loop_bounds n (d * 2) m h (omega arith) c)
    ])

-- For every failure count, and every maximum of at least fifteen seconds that fits an int64, the delay
-- is at least fifteen seconds and at most the maximum.
pub backoff_for_bounds :
    (e : ℤ) (m : ℕ)
    → m ≤ 2 ^ 63 - 1
    → 15 * second ≤ m
    → (initial_backoff ≤ℤ backoff_for e (pos m)) × (backoff_for e (pos m) ≤ℤ pos m)
unfolding backoff_for
backoff_for_bounds e m h c = backoff_loop_bounds (rounds_of e) (15 * second) m h (omega arith) c
