-- ===== src/Supervisor/Delay.antt =====
-- `restartDelayLocked` and `jitter20Percent`: how long the manager waits before a restart. `draw`
-- stands for `rand.Int64N`, which answers a number below the one it is given.
use Prim.Native.Nat.{min}
use Prim.Native.Nat.pow
use native.Mathlib.Nat.{pow-suc}
use sing_box_webui.Prelude.{
  ℕ, zero, suc, ◌+◌, ◌-◌, ◌*◌, ◌/◌, ◌^◌, ◌≤◌, ◌<◌, ◌≡◌, refl, ap, true, false, inl, inr, arith, leb,
  ltb, Bool-cases, Option, none, some, if◌then◌else◌,
}
use sing_box_webui.Prelude.Int.{
  ℤ, pos, pos_part, ◌*ℤ◌, ◌+ℤ◌, ◌-ℤ◌, ◌≤ℤ◌, leb_ℤ, ltb_ℤ, quot_ℤ, wrap_i64, quot_ℤ-pos, *ℤ-pos,
  +ℤ-pos, wrap_i64-pos,
}
use sing_box_webui.PoolHealth.Backoff.{double-pow}

-- The loop of `restartDelayLocked`, over the attempts that are left
doubled : ℕ → ℤ → ℤ → ℤ
doubled zero delay max_delay = delay
doubled (suc attempts) delay max_delay =
    let twice = wrap_i64 (delay *ℤ pos 2) in
    let rest = doubled attempts (if ltb_ℤ max_delay twice then max_delay else twice) max_delay in
    if ltb_ℤ delay max_delay then rest else delay

pub jitter20_percent : (ℕ → ℕ) → ℤ → ℤ
jitter20_percent draw delay =
    let span = quot_ℤ delay 5 in
    if leb_ℤ span (pos 0)
    then delay
    else wrap_i64 (
        wrap_i64 (delay -ℤ span)
        +ℤ pos (draw (pos_part (wrap_i64 (wrap_i64 (pos 2 *ℤ span) +ℤ pos 1)))))

jittered : Option (ℤ → ℤ) → ℤ → ℤ
jittered none delay = delay
jittered (some jitter) delay = jitter delay

-- restartDelayLocked, of the policy's initial and greatest delay, its jitter, and the restart count
pub restart_delay : ℤ → ℤ → Option (ℤ → ℤ) → ℕ → ℤ
unfolding doubled jittered
restart_delay initial_delay max_delay jitter restart_count =
    jittered jitter (doubled restart_count initial_delay max_delay)

doubled-suc :
    (n d m : ℕ)
    → m ≤ 2 ^ 62
    → d < m
    → doubled (suc n) (pos d) (pos m) ≡ doubled n (pos (min m (d * 2))) (pos m)
unfolding doubled
doubled-suc n d m h k =
    let e : ltb d m ≡ true = ground arith in
    rw (*ℤ-pos d 2, wrap_i64-pos (d * 2) (omega arith), e)
      (elim (Bool-cases (ltb m (d * 2))) [
        | inl f ↦ let g : min m (d * 2) ≡ m = ground arith in rw (f, g) refl
        | inr f ↦ let g : min m (d * 2) ≡ d * 2 = ground arith in rw (f, g) refl
      ])

doubled_full : (n m : ℕ) → doubled n (pos m) (pos m) ≡ pos m
unfolding doubled
doubled_full zero m = refl
doubled_full (suc n) m = let e : ltb m m ≡ false = ground arith in rw e refl

grown : (d n : ℕ) → d ≤ d * 2 ^ n
grown d zero = rw (pow.zero 2) (omega arith)
grown d (suc n) = let h = grown d n in rw (pow-suc) (grind (arith, h))

min-min : (d n m : ℕ) → min m (min m (d * 2) * 2 ^ n) ≡ min m (d * 2 * 2 ^ n)
min-min d n m =
    let g = grown (d * 2) n in
    let h = grown m n in
    elim (Bool-cases (leb m (d * 2))) [
      | inl e ↦ let k : min m (d * 2) ≡ m = ground arith in rw k (omega (arith, g, h))
      | inr e ↦ let k : min m (d * 2) ≡ d * 2 = ground arith in rw k refl
    ]

full_min : (d n m : ℕ) → m ≤ d → d ≤ m → pos d ≡ pos (min m (d * 2 ^ n))
full_min d n m h k = let g = grown d n in ap pos (omega (arith, g))

-- Without a jitter, the delay is the initial one doubled once for each restart, and at most the greatest.
doubled_closed :
    (n d m : ℕ) → m ≤ 2 ^ 62 → d ≤ m → doubled n (pos d) (pos m) ≡ pos (min m (d * 2 ^ n))
doubled_closed zero d m h k = unfold doubled in rw (pow.zero 2) (ground arith)
doubled_closed (suc n) d m h k = elim (Bool-cases (ltb d m)) [
  | inl f ↦
      rw
        (
          doubled-suc n d m h (ground arith),
          doubled_closed n (min m (d * 2)) m h (ground arith),
          double-pow d n,
        )
        (ap pos (min-min d n m))
  | inr f ↦
      let e : d ≡ m = ground arith in
      rw (e, doubled_full (suc n) m) (full_min m (suc n) m (omega arith) (omega arith))
]

-ℤ-pos : (m n : ℕ) → n ≤ m → pos m -ℤ pos n ≡ pos (m - n)
unfolding ◌-ℤ◌
-ℤ-pos m n h = ground arith

-- A delay of less than five nanoseconds has no jitter; any other moves by at most a fifth.
jitter20_percent-pos :
    (draw : ℕ → ℕ) (d : ℕ)
    → d ≤ 2 ^ 62
    → ((n : ℕ) → 1 ≤ n → draw n < n)
    → jitter20_percent draw (pos d)
      ≡ pos (if leb (d / 5) 0 then d else d - d / 5 + draw (2 * (d / 5) + 1))
unfolding jitter20_percent
jitter20_percent-pos draw d h k =
    let r = k (2 * (d / 5) + 1) (omega arith) in
    rw
      (
        quot_ℤ-pos d 5,
        -ℤ-pos d (d / 5) (omega arith),
        wrap_i64-pos (d - d / 5) (omega arith),
        *ℤ-pos 2 (d / 5),
        wrap_i64-pos (2 * (d / 5)) (omega arith),
        +ℤ-pos (2 * (d / 5)) 1,
        wrap_i64-pos (2 * (d / 5) + 1) (omega arith),
        +ℤ-pos (d - d / 5) (draw (2 * (d / 5) + 1)),
        wrap_i64-pos (d - d / 5 + draw (2 * (d / 5) + 1)) (omega arith),
      )
      (elim (Bool-cases (leb (d / 5) 0)) [ inl e ↦ rw e refl | inr e ↦ rw e refl ])

-- Where the initial delay is at most the greatest delay, the greatest is at most 2^62 nanoseconds and
-- every draw answers below its bound, the delay before a restart, with the jitter of a fifth, is within
-- a fifth of the initial delay doubled once for each restart so far, capped at the greatest delay.
pub restart_delay_bounds :
    (draw : ℕ → ℕ) (restart_count d m : ℕ)
    → m ≤ 2 ^ 62
    → d ≤ m
    → ((n : ℕ) → 1 ≤ n → draw n < n)
    → let base = min m (d * 2 ^ restart_count) in
      let delay = restart_delay (pos d) (pos m) (some (jitter20_percent draw)) restart_count in
      (pos (base - base / 5) ≤ℤ delay) × (delay ≤ℤ pos (base + base / 5))
unfolding restart_delay jittered
restart_delay_bounds draw c d m h k r =
    let base = min m (d * 2 ^ c) in
    let b = r (2 * (base / 5) + 1) (omega arith) in
    rw (doubled_closed c d m h k, jitter20_percent-pos draw base (omega arith) r) (ground arith)
