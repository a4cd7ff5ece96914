-- ===== src/PoolHealth/Member/Runs.antt =====
-- Runs of results of one member: how many failures quarantine it, how many passes bring it back.
use sing_box_webui.Prelude.{
  ℕ, ◌+◌, ◌<◌, ◌≡◌, refl, List, [], ◌∷◌, ◌++◌, arith, ◌∙◌, ap, length, All, if◌then◌else◌,
  Bool-cases, inl, inr, true, false,
}
use sing_box_webui.Prelude.Int.{ℤ, pos, ◌<ℤ◌, ◌≤ℤ◌, leb_ℤ, ltb_ℤ, lt→ltb_ℤ}
use sing_box_webui.PoolHealth.Model.{
  healthy, degraded, quarantined, Status, Config, MemberState, ProbeResult,
}
use sing_box_webui.PoolHealth.Member.{is_partial, apply_result, apply_results}

abbrev pub Fails : ProbeResult × ℤ → Type 0
Fails (r, now) = r.successes ≡ 0

abbrev pub Passes : ProbeResult × ℤ → Type 0
Passes (r, now) = 0 < r.successes

abbrev pub status_after_failures : Config → ℤ → Status
status_after_failures config failures =
    if leb_ℤ config.consecutive_failures failures then quarantined else degraded

module _ (config : Config) where
  failure_lem :
      (m : MemberState) (r : ProbeResult) (now : ℤ)
      → r.successes ≡ 0
      → ((apply_result config m r now).failures ≡ m.failures + 1)
        × ((apply_result config m r now).status
            ≡ status_after_failures config (pos (m.failures + 1)))
  unfolding apply_result
  failure_lem m r now h =
      elim (Bool-cases (leb_ℤ config.consecutive_failures (pos (m.failures + 1)))) [
        | inl e ↦ rw (h, e) (refl, refl)
        | inr e ↦ rw (h, e) (refl, refl)
      ]

  -- After a run of failing results and nothing else, the member is quarantined if its failures have
  -- reached the threshold, and degraded if they have not.
  pub status_of_failures :
      (m : MemberState) (x : ProbeResult × ℤ) (xs : List (ProbeResult × ℤ))
      → All Fails (x ∷ xs)
      → (apply_results config m (x ∷ xs)).status
        ≡ status_after_failures config (pos (m.failures + length (x ∷ xs)))
  unfolding apply_results
  status_of_failures m (r, now) [] h = (failure_lem m r now h.0).1
  status_of_failures m (r, now) (y ∷ ys) h =
      status_of_failures (apply_result config m r now) y ys h.1
      ∙ ap (λ n. status_after_failures config (pos n)) (omega (arith, (failure_lem m r now h.0).0))

  held_lem :
      (m : MemberState) (r : ProbeResult) (now : ℤ)
      → 0 < r.successes
      → m.status ≡ quarantined
      → ltb_ℤ (pos (m.recovery_successes + 1)) config.recovery_successes ≡ true
      → ((apply_result config m r now).status ≡ quarantined)
        × ((apply_result config m r now).recovery_successes ≡ m.recovery_successes + 1)
  unfolding apply_result
  held_lem m r now h q e = ground arith

  released_lem :
      (m : MemberState) (r : ProbeResult) (now : ℤ)
      → 0 < r.successes
      → m.status ≡ quarantined
      → ltb_ℤ (pos (m.recovery_successes + 1)) config.recovery_successes ≡ false
      → ((apply_result config m r now).status ≡ (if is_partial config r then degraded else healthy))
        × ((apply_result config m r now).failures ≡ 0)
        × ((apply_result config m r now).recovery_successes ≡ 0)
  unfolding apply_result
  released_lem m r now h q e = ground arith

  abbrev status_after_passes : ℕ → ProbeResult → Status
  status_after_passes n r =
      if ltb_ℤ (pos n) config.recovery_successes
      then quarantined
      else if is_partial config r
      then degraded
      else healthy

  pass_lem :
      (m : MemberState) (r : ProbeResult) (now : ℤ)
      → 0 < r.successes
      → m.status ≡ quarantined
      → (apply_result config m r now).status ≡ status_after_passes (m.recovery_successes + 1) r
  pass_lem m r now h q =
      elim (Bool-cases (ltb_ℤ (pos (m.recovery_successes + 1)) config.recovery_successes)) [
        | inl e ↦ rw e (held_lem m r now h q e).0
        | inr e ↦ rw e (released_lem m r now h q e).0
      ]

  recovery_run :
      (m : MemberState) (xs : List (ProbeResult × ℤ)) (r : ProbeResult) (now : ℤ) (n : ℕ)
      → m.status ≡ quarantined
      → All Passes xs
      → 0 < r.successes
      → m.recovery_successes + length xs + 1 ≡ n
      → pos n ≤ℤ config.recovery_successes
      → (apply_results config m (xs ++ (r, now) ∷ [])).status ≡ status_after_passes n r
  unfolding apply_results
  recovery_run m [] r now n q h p e l =
      pass_lem m r now p q ∙ ap (λ k. status_after_passes k r) (omega arith)
  recovery_run m ((x, t) ∷ xs) r now n q h p e l =
      let held =
        held_lem m x t h.0 q
          (lt→ltb_ℤ (pos (m.recovery_successes + 1)) config.recovery_successes (omega arith)) in
      recovery_run (apply_result config m x t) xs r now n held.0 h.1 p (omega (arith, held.1)) l

  -- A quarantined member stays so through a run of passing results that is shorter than the number
  -- of successes asked for, and leaves quarantine, with what the last result says of it, at the
  -- result that completes that number.
  pub recovery_exact :
      (m : MemberState) (xs : List (ProbeResult × ℤ)) (r : ProbeResult) (now : ℤ)
      → m.status ≡ quarantined
      → All Passes xs
      → 0 < r.successes
      → pos (m.recovery_successes + length xs) <ℤ config.recovery_successes
      → (apply_results config m (xs ++ (r, now) ∷ [])).status ≡ (
          if ltb_ℤ (pos (m.recovery_successes + length xs + 1)) config.recovery_successes
          then quarantined
          else if is_partial config r
          then degraded
          else healthy)
  recovery_exact m xs r now q h p l =
      recovery_run m xs r now (m.recovery_successes + length xs + 1) q h p refl (omega arith)
