-- ===== src/Supervisor/Restarts/Ends.antt =====
-- A process that cannot be started again is given up, after at most `max_restarts` restarts.
use sing_box_webui.Prelude.{
  ℕ, zero, suc, ◌+◌, ◌-◌, ◌≤◌, String, ◌≡◌, refl, arith, true, false, List, [], ◌∷◌, none, leb, err,
}
use sing_box_webui.Supervisor.{
  failed, starting, Timer, Manager, finish, start_process, schedule_restart, restart_answered,
  restart,
}
use sing_box_webui.Supervisor.Restarts.{is_ready, restart_guard, same_self}

-- The newest pending restart, again and again, each time with a command that does not start.
pub fail_restarts : ℕ → ℕ → String → Manager → Manager
unfolding restart
fail_restarts zero now e m = m
fail_restarts (suc rounds) now e m = elim m.timers [
  | [] ↦ m
  | t ∷ ts ↦ fail_restarts rounds now e (restart t now (err e) (record m { timers = ts }))
]

-- One such restart
failed_once :
    (now : ℕ) (e : String) (m : Manager) (t : Timer) (ts : List Timer)
    → is_ready m t ≡ true
    → restart t now (err e) (record m { timers = ts })
      ≡ schedule_restart t.generation (record m { timers = ts; last_error = e })
unfolding restart restart_answered start_process
failed_once now e m t ts r = rw (restart_guard m t true r) refl

given_up :
    (g : ℕ) (m : Manager)
    → m.max_restarts ≤ m.restart_count
    → schedule_restart g m ≡ record m { state = failed; done = none }
unfolding schedule_restart finish
given_up g m h = let e : leb m.max_restarts m.restart_count ≡ true = ground arith in rw e refl

tried_again :
    (g : ℕ) (m : Manager)
    → m.restart_count + 1 ≤ m.max_restarts
    → schedule_restart g m ≡ record m {
      restart_count = m.restart_count + 1;
      state = starting;
      timers = record { generation = g; done = m.done } ∷ m.timers;
    }
unfolding schedule_restart
tried_again g m h = let e : leb m.max_restarts m.restart_count ≡ false = ground arith in rw e refl

fail_next :
    (k now : ℕ) (e : String) (m : Manager) (t : Timer) (ts : List Timer)
    → m.timers ≡ t ∷ ts
    → is_ready m t ≡ true
    → fail_restarts (suc k) now e m
      ≡ fail_restarts k now e
          (schedule_restart t.generation (record m { timers = ts; last_error = e }))
unfolding fail_restarts
fail_next k now e m t ts f r = rw (f, failed_once now e m t ts r) refl

still_ready :
    (m : Manager) (t : Timer) → is_ready m t ≡ true → is_ready m (record t { done = m.done }) ≡ true
unfolding is_ready
still_ready m t r = let d = same_self m.done in ground arith

end_of :
    (k now : ℕ) (e : String) (m : Manager) (t : Timer) (ts : List Timer)
    → m.max_restarts - m.restart_count ≡ k
    → m.timers ≡ t ∷ ts
    → is_ready m t ≡ true
    → ((fail_restarts (suc k) now e m).state ≡ failed)
      × ((fail_restarts (suc k) now e m).last_error ≡ e)
end_of zero now e m t ts c f r =
    rw
      (
        fail_next zero now e m t ts f r,
        given_up t.generation (record m { timers = ts; last_error = e }) (omega arith),
      )
      (unfold fail_restarts in (refl, refl))
end_of (suc k) now e m t ts c f r =
    let n : Manager = record m {
      last_error = e;
      restart_count = m.restart_count + 1;
      state = starting;
      timers = record { generation = t.generation; done = m.done } ∷ ts;
    } in
    rw
      (
        fail_next (suc k) now e m t ts f r,
        tried_again t.generation (record m { timers = ts; last_error = e }) (omega arith),
      )
      (end_of k now e n (record { generation = t.generation; done = m.done }) ts (omega arith) refl
        (unfold is_ready in still_ready m t r))

-- A manager whose newest pending restart is to start its process is failed, with the error of the
-- command, after the restarts that its policy has left and one more have found a command that does not
-- start: the restarts end.
pub failing_restarts_end :
    (now : ℕ) (e : String) (m : Manager) (t : Timer) (ts : List Timer)
    → m.timers ≡ t ∷ ts
    → is_ready m t ≡ true
    → let after = fail_restarts (suc (m.max_restarts - m.restart_count)) now e m in
      (after.state ≡ failed) × (after.last_error ≡ e)
failing_restarts_end now e m t ts f r =
    end_of (m.max_restarts - m.restart_count) now e m t ts refl f r
