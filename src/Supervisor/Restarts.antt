-- ===== src/Supervisor/Restarts.antt =====
-- A manager that waits to start its process again can do so: the restart that it waits for is pending.
pub mod Ends
use sing_box_webui.Prelude.{
  ℕ, ◌+◌, ◌-◌, ◌%◌, ◌^◌, ◌≤◌, String, ◌≡◌, refl, sym, subst, ap, ◌∙◌, arith, Bool, true, false, not,
  ◌||◌, ◌&&◌, List, [], ◌∷◌, ◌++◌, Option, none, some, leb, ◌==◌, ==_iff, if◌then◌else◌, Bool-cases,
  inl, inr, Result, ok, err,
}
use sing_box_webui.Supervisor.{
  State, stopped, starting, running, stopping, failed, Waiter, Timer, Manager, same_channel, finish,
  start_process, schedule_restart, start_answered, is_busy, start, stop_command, stop_from, stop,
  wait_ended, wait, restart_answered, restart, Step, starts, stops, exits, fires, Reaches, here,
  there, new_manager,
}

-- The timer's goroutine would start the process.
unfoldable pub is_ready : Manager → Timer → Bool
is_ready m t = (t.generation == m.generation) && (not m.stop_wanted && same_channel m.done t.done)

any_ready : Manager → List Timer → Bool
unfolding is_ready
any_ready m [] = false
any_ready m (t ∷ ts) = is_ready m t || any_ready m ts

abbrev is_starting : State → Bool
is_starting starting = true
is_starting stopped = false
is_starting running = false
is_starting stopping = false
is_starting failed = false

-- A manager that is starting has a restart pending.
pub IsLive : Manager → Type 0
unfolding any_ready
IsLive m = (not (is_starting m.state) || any_ready m m.timers) ≡ true

pub same_self : (d : Option ℕ) → same_channel d d ≡ true
unfolding same_channel
same_self none = refl
same_self (some n) = (==_iff n n).1 refl

schedule-IsLive :
    (g : ℕ) (m : Manager)
    → (g == m.generation) ≡ true
    → m.stop_wanted ≡ false
    → IsLive (schedule_restart g m)
unfolding schedule_restart finish IsLive any_ready is_ready
schedule-IsLive g m e s =
    let d = same_self m.done in
    elim (Bool-cases (leb m.max_restarts m.restart_count)) [
      | inl f ↦ rw f refl
      | inr f ↦ rw (f, e, s, d) refl
    ]

answered-IsLive :
    (now : ℕ) (spawned : Result String ℕ) (g : ℕ) (m : Manager)
    → IsLive (start_answered (start_process now spawned g m))
unfolding start_answered start_process finish IsLive
answered-IsLive now (ok pid) g m = refl
answered-IsLive now (err e) g m = refl

start-IsLive :
    (now : ℕ) (spawned : Result String ℕ) (m : Manager) → IsLive m → IsLive (start now spawned m)
unfolding start
start-IsLive now spawned m h = elim (Bool-cases (is_busy m.state)) [
  | inl e ↦ rw e h
  | inr e ↦ rw e (answered-IsLive now spawned ((m.generation + 1) % 2 ^ 64) _)
]

command-IsLive : (m : Manager) (c : Option ℕ) → IsLive (stop_command m c)
unfolding stop_command finish IsLive
command-IsLive m none = refl
command-IsLive m (some pid) = refl

stop_from-IsLive : (s : State) (m : Manager) → IsLive m → IsLive (stop_from s m)
unfolding stop_from
stop_from-IsLive stopped m h = h
stop_from-IsLive starting m h = command-IsLive m m.command
stop_from-IsLive running m h = command-IsLive m m.command
stop_from-IsLive stopping m h = command-IsLive m m.command
stop_from-IsLive failed m h = command-IsLive m m.command

ended-IsLive :
    (now : ℕ) (error : String) (m : Manager) (b : Bool)
    → m.stop_wanted ≡ b
    → IsLive (wait_ended now error m b)
unfolding wait_ended
ended-IsLive now error m true e = unfold finish IsLive in refl
ended-IsLive now error m false e =
    schedule-IsLive m.generation
      (record m {
        command = none;
        pid = 0;
        last_error = error;
        restart_count =
            if leb m.stable_window (now - m.process_started) then 0 else m.restart_count;
      })
      ((==_iff m.generation m.generation).1 refl) e

wait-IsLive :
    (w : Waiter) (now : ℕ) (error : String) (m : Manager) → IsLive m → IsLive (wait w now error m)
unfolding wait
wait-IsLive w now error m h = elim (Bool-cases (w.generation == m.generation)) [
  | inl e ↦ rw e (ended-IsLive now error m m.stop_wanted refl)
  | inr e ↦ rw e h
]

ready-append :
    (m : Manager) (xs ys : List Timer) → any_ready m (xs ++ ys) ≡ (any_ready m xs || any_ready m ys)
unfolding any_ready
ready-append m [] ys = refl
ready-append m (x ∷ xs) ys = let h = ready-append m xs ys in ground arith

-- A timer that is not ready may go.
unready :
    (m : Manager) (t : Timer) (xs ys : List Timer)
    → is_ready m t ≡ false
    → any_ready m (xs ++ t ∷ ys) ≡ any_ready m (xs ++ ys)
unready m t xs ys h =
    let a = ready-append m xs (t ∷ ys) in
    let b = ready-append m xs ys in unfold any_ready in ground arith

restarted-IsLive :
    (now g : ℕ) (spawned : Result String ℕ) (m : Manager)
    → (g == m.generation) ≡ true
    → m.stop_wanted ≡ false
    → IsLive (restart_answered g (start_process now spawned g m))
unfolding restart_answered start_process
restarted-IsLive now g (ok pid) m e s = unfold IsLive in refl
restarted-IsLive now g (err x) m e s = schedule-IsLive g (record m { last_error = x }) e s

-- What `restart` tests is that the timer is not ready.
pub restart_guard :
    (m : Manager) (t : Timer) (b : Bool)
    → is_ready m t ≡ b
    → (not (t.generation == m.generation) || (m.stop_wanted || not (same_channel m.done t.done)))
      ≡ not b
unfolding is_ready
restart_guard m t b e = ground arith

restart-IsLive :
    (t : Timer) (before after : List Timer) (now : ℕ) (spawned : Result String ℕ) (m : Manager)
    → m.timers ≡ before ++ t ∷ after
    → IsLive m
    → IsLive (restart t now spawned (record m { timers = before ++ after }))
unfolding restart
restart-IsLive t before after now spawned m e h = elim (Bool-cases (is_ready m t)) [
  | inl r ↦ rw (restart_guard m t true r) (
      restarted-IsLive now t.generation spawned (record m { timers = before ++ after })
        (unfold is_ready in ground arith) (unfold is_ready in ground arith))
  | inr r ↦ rw (restart_guard m t false r) (
      unfold IsLive in
      let u = unready m t before after r in
      let k = subst (λ ts. (not (is_starting m.state) || any_ready m ts) ≡ true) e h in
      subst (λ b. (not (is_starting m.state) || b) ≡ true) u k)
]

Step-IsLive : {m n : Manager} → Step m n → IsLive m → IsLive n
unfolding IsLive
Step-IsLive (starts now spawned m) h = start-IsLive now spawned m h
Step-IsLive (stops m) h = unfold stop in stop_from-IsLive m.state m h
Step-IsLive (exits w before after now error m e) h =
    wait-IsLive w now error (record m { waiters = before ++ after }) h
Step-IsLive (fires t before after now spawned m e) h =
    restart-IsLive t before after now spawned m e h

reached-IsLive : {m n : Manager} → Reaches m n → IsLive m → IsLive n
reached-IsLive (here m) h = h
reached-IsLive (there m n o s r) h = reached-IsLive r (Step-IsLive s h)

-- A timer that is ready, and those before and after it
record Ready (m : Manager) (ts : List Timer) : Type 0 where
  timer : Timer
  before : List Timer
  after : List Timer
  among : ts ≡ before ++ timer ∷ after
  ready : is_ready m timer ≡ true

Ready-timer : (m : Manager) (ts : List Timer) → any_ready m ts ≡ true → Ready m ts
unfolding any_ready
Ready-timer m [] = λ h. absurd (ground arith)
Ready-timer m (t ∷ ts) = elim (Bool-cases (is_ready m t)) [
  | inl e ↦ rw e (λ h. record { timer = t; before = []; after = ts; among = refl; ready = e })
  | inr e ↦ rw e (λ h.
      let r = Ready-timer m ts h in
      record {
        timer = r.timer;
        before = t ∷ r.before;
        after = r.after;
        among = ap (λ (xs : List Timer). t ∷ xs) r.among;
        ready = r.ready;
      })
]

-- Some pending restart brings the process up, if the command starts.
pub record CanRestart (m : Manager) : Type 0 where
  pub timer : Timer
  pub before : List Timer
  pub after : List Timer
  pub pending : m.timers ≡ before ++ timer ∷ after
  pub runs :
      (now pid : ℕ)
      → (restart timer now (ok pid) (record m { timers = before ++ after })).state ≡ running

fired :
    (m : Manager) (t : Timer) (before after : List Timer) (now pid : ℕ)
    → is_ready m t ≡ true
    → (restart t now (ok pid) (record m { timers = before ++ after })).state ≡ running
unfolding restart restart_answered start_process
fired m t before after now pid e = rw (restart_guard m t true e) refl

live-CanRestart : (m : Manager) → m.state ≡ starting → IsLive m → CanRestart m
unfolding IsLive
live-CanRestart m s h =
    let r = Ready-timer m m.timers (let e = ap is_starting s in ground arith) in
    record {
      timer = r.timer;
      before = r.before;
      after = r.after;
      pending = r.among;
      runs = λ now pid. fired m r.timer r.before r.after now pid r.ready;
    }

-- A manager that is starting, after any steps of it and its goroutines, has a pending restart, and that
-- restart leaves it running where the command starts: it never waits for nothing.
pub starting-CanRestart :
    (max_restarts stable_window : ℕ) (m : Manager)
    → Reaches (new_manager max_restarts stable_window) m
    → m.state ≡ starting
    → CanRestart m
starting-CanRestart k w m r s = live-CanRestart m s (reached-IsLive r (unfold IsLive in refl))
