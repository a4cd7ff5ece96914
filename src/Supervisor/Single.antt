-- ===== src/Supervisor/Single.antt =====
-- At most one process lives.
use sing_box_webui.Prelude.{
  ℕ, ◌+◌, ◌-◌, ◌≤◌, ◌<◌, String, ◌≡◌, refl, sym, subst, ap, ◌∙◌, arith, Bool, true, false, not,
  ◌||◌, List, [], ◌∷◌, ◌++◌, Option, none, some, All, leb, ◌==◌, ==_iff, if◌then◌else◌, length,
  Bool-cases, inl, inr, Result, ok, err,
}
use sing_box_webui.Supervisor.{
  State, stopped, starting, running, stopping, failed, Waiter, Timer, Manager, same_channel, finish,
  start_process, is_busy, wait_ended, wait, restart_answered, restart, Step, starts, stops, exits,
  fires, Reaches, here, there, new_manager,
}
use sing_box_webui.Supervisor.Phase.{
  pending, IsAlone, InPhase, IsMade, IsRead, IsSingle, pending-append, no_waiter, schedule-IsSingle,
  idle_command, start-IsSingle, stop-IsSingle,
}

process_phase :
    (s : State) (c o : Option ℕ) (n pid : ℕ)
    → c ≡ some pid
    → InPhase s c o n
    → (d : ℕ) × (o ≡ some d) × (n ≡ 0)
process_phase s none o n pid e h = absurd (ground arith)
process_phase running (some p) (some d) n pid e h = (d, refl, h)
process_phase stopping (some p) (some d) n pid e h = (d, refl, h)
process_phase s (some p) none n pid e h = absurd (ground arith)
process_phase stopped (some p) (some d) n pid e h = absurd h
process_phase starting (some p) (some d) n pid e h = absurd h
process_phase failed (some p) (some d) n pid e h = absurd h

-- Whoever waits waits for the manager's process, in its generation, and alone.
only_waiter :
    (c : Option ℕ) (g : ℕ) (before after : List Waiter) (w : Waiter)
    → IsAlone c g (before ++ w ∷ after)
    → (p : ℕ) × (c ≡ some p) × (w.generation ≡ g) × (before ++ after ≡ [])
only_waiter none g [] after w h = absurd (ground arith)
only_waiter none g (b ∷ bs) after w h = absurd (ground arith)
only_waiter (some p) g [] [] w h = (p, refl, ground arith, refl)
only_waiter (some p) g [] (a ∷ as') w h = absurd (ground arith)
only_waiter (some p) g (b ∷ []) after w h = absurd (ground arith)
only_waiter (some p) g (b ∷ c ∷ bs) after w h = absurd (ground arith)

wait_ended-IsSingle :
    (now d : ℕ) (error : String) (m : Manager) (stop_wanted : Bool)
    → m.waiters ≡ []
    → m.done ≡ some d
    → pending (some d) m.timers ≡ 0
    → d < m.channels
    → All (λ (t : Timer). IsRead m.channels t.done) m.timers
    → IsSingle (wait_ended now error m stop_wanted)
unfolding wait_ended finish
wait_ended-IsSingle now d error m true w e p l a = record {
  alone = w;
  phase = tt;
  made = tt;
  timers_made = a;
}
wait_ended-IsSingle now d error m false w e p l a =
    schedule-IsSingle m.generation d
      (record m {
        command = none;
        pid = 0;
        last_error = error;
        restart_count =
            if leb m.stable_window (now - m.process_started) then 0 else m.restart_count;
      })
      e refl w p l a

fewer_pending : (s : State) (c o : Option ℕ) (n k : ℕ) → k ≤ n → InPhase s c o n → InPhase s c o k
fewer_pending s c o n k l h = ground arith

made_done : (n d : ℕ) (o : Option ℕ) → o ≡ some d → IsMade n o → d < n
made_done n d none e h = absurd (ground arith)
made_done n d (some k) e h = ground arith

wait-IsSingle :
    (w : Waiter) (before after : List Waiter) (now : ℕ) (error : String) (m : Manager)
    → m.waiters ≡ before ++ w ∷ after
    → IsSingle m
    → IsSingle (wait w now error (record m { waiters = before ++ after }))
unfolding wait
wait-IsSingle w before after now error m e h =
    let alone = subst (IsAlone m.command m.generation) e h.alone in
    let (pid, c, g, empty) = only_waiter m.command m.generation before after w alone in
    let (d, o, z) =
      process_phase m.state m.command m.done (pending m.done m.timers) pid c h.phase in
    rw ((==_iff w.generation m.generation).1 g) (
      wait_ended-IsSingle now d error (record m { waiters = before ++ after }) m.stop_wanted empty o
        (sym (ap (λ (x : Option ℕ). pending x m.timers) o) ∙ z)
        (made_done m.channels d m.done o h.made) h.timers_made)

starting_of :
    (s : State) (c o : Option ℕ) (n : ℕ)
    → 1 ≤ n
    → (d : ℕ) → o ≡ some d
    → InPhase s c o n
    → (c ≡ none) × (n ≤ 1)
starting_of s c o n l d e h = (ground arith, ground arith)

channel_eq : (o p : Option ℕ) → same_channel o p ≡ true → o ≡ p
unfolding same_channel
channel_eq none none h = refl
channel_eq none (some b) h = absurd (ground arith)
channel_eq (some a) none h = absurd (ground arith)
channel_eq (some a) (some b) h = ap (λ (x : ℕ). Option.some x) ((==_iff a b).0 h)

restart_answered-IsSingle :
    (now g d : ℕ) (spawned : Result String ℕ) (m : Manager)
    → m.command ≡ none
    → m.waiters ≡ []
    → m.done ≡ some d
    → d < m.channels
    → pending (some d) m.timers ≡ 0
    → g ≡ m.generation
    → All (λ (t : Timer). IsRead m.channels t.done) m.timers
    → IsSingle (restart_answered g (start_process now spawned g m))
unfolding restart_answered start_process
restart_answered-IsSingle now g d (err e) m c w o l p q a =
    schedule-IsSingle g d (record m { last_error = e }) o c w p l a
restart_answered-IsSingle now g d (ok pid) m c w o l p q a = record {
  alone = rw (w, q) refl;
  phase = rw o p;
  made = rw o l;
  timers_made = a;
}

abbrev AllRead : ℕ → List Timer → Type 0
AllRead n ts = All (λ (t : Timer). IsRead n t.done) ts

dropped :
    (n : ℕ) (before after : List Timer) (t : Timer)
    → AllRead n (before ++ t ∷ after)
    → IsRead n t.done × AllRead n (before ++ after)
dropped n [] after t h = h
dropped n (b ∷ bs) after t h = let (p, q) = dropped n bs after t h.1 in (p, (h.0, q))

pending_drop :
    (d : Option ℕ) (before after : List Timer) (t : Timer)
    → pending d (before ++ after) ≤ pending d (before ++ t ∷ after)
unfolding pending
pending_drop d before after t =
    let a = pending-append d before after in
    let b = pending-append d before (t ∷ after) in ground arith

pending_hit :
    (d : Option ℕ) (before after : List Timer) (t : Timer)
    → same_channel d t.done ≡ true
    → pending d (before ++ t ∷ after) ≡ pending d (before ++ after) + 1
unfolding pending
pending_hit d before after t h =
    let a = pending-append d before after in
    let b = pending-append d before (t ∷ after) in ground arith

read_some : (n : ℕ) (o : Option ℕ) → IsRead n o → (d : ℕ) × (o ≡ some d)
read_some n none h = absurd h
read_some n (some d) h = (d, refl)

active-IsSingle :
    (t : Timer) (before after : List Timer) (now : ℕ) (spawned : Result String ℕ) (m : Manager)
    → m.timers ≡ before ++ t ∷ after
    → IsSingle m
    → t.generation ≡ m.generation
    → same_channel m.done t.done ≡ true
    → IsSingle (
        restart_answered t.generation
          (start_process now spawned t.generation (record m { timers = before ++ after })))
active-IsSingle t before after now spawned m e h g k =
    let (read, rest) =
      dropped m.channels before after t (subst (AllRead m.channels) e h.timers_made) in
    let (d, f) = read_some m.channels t.done read in
    let o : m.done ≡ some d = channel_eq m.done t.done k ∙ f in
    let n : pending m.done m.timers ≡ pending m.done (before ++ after) + 1 =
      ap (pending m.done) e ∙ pending_hit m.done before after t k in
    let (c, l) =
      starting_of m.state m.command m.done (pending m.done m.timers) (omega (arith, n)) d o
        h.phase in
    let z : pending m.done (before ++ after) ≡ 0 = omega (arith, n, l) in
    restart_answered-IsSingle now t.generation d spawned (record m { timers = before ++ after }) c
      (no_waiter m.command m.generation m.waiters c h.alone) o
      (made_done m.channels d m.done o h.made)
      (sym (ap (λ (x : Option ℕ). pending x (before ++ after)) o) ∙ z) g rest

inactive-IsSingle :
    (t : Timer) (before after : List Timer) (m : Manager)
    → m.timers ≡ before ++ t ∷ after
    → IsSingle m
    → IsSingle (record m { timers = before ++ after })
inactive-IsSingle t before after m e h = record {
  alone = h.alone;
  phase =
      fewer_pending m.state m.command m.done (pending m.done (before ++ t ∷ after))
        (pending m.done (before ++ after)) (pending_drop m.done before after t)
        (subst (λ (ts : List Timer). InPhase m.state m.command m.done (pending m.done ts)) e
          h.phase);
  made = h.made;
  timers_made = (dropped m.channels before after t (subst (AllRead m.channels) e h.timers_made)).1;
}

restart-IsSingle :
    (t : Timer) (before after : List Timer) (now : ℕ) (spawned : Result String ℕ) (m : Manager)
    → m.timers ≡ before ++ t ∷ after
    → IsSingle m
    → IsSingle (restart t now spawned (record m { timers = before ++ after }))
unfolding restart
restart-IsSingle t before after now spawned m e h =
    elim (Bool-cases
      (not (t.generation == m.generation) || (m.stop_wanted || not (same_channel m.done t.done)))) [
        | inl q ↦ rw q (inactive-IsSingle t before after m e h)
        | inr q ↦ rw q (
            active-IsSingle t before after now spawned m e h
              ((==_iff t.generation m.generation).0 (ground arith)) (ground arith))
      ]

-- Every step keeps it that the only process that is waited for, if there is one, is the manager's own,
-- that the state says whether there is one, and that at most one pending restart can still act.
pub Step-IsSingle : (m n : Manager) → Step m n → IsSingle m → IsSingle n
Step-IsSingle m n (starts now spawned _) h = start-IsSingle now spawned m h
Step-IsSingle m n (stops _) h = stop-IsSingle m h
Step-IsSingle m n (exits w before after now error _ e) h =
    wait-IsSingle w before after now error m e h
Step-IsSingle m n (fires t before after now spawned _ e) h =
    restart-IsSingle t before after now spawned m e h

Reaches-IsSingle : (m n : Manager) → Reaches m n → IsSingle m → IsSingle n
Reaches-IsSingle m n (here _) h = h
Reaches-IsSingle m n (there _ k _ s r) h = Reaches-IsSingle k n r (Step-IsSingle m k s h)

new_manager-IsSingle :
    (max_restarts stable_window : ℕ) → IsSingle (new_manager max_restarts stable_window)
unfolding pending
new_manager-IsSingle max_restarts stable_window = record {
  alone = refl;
  phase = tt;
  made = tt;
  timers_made = tt;
}

alone_length : (c : Option ℕ) (g : ℕ) (ws : List Waiter) → IsAlone c g ws → length ws ≤ 1
alone_length none g ws h = rw h (omega arith)
alone_length (some p) g ws h = rw h (omega arith)

busy_bound :
    (b : Bool) (ws : List Waiter)
    → length ws ≤ 1
    → (b ≡ false → ws ≡ [])
    → length ws ≤ (if b then 1 else 0)
busy_bound true ws l e = l
busy_bound false ws l e = rw (e refl) (omega arith)

-- However starts, stops, ends of processes and restarts follow one another after the manager is made, at
-- most one process is running at any time, and there is none once the state is stopped or failed.
pub at_most_one_process :
    (max_restarts stable_window : ℕ) (m : Manager)
    → Reaches (new_manager max_restarts stable_window) m
    → length m.waiters ≤ (if is_busy m.state then 1 else 0)
at_most_one_process max_restarts stable_window m r =
    let h =
      Reaches-IsSingle (new_manager max_restarts stable_window) m r
        (new_manager-IsSingle max_restarts stable_window) in
    busy_bound (is_busy m.state) m.waiters (alone_length m.command m.generation m.waiters h.alone)
      λ e.
        no_waiter m.command m.generation m.waiters
          (idle_command m.state m.command m.done (pending m.done m.timers) e h.phase) h.alone
