-- ===== src/Supervisor/Phase.antt =====
-- What each state of the manager says of its process, and that a start, a stop and the scheduling of a
-- restart keep it.
use sing_box_webui.Prelude.{
  ℕ, ◌+◌, ◌%◌, ◌^◌, ◌≤◌, ◌<◌, String, ◌≡◌, refl, sym, subst, arith, true, false, List, [], ◌∷◌,
  ◌++◌, Option, none, some, All, leb, ==_iff, if◌then◌else◌, Bool-cases, inl, inr, Result, ok, err,
}
use sing_box_webui.Supervisor.{
  State, stopped, starting, running, stopping, failed, Waiter, Timer, Manager, same_channel, finish,
  start_process, schedule_restart, start_answered, is_busy, start, stop_command, stop_from, stop,
}

-- The timers that have read this channel.
unfoldable pub pending : Option ℕ → List Timer → ℕ
unfolding same_channel
pending d [] = 0
pending d (t ∷ ts) = if same_channel d t.done then pending d ts + 1 else pending d ts

-- The only waiter, if there is one, is that of the manager's own process and generation.
abbrev pub IsAlone : Option ℕ → ℕ → List Waiter → Type 0
IsAlone none generation ws = ws ≡ []
IsAlone (some pid) generation ws = ws ≡ record { generation = generation; pid = pid } ∷ []

-- What each state says of the process, of `done`, and of the pending restarts.
abbrev pub InPhase : State → Option ℕ → Option ℕ → ℕ → Type 0
InPhase stopped none none n = Unit {0}
InPhase failed none none n = Unit {0}
InPhase starting none (some d) n = n ≤ 1
InPhase running (some pid) (some d) n = n ≡ 0
InPhase stopping (some pid) (some d) n = n ≡ 0
InPhase _ _ _ n = ⊥

abbrev pub IsMade : ℕ → Option ℕ → Type 0
IsMade channels none = Unit {0}
IsMade channels (some d) = d < channels

-- A timer has read a channel, never nil.
abbrev pub IsRead : ℕ → Option ℕ → Type 0
IsRead channels none = ⊥
IsRead channels (some d) = d < channels

pub record IsSingle (m : Manager) : Type 0 where
  pub alone : IsAlone m.command m.generation m.waiters
  pub phase : InPhase m.state m.command m.done (pending m.done m.timers)
  pub made : IsMade m.channels m.done
  pub timers_made : All (λ (t : Timer). IsRead m.channels t.done) m.timers

pub fresh_channel : (n : ℕ) (o : Option ℕ) → IsRead n o → same_channel (some n) o ≡ false
unfolding same_channel
fresh_channel n none h = absurd h
fresh_channel n (some d) h = ground arith

pub pending_fresh :
    (n : ℕ) (ts : List Timer) → All (λ (t : Timer). IsRead n t.done) ts → pending (some n) ts ≡ 0
unfolding pending
pending_fresh n [] h = refl
pending_fresh n (t ∷ ts) h = rw (fresh_channel n t.done h.0) (pending_fresh n ts h.1)

pub pending-append :
    (d : Option ℕ) (xs ys : List Timer) → pending d (xs ++ ys) ≡ pending d xs + pending d ys
unfolding pending
pending-append d [] ys = omega arith
pending-append d (x ∷ xs) ys = let h = pending-append d xs ys in ground arith

pub same_self : (d : ℕ) → same_channel (some d) (some d) ≡ true
unfolding same_channel
same_self d = (==_iff d d).1 refl

pub one_pending :
    (g d : ℕ) (o : Option ℕ) (ts : List Timer)
    → o ≡ some d
    → pending (some d) ts ≡ 0
    → pending o (record { generation = g; done = o } ∷ ts) ≤ 1
unfolding pending
one_pending g d o ts e p =
    let base : pending (some d) (record { generation = g; done = some d } ∷ ts) ≤ 1 =
      rw (same_self d) (omega (arith, p)) in
    subst (λ (x : Option ℕ). pending x (record { generation = g; done = x } ∷ ts) ≤ 1) (sym e) base

pub restarting : (c o : Option ℕ) (n d : ℕ) → c ≡ none → o ≡ some d → n ≤ 1 → InPhase starting c o n
restarting c o n d e f l = rw (e, f) l

pub no_waiter : (c : Option ℕ) (g : ℕ) (ws : List Waiter) → c ≡ none → IsAlone c g ws → ws ≡ []
no_waiter none g ws e h = h
no_waiter (some p) g ws e h = absurd (ground arith)

pub made_later :
    (n : ℕ) (ts : List Timer)
    → All (λ (t : Timer). IsRead n t.done) ts
    → All (λ (t : Timer). IsRead (n + 1) t.done) ts
made_later n [] h = tt
made_later n (t ∷ ts) h = (later t.done h.0, made_later n ts h.1)
  where
    later : (o : Option ℕ) → IsRead n o → IsRead (n + 1) o
    later none k = absurd k
    later (some d) k = omega arith

-- A manager without a process that schedules a restart, or gives up.
pub schedule-IsSingle :
    (g d : ℕ) (m : Manager)
    → m.done ≡ some d
    → m.command ≡ none
    → m.waiters ≡ []
    → pending (some d) m.timers ≡ 0
    → d < m.channels
    → All (λ (t : Timer). IsRead m.channels t.done) m.timers
    → IsSingle (schedule_restart g m)
unfolding schedule_restart finish pending
schedule-IsSingle g d m e c w p l a = elim (Bool-cases (leb m.max_restarts m.restart_count)) [
  | inl q ↦ rw q (record { alone = rw c w; phase = rw c tt; made = tt; timers_made = a })
  | inr q ↦ rw q (record {
    alone = rw c w;
    phase = restarting m.command m.done _ d c e (one_pending g d m.done m.timers e p);
    made = rw e l;
    timers_made = (rw e l, a);
  })
]

pub idle_command :
    (s : State) (c d : Option ℕ) (n : ℕ) → is_busy s ≡ false → InPhase s c d n → c ≡ none
unfolding is_busy
idle_command s c d n h p = ground arith

-- The process of a manager that runs or stops is its own; nothing is pending.
pub running_process : (c d : Option ℕ) (n : ℕ) → InPhase running c d n → n ≡ 0
running_process c d n p = ground arith

answered-IsSingle :
    (now g n : ℕ) (spawned : Result String ℕ) (m : Manager)
    → m.command ≡ none
    → m.waiters ≡ []
    → m.done ≡ some n
    → n < m.channels
    → pending (some n) m.timers ≡ 0
    → m.generation ≡ g
    → All (λ (t : Timer). IsRead m.channels t.done) m.timers
    → IsSingle (start_answered (start_process now spawned g m))
unfolding start_answered start_process finish
answered-IsSingle now g n (err e) m c w d l p q a = record {
  alone = rw c w;
  phase = rw c tt;
  made = tt;
  timers_made = a;
}
answered-IsSingle now g n (ok pid) m c w d l p q a = record {
  alone = rw (w, q) refl;
  phase = rw d p;
  made = rw d l;
  timers_made = a;
}

pub start-IsSingle :
    (now : ℕ) (spawned : Result String ℕ) (m : Manager)
    → IsSingle m
    → IsSingle (start now spawned m)
unfolding start
start-IsSingle now spawned m h = elim (Bool-cases (is_busy m.state)) [
  | inl e ↦ rw e h
  | inr e ↦
      let c = idle_command m.state m.command m.done (pending m.done m.timers) e h.phase in
      rw e (
        answered-IsSingle now ((m.generation + 1) % 2 ^ 64) m.channels spawned
          (record m {
            generation = (m.generation + 1) % 2 ^ 64;
            state = starting;
            last_error = "";
            stop_wanted = false;
            restart_count = 0;
            done = some m.channels;
            channels = m.channels + 1;
          })
          c (no_waiter m.command m.generation m.waiters c h.alone) refl (omega arith)
          (pending_fresh m.channels m.timers h.timers_made) refl
          (made_later m.channels m.timers h.timers_made))
]

pub stopping_of :
    (s : State) (c d : Option ℕ) (n pid : ℕ)
    → c ≡ some pid
    → InPhase s c d n
    → InPhase stopping c d n
stopping_of s c d n pid e p = ground arith

-- Of a state other than `stopped`: the two ends of `Stop`.
stop_command-IsSingle :
    (m : Manager) (c : Option ℕ) → m.command ≡ c → IsSingle m → IsSingle (stop_command m c)
unfolding stop_command finish
stop_command-IsSingle m none e h = record {
  alone = rw e (no_waiter m.command m.generation m.waiters e h.alone);
  phase = rw e tt;
  made = tt;
  timers_made = h.timers_made;
}
stop_command-IsSingle m (some pid) e h = record {
  alone = h.alone;
  phase = stopping_of m.state m.command m.done (pending m.done m.timers) pid e h.phase;
  made = h.made;
  timers_made = h.timers_made;
}

stop_from-IsSingle : (s : State) (m : Manager) → IsSingle m → IsSingle (stop_from s m)
unfolding stop_from
stop_from-IsSingle stopped m h = h
stop_from-IsSingle starting m h = stop_command-IsSingle m m.command refl h
stop_from-IsSingle running m h = stop_command-IsSingle m m.command refl h
stop_from-IsSingle stopping m h = stop_command-IsSingle m m.command refl h
stop_from-IsSingle failed m h = stop_command-IsSingle m m.command refl h

pub stop-IsSingle : (m : Manager) → IsSingle m → IsSingle (stop m)
unfolding stop
stop-IsSingle m h = stop_from-IsSingle m.state m h
