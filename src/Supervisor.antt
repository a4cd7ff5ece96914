-- ===== src/Supervisor.antt =====
-- internal/supervisor/manager_linux.go and state.go: the manager of the sing-box process, with the
-- goroutines that wait for a process (`wait`) and for the delay before a restart. Everything between
-- two locks is one step; a channel is the number under which it was made, and closing `done` and
-- setting it to nil is setting it to `none`. Counts are natural numbers, times nanoseconds.
pub mod Phase
pub mod Single
pub mod Logs
pub mod Restarts
pub mod Delay
pub mod Examples
use sing_box_webui.Prelude.{
  ℕ, ◌+◌, ◌-◌, ◌%◌, ◌^◌, String, ◌≡◌, Bool, true, false, not, ◌&&◌, ◌||◌, List, [], ◌∷◌, ◌++◌,
  Option, none, some, leb, ◌==◌, if◌then◌else◌, Result, ok, err,
}

pub data State : Type 0 where
  stopped starting running stopping failed : State

-- A goroutine in `wait`: its generation, and the process it waits for.
pub record Waiter : Type 0 where
  pub generation : ℕ
  pub pid : ℕ

-- A goroutine of `scheduleRestartLocked`: its generation, and the `done` it has read.
pub record Timer : Type 0 where
  pub generation : ℕ
  pub done : Option ℕ

-- The fields of `Manager` and of its snapshot, the goroutines, and the number of channels made.
pub record Manager : Type 0 where
  pub state : State
  pub generation : ℕ
  pub pid : ℕ
  pub last_error : String
  pub command : Option ℕ
  pub done : Option ℕ
  pub stop_wanted : Bool
  pub restart_count : ℕ
  pub max_restarts : ℕ
  pub stable_window : ℕ
  pub process_started : ℕ
  pub waiters : List Waiter
  pub timers : List Timer
  pub channels : ℕ

pub same_channel : Option ℕ → Option ℕ → Bool
same_channel none none = true
same_channel none (some _) = false
same_channel (some _) none = false
same_channel (some a) (some b) = a == b

-- finishLocked
pub finish : Manager → Manager
finish m = record m { done = none }

-- startProcessLocked, with what the start of the command answers: the process, or an error.
pub start_process : ℕ → Result String ℕ → ℕ → Manager → Manager × Option String
start_process now (err e) generation m = (m, some e)
start_process now (ok pid) generation m = (
  record m {
    command = some pid;
    process_started = now;
    state = running;
    pid = pid;
    last_error = "";
    waiters = record { generation = generation; pid = pid } ∷ m.waiters;
  },
  none,
)

-- scheduleRestartLocked
pub schedule_restart : ℕ → Manager → Manager
unfolding finish
schedule_restart generation m =
    if leb m.max_restarts m.restart_count then finish (record m { state = failed }) else record m {
      restart_count = m.restart_count + 1;
      state = starting;
      timers = record { generation = generation; done = m.done } ∷ m.timers;
    }

-- What `Start` makes of the answer to the first start of the command
start_answered : Manager × Option String → Manager
unfolding finish
start_answered (m, none) = m
start_answered (m, some e) = finish (record m { state = failed; last_error = e })

pub is_busy : State → Bool
is_busy running = true
is_busy starting = true
is_busy stopping = true
is_busy stopped = false
is_busy failed = false

-- The part of `Start` under the lock; a busy manager answers ErrAlreadyRunning, and stays as it is.
unfoldable pub start : ℕ → Result String ℕ → Manager → Manager
unfolding start_process start_answered is_busy
start now spawned m =
    let generation = (m.generation + 1) % 2 ^ 64 in
    if is_busy m.state
    then m
    else start_answered (
        start_process now spawned generation (record m {
          generation = generation;
          state = starting;
          last_error = "";
          stop_wanted = false;
          restart_count = 0;
          done = some m.channels;
          channels = m.channels + 1;
        }))

stop_command : Manager → Option ℕ → Manager
unfolding finish
stop_command m none =
    finish (record m { stop_wanted = true; state = stopped; pid = 0; last_error = "" })
stop_command m (some pid) = record m { state = stopping; stop_wanted = true }

stop_from : State → Manager → Manager
unfolding stop_command
stop_from stopped m = m
stop_from starting m = stop_command m m.command
stop_from running m = stop_command m m.command
stop_from stopping m = stop_command m m.command
stop_from failed m = stop_command m m.command

-- The part of `Stop` under the lock; the signal ends the process by a step of its own.
pub stop : Manager → Manager
unfolding stop_from
stop m = stop_from m.state m

-- The part of `wait` for its own generation; the Boolean is `stopWanted`.
wait_ended : ℕ → String → Manager → Bool → Manager
unfolding finish schedule_restart
wait_ended now error m true =
    finish (record m { command = none; pid = 0; state = stopped; last_error = "" })
wait_ended now error m false = schedule_restart m.generation (record m {
  command = none;
  pid = 0;
  last_error = error;
  restart_count = if leb m.stable_window (now - m.process_started) then 0 else m.restart_count;
})

-- `wait` after its process has ended; `error` is the text for `LastError`. The waiter is gone.
pub wait : Waiter → ℕ → String → Manager → Manager
unfolding wait_ended
wait w now error m =
    if w.generation == m.generation then wait_ended now error m m.stop_wanted else m

restart_answered : ℕ → Manager × Option String → Manager
unfolding schedule_restart
restart_answered generation (m, none) = m
restart_answered generation (m, some e) = schedule_restart generation (record m { last_error = e })

-- The goroutine of `scheduleRestartLocked` once its delay is over. A closed `done` is no longer the
-- manager's, so that the goroutine returns whichever case of its `select` is taken.
pub restart : Timer → ℕ → Result String ℕ → Manager → Manager
unfolding same_channel restart_answered start_process
restart t now spawned m =
    if not (t.generation == m.generation) || (m.stop_wanted || not (same_channel m.done t.done))
    then m
    else restart_answered t.generation (start_process now spawned t.generation m)

-- The steps of the manager and its goroutines, in any order.
pub data Step : Manager → Manager → Type 0 where
  starts : (now : ℕ) (spawned : Result String ℕ) (m : Manager) → Step m (start now spawned m)
  stops : (m : Manager) → Step m (stop m)
  exits :
      (w : Waiter) (before after : List Waiter) (now : ℕ) (error : String) (m : Manager)
      → m.waiters ≡ before ++ w ∷ after
      → Step m (wait w now error (record m { waiters = before ++ after }))
  fires :
      (t : Timer) (before after : List Timer) (now : ℕ) (spawned : Result String ℕ) (m : Manager)
      → m.timers ≡ before ++ t ∷ after
      → Step m (restart t now spawned (record m { timers = before ++ after }))

pub data Reaches : Manager → Manager → Type 0 where
  here : (m : Manager) → Reaches m m
  there : (m n o : Manager) → Step m n → Reaches n o → Reaches m o

-- newManagerWithPolicy
abbrev pub new_manager : ℕ → ℕ → Manager
new_manager max_restarts stable_window = record {
  state = stopped;
  generation = 0;
  pid = 0;
  last_error = "";
  command = none;
  done = none;
  stop_wanted = false;
  restart_count = 0;
  max_restarts = max_restarts;
  stable_window = stable_window;
  process_started = 0;
  waiters = [];
  timers = [];
  channels = 0;
}
