-- ===== src/Supervisor/Examples.antt =====
-- The theorems on the supervisor, applied to a start, and to the end of the process that it started.
use Prim.Native.Nat.{min}
use sing_box_webui.Prelude.{
  ℕ, suc, ◌+◌, ◌-◌, ◌*◌, ◌/◌, ◌^◌, if◌then◌else◌, ◌≤◌, ◌<◌, ◌≡◌, refl, [], ◌∷◌, length, ok, some,
  arith,
}
use sing_box_webui.Prelude.Int.{pos, ◌≤ℤ◌}
use sing_box_webui.Supervisor.Logs.{write_all, latest, joined, logs_refine_output}
use sing_box_webui.Supervisor.Restarts.{is_ready, CanRestart, starting-CanRestart}
use sing_box_webui.Supervisor.Restarts.Ends.{fail_restarts, failing_restarts_end}
use sing_box_webui.Supervisor.Delay.{restart_delay, jitter20_percent, restart_delay_bounds}
use sing_box_webui.Supervisor.{
  failed, same_channel, Waiter, Manager, is_busy, start, wait, starts, exits, here, there,
  new_manager,
}
use sing_box_webui.Supervisor.Single.{at_most_one_process}

abbrev fresh_manager : Manager
fresh_manager = new_manager 3 100

abbrev started : Manager
started = start 5 (ok 77) fresh_manager

abbrev waiter : Waiter
waiter = record { generation = 1; pid = 77 }

-- Tests

at_most_one_process_example :
    length (wait waiter 9 "exit status 1" (record started { waiters = [] })).waiters ≤ (
      if is_busy (wait waiter 9 "exit status 1" (record started { waiters = [] })).state
      then 1
      else 0)
unfolding start
at_most_one_process_example =
    at_most_one_process 3 100 (wait waiter 9 "exit status 1" (record started { waiters = [] })) (
      there fresh_manager started (wait waiter 9 "exit status 1" (record started { waiters = [] }))
        (starts 5 (ok 77) fresh_manager)
        (there started (wait waiter 9 "exit status 1" (record started { waiters = [] }))
          (wait waiter 9 "exit status 1" (record started { waiters = [] }))
          (exits waiter [] [] 9 "exit status 1" started refl)
          (here (wait waiter 9 "exit status 1" (record started { waiters = [] })))))

-- The manager after its process has ended, waiting to start it again
abbrev ended : Manager
ended = wait waiter 9 "exit status 1" (record started { waiters = [] })

starting-CanRestart_example : CanRestart ended
unfolding start wait
starting-CanRestart_example =
    starting-CanRestart 3 100 ended
      (there fresh_manager started ended (starts 5 (ok 77) fresh_manager) (
        there started ended ended (exits waiter [] [] 9 "exit status 1" started refl) (here ended)))
      refl

failing_restarts_end_example :
    let after =
      fail_restarts (suc (ended.max_restarts - ended.restart_count)) 10 "no such file" ended in
    (after.state ≡ failed) × (after.last_error ≡ "no such file")
unfolding start wait is_ready same_channel
failing_restarts_end_example =
    failing_restarts_end 10 "no such file" ended (record { generation = 1; done = some 0 }) [] refl
      refl

logs_refine_output_example :
    write_all 4 [] ((1 ∷ 2 ∷ 3 ∷ []) ∷ (4 ∷ 5 ∷ []) ∷ [])
    ≡ latest 4 (joined ((1 ∷ 2 ∷ 3 ∷ []) ∷ (4 ∷ 5 ∷ []) ∷ []))
logs_refine_output_example = logs_refine_output 4 ((1 ∷ 2 ∷ 3 ∷ []) ∷ (4 ∷ 5 ∷ []) ∷ [])

abbrev draw_greatest : ℕ → ℕ
draw_greatest n = n - 1

draw_below : (n : ℕ) → 1 ≤ n → draw_greatest n < n
draw_below n h = omega arith

restart_delay_bounds_example :
    let base = min 2_000_000_000 (250_000_000 * 2 ^ 1) in
    let delay =
      restart_delay
        (pos 250_000_000)
        (pos 2_000_000_000)
        (some (jitter20_percent draw_greatest))
        1 in
    (pos (base - base / 5) ≤ℤ delay) × (delay ≤ℤ pos (base + base / 5))
restart_delay_bounds_example =
    restart_delay_bounds draw_greatest 1 250_000_000 2_000_000_000 (omega arith) (omega arith)
      draw_below
