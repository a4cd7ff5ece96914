-- ===== src/Events/Refines.antt =====
-- The broker against the log of everything that was published.
use sing_box_webui.Prelude.{
  ℕ, ◌+◌, ◌%◌, ◌^◌, ◌≤◌, ◌≡◌, refl, sym, subst, List, [], ◌∷◌, ◌++◌, All, ok, err, arith,
}
use sing_box_webui.Prelude.Int.{ℤ, pos, negsuc}
use sing_box_webui.Events.{
  Event, Broker, at_least_one, new_broker, publish, subscribe, unsubscribe, take_event, Call,
  publishes, subscribes, unsubscribes, takes, step, run,
}
use sing_box_webui.Events.Window.{latest, append_assoc, append_nil, record-latest}
use sing_box_webui.Events.Waiting.{
  IsWaiting, delivered-IsWaiting, without-IsWaiting, taken-IsWaiting, empty-IsWaiting,
}

-- The events that the calls publish, numbered on from `id`
pub log_of : ℕ → List Call → List Event
log_of id [] = []
log_of id (publishes now type (ok encoded) ∷ cs) =
    let next = (id + 1) % 2 ^ 64 in
    record { id = next; type = type; timestamp = now; payload = encoded } ∷ log_of next cs
log_of id (publishes now type (err e) ∷ cs) = log_of id cs
log_of id (subscribes ∷ cs) = log_of id cs
log_of id (unsubscribes key ∷ cs) = log_of id cs
log_of id (takes key ∷ cs) = log_of id cs

pub record Refines (capacity buffer : ℕ) (log : List Event) (b : Broker) : Type 0 where
  pub same_capacity : b.history_capacity ≡ capacity
  pub same_buffer : b.subscriber_buffer ≡ buffer
  pub recent : b.history ≡ latest capacity log
  pub waiting : All (λ s. IsWaiting buffer log s.pending) b.subscribers

module _ (capacity buffer : ℕ) (some_capacity : 1 ≤ capacity) (some_buffer : 1 ≤ buffer) where
  -- One call, with what it adds to the log
  step-Refines :
      (c : Call) (log : List Event) (b : Broker)
      → Refines capacity buffer log b
      → Refines capacity buffer (log ++ log_of b.next_id (c ∷ [])) (step c b)
  unfolding step publish subscribe unsubscribe take_event log_of
  step-Refines (publishes now type (err e)) log b h =
      subst (λ l. Refines capacity buffer l b) (sym (append_nil log)) h
  step-Refines (publishes now type (ok encoded)) log b h =
      let e : Event = record {
        id = (b.next_id + 1) % 2 ^ 64;
        type = type;
        timestamp = now;
        payload = encoded;
      } in
      record {
        same_capacity = h.same_capacity;
        same_buffer = h.same_buffer;
        recent = rw (h.same_capacity, h.recent) (record-latest capacity e log some_capacity);
        waiting =
            rw (h.same_buffer)
              (delivered-IsWaiting buffer e log b.subscribers some_buffer h.waiting);
      }
  step-Refines subscribes log b h = rw (append_nil log) (record {
    same_capacity = h.same_capacity;
    same_buffer = h.same_buffer;
    recent = h.recent;
    waiting = (
      empty-IsWaiting buffer log,
      without-IsWaiting buffer ((b.next_subscriber_id + 1) % 2 ^ 64) log b.subscribers h.waiting,
    );
  })
  step-Refines (unsubscribes key) log b h = rw (append_nil log) (record {
    same_capacity = h.same_capacity;
    same_buffer = h.same_buffer;
    recent = h.recent;
    waiting = without-IsWaiting buffer key log b.subscribers h.waiting;
  })
  step-Refines (takes key) log b h = rw (append_nil log) (record {
    same_capacity = h.same_capacity;
    same_buffer = h.same_buffer;
    recent = h.recent;
    waiting = taken-IsWaiting buffer key log b.subscribers h.waiting;
  })

  log_of-step :
      (c : Call) (cs : List Call) (b : Broker)
      → log_of b.next_id (c ∷ cs) ≡ log_of b.next_id (c ∷ []) ++ log_of (step c b).next_id cs
  unfolding step publish subscribe unsubscribe take_event log_of
  log_of-step (publishes now type (ok encoded)) cs b = refl
  log_of-step (publishes now type (err e)) cs b = refl
  log_of-step subscribes cs b = refl
  log_of-step (unsubscribes key) cs b = refl
  log_of-step (takes key) cs b = refl

  run-Refines :
      (cs : List Call) (log : List Event) (b : Broker)
      → Refines capacity buffer log b
      → Refines capacity buffer (log ++ log_of b.next_id cs) (run cs b)
  unfolding run
  run-Refines [] log b h = unfold log_of in rw (append_nil log) h
  run-Refines (c ∷ cs) log b h =
      rw
        (
          log_of-step c cs b,
          sym (append_assoc log (log_of b.next_id (c ∷ [])) (log_of (step c b).next_id cs)),
        )
        (run-Refines cs (log ++ log_of b.next_id (c ∷ [])) (step c b) (step-Refines c log b h))

at_least_one_lem : (n : ℤ) → 1 ≤ at_least_one n
unfolding at_least_one
at_least_one_lem (pos n) = ground arith
at_least_one_lem (negsuc n) = omega arith

new_broker-Refines : (c s : ℤ) → Refines (at_least_one c) (at_least_one s) [] (new_broker c s)
unfolding new_broker latest
new_broker-Refines c s = record {
  same_capacity = refl;
  same_buffer = refl;
  recent = refl;
  waiting = tt;
}

-- After any calls of a new broker, its history is the newest part of all that was published, in the
-- order of publication, of at most `history_capacity` events (one at least), and what waits for each
-- subscriber is the end of it, of at most `subscriber_buffer` events (one at least).
pub broker-Refines_log :
    (history_capacity subscriber_buffer : ℤ) (cs : List Call)
    → Refines
        (at_least_one history_capacity)
        (at_least_one subscriber_buffer)
        (log_of 0 cs)
        (run cs (new_broker history_capacity subscriber_buffer))
unfolding new_broker
broker-Refines_log c s cs =
    run-Refines (at_least_one c) (at_least_one s) (at_least_one_lem c) (at_least_one_lem s) cs []
      (new_broker c s) (new_broker-Refines c s)
