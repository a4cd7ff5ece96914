-- ===== src/Events/Waiting.antt =====
-- What waits in a subscriber's channel, against the log of everything that was published.
use sing_box_webui.Prelude.{
  ℕ, ◌+◌, ◌≤◌, ◌≡◌, sym, ap, ◌∙◌, true, List, [], ◌∷◌, ◌++◌, map, All, ltb, ◌==◌, length,
  if◌then◌else◌, arith, Bool-cases, inl, inr, length-append,
}
use sing_box_webui.Events.{
  Event, Subscriber, receive, try_send, or_kept, sent_or_dropped, deliver, deliver_to, without,
}
use sing_box_webui.Events.Window.{append_assoc, append_nil}

-- The events that wait are the last of the log, and no more than the buffer holds.
pub record IsWaiting (buffer : ℕ) (log pending : List Event) : Type 0 where
  pub taken : List Event
  pub ends : log ≡ taken ++ pending
  pub fits : length pending ≤ buffer

receive-IsWaiting :
    (buffer : ℕ) (log pending : List Event)
    → IsWaiting buffer log pending
    → IsWaiting buffer log (receive pending)
unfolding receive
receive-IsWaiting buffer log [] h = h
receive-IsWaiting buffer log (x ∷ xs) h = record {
  taken = h.taken ++ x ∷ [];
  ends = h.ends ∙ sym (append_assoc h.taken (x ∷ []) xs);
  fits = let f = h.fits in omega arith;
}

-- A channel with room takes the event.
sent-IsWaiting :
    (buffer : ℕ) (e : Event) (log pending : List Event)
    → length pending + 1 ≤ buffer
    → IsWaiting buffer log pending
    → IsWaiting buffer (log ++ e ∷ []) (pending ++ e ∷ [])
sent-IsWaiting buffer e log pending f h = record {
  taken = h.taken;
  ends = ap (λ (xs : List Event). xs ++ e ∷ []) h.ends ∙ append_assoc h.taken pending (e ∷ []);
  fits = let l = length-append pending (e ∷ []) in omega arith;
}

room_made :
    (buffer : ℕ) (pending : List Event)
    → 1 ≤ buffer
    → length pending ≤ buffer
    → length (receive pending) + 1 ≤ buffer
unfolding receive
room_made buffer [] p h = p
room_made buffer (x ∷ xs) p h = omega arith

-- A send never fails, if need be after the oldest event has been dropped.
deliver-IsWaiting :
    (buffer : ℕ) (e : Event) (log pending : List Event)
    → 1 ≤ buffer
    → IsWaiting buffer log pending
    → IsWaiting buffer (log ++ e ∷ []) (deliver buffer e pending)
unfolding deliver sent_or_dropped try_send or_kept
deliver-IsWaiting buffer e log pending p h = elim (Bool-cases (ltb (length pending) buffer)) [
  | inl f ↦ rw f (sent-IsWaiting buffer e log pending (ground arith) h)
  | inr f ↦
      let r = room_made buffer pending p h.fits in
      let g : ltb (length (receive pending)) buffer ≡ true = ground arith in
      rw (f, g)
        (sent-IsWaiting buffer e log (receive pending) r (receive-IsWaiting buffer log pending h))
]

module _ (buffer : ℕ) where
  abbrev pub Waits : List Event → Subscriber → Type 0
  Waits log s = IsWaiting buffer log s.pending

  pub delivered-IsWaiting :
      (e : Event) (log : List Event) (ss : List Subscriber)
      → 1 ≤ buffer
      → All (Waits log) ss
      → All (Waits (log ++ e ∷ [])) (map (deliver_to buffer e) ss)
  unfolding deliver_to
  delivered-IsWaiting e log [] p h = tt
  delivered-IsWaiting e log (s ∷ ss) p h =
      (deliver-IsWaiting buffer e log s.pending p h.0, delivered-IsWaiting e log ss p h.1)

  pub without-IsWaiting :
      (key : ℕ) (log : List Event) (ss : List Subscriber)
      → All (Waits log) ss
      → All (Waits log) (without key ss)
  unfolding without
  without-IsWaiting key log [] h = tt
  without-IsWaiting key log (s ∷ ss) h = elim (Bool-cases (s.key == key)) [
    | inl e ↦ rw e (without-IsWaiting key log ss h.1)
    | inr e ↦ rw e (h.0, without-IsWaiting key log ss h.1)
  ]

  pub taken-IsWaiting :
      (key : ℕ) (log : List Event) (ss : List Subscriber)
      → All (Waits log) ss
      → All
          (Waits log)
          (map (λ s. if s.key == key then record s { pending = receive s.pending } else s) ss)
  taken-IsWaiting key log [] h = tt
  taken-IsWaiting key log (s ∷ ss) h = elim (Bool-cases (s.key == key)) [
    | inl e ↦ rw e (receive-IsWaiting buffer log s.pending h.0, taken-IsWaiting key log ss h.1)
    | inr e ↦ rw e (h.0, taken-IsWaiting key log ss h.1)
  ]

  -- An empty channel waits at the end of any log.
  pub empty-IsWaiting : (log : List Event) → IsWaiting buffer log []
  empty-IsWaiting log = record { taken = log; ends = sym (append_nil log); fits = omega arith }
