-- ===== src/NodePool/Reconcile/Identity.antt =====
-- What `ReconcileSubscriptionNodes` leaves of a subscription's members.
use sing_box_webui.Prelude.{
  is_some, String, ◌≡◌, refl, sym, ap, Bool, true, false, not, ◌||◌, List, [], ◌∷◌, Option, none,
  some, arith, has, if◌then◌else◌, Bool-cases, inl, inr, str_eq, eq_iff,
}
use sing_box_webui.Subscription.Model.{Node}
use sing_box_webui.Subscription.Lookup.{find_node}
use sing_box_webui.Storage.{find_last}
use sing_box_webui.NodePool.Model.{Member}
use sing_box_webui.NodePool.Reconcile.{
  node_id_of, next_of, node_identity, note_id, by_identity, or_empty, moved_id, next_id, follow_id,
  follow_one, join_one, follow,
}

str_eq_sym : (s t : String) → str_eq s t ≡ true → str_eq t s ≡ true
str_eq_sym s t h = (eq_iff t s).1 (sym ((eq_iff s t).0 h))

-- An id found through the entry of an identity is empty, or the entry's first, or that of a node.
known_step :
    (entry : Option String) (n : Node) (ns : List Node) (r : String) (b : Bool)
    → (str_eq r ""
        || str_eq r (or_empty (if b then note_id n entry else entry))
        || is_some (find_node r ns))
      ≡ true
    → (str_eq r "" || str_eq r (or_empty entry) || is_some (find_node r (n ∷ ns))) ≡ true
unfolding or_empty find_node is_some note_id
known_step none n ns r true h = let e = str_eq_sym r n.id in ground arith
known_step (some x) n ns r true h = ground arith
known_step none n ns r false h = ground arith
known_step (some x) n ns r false h = ground arith

abbrev Settles : List Node → List Node → String → Type 0
Settles previous current next =
    (str_eq next ""
      || is_some (find_node next current)
      || not (is_some (find_last node_id_of next previous)))
    ≡ true

module _ (digest : Node → String) where
  pub by_identity_known :
      (identity : String) (entry : Option String) (ns : List Node) (r : String)
      → or_empty (by_identity digest identity entry ns) ≡ r
      → (str_eq r "" || str_eq r (or_empty entry) || is_some (find_node r ns)) ≡ true
  unfolding by_identity
  by_identity_known identity entry [] r h =
      let e = (eq_iff r (or_empty entry)).1 (sym h) in ground arith
  by_identity_known identity entry (n ∷ ns) r h =
      known_step entry n ns r (str_eq (node_identity digest n) identity) (
        by_identity_known identity
          (if str_eq (node_identity digest n) identity then note_id n entry else entry) ns r h)

  pub next_some :
      (id : String) (previous current : List Node) (n : Node)
      → find_node id current ≡ some n
      → next_id digest previous current id ≡ id
  unfolding next_id next_of
  next_some id previous current n e = rw e refl

  pub next_none :
      (id : String) (previous current : List Node)
      → find_node id current ≡ none
      → next_id digest previous current id
        ≡ moved_id digest current id (find_last node_id_of id previous)
  unfolding next_id next_of
  next_none id previous current e = rw e refl

  moved_known :
      (id : String) (previous current : List Node) (p : Option Node)
      → find_last node_id_of id previous ≡ p
      → Settles previous current (moved_id digest current id p)
  unfolding moved_id is_some or_empty
  moved_known id previous current none f = rw f (ground arith)
  moved_known id previous current (some old) f =
      let r = or_empty (by_identity digest (node_identity digest old) none current) in
      let h = by_identity_known (node_identity digest old) none current r refl in ground arith

  next_known_of :
      (id : String) (previous current : List Node) (o : Option Node)
      → find_node id current ≡ o
      → Settles previous current (next_id digest previous current id)
  unfolding is_some
  next_known_of id previous current (some n) e =
      rw (next_some id previous current n e, e) (ground arith)
  next_known_of id previous current none e =
      rw (next_none id previous current e)
        (moved_known id previous current (find_last node_id_of id previous) refl)

module _ (digest : Node → String) (subscription_id : String) (previous current : List Node) where
  -- Along a list of members, those of the subscription have distinct ids, none of them in `seen`, and
  -- each is the id of a current node or of no previous one.
  pub IsSettled : List String → List Member → Type 0
  unfolding is_some
  IsSettled seen [] = Unit {0}
  IsSettled seen (m ∷ ms) =
      if str_eq m.subscription_id subscription_id
      then ((has m.node_id seen ≡ false)
          × ((is_some (find_node m.node_id current)
                || not (is_some (find_last node_id_of m.node_id previous)))
              ≡ true)
          × IsSettled (m.node_id ∷ seen) ms)
      else IsSettled seen ms

  pub follow_at :
      (seen : List String) (m : Member) (ms : List Member) (r : Option Member × List String)
      → follow_one digest subscription_id previous current seen m ≡ r
      → follow digest subscription_id previous current seen (m ∷ ms)
        ≡ join_one m r.0 (follow digest subscription_id previous current r.1 ms)
  unfolding follow
  follow_at seen m ms r e =
      ap
        (λ (q : Option Member × List String).
          join_one m q.0 (follow digest subscription_id previous current q.1 ms))
        e

  pub one_elsewhere :
      (seen : List String) (m : Member)
      → str_eq m.subscription_id subscription_id ≡ false
      → follow_one digest subscription_id previous current seen m ≡ (some m, seen)
  unfolding follow_one
  one_elsewhere seen m e = rw e refl

  pub one_dropped :
      (seen : List String) (m : Member)
      → str_eq m.subscription_id subscription_id ≡ true
      → let id = next_id digest previous current m.node_id in
        (str_eq id "" || has id seen) ≡ true
        → follow_one digest subscription_id previous current seen m ≡ (none, seen)
  unfolding follow_one follow_id
  one_dropped seen m e f = rw (e, f) refl

  pub one_kept :
      (seen : List String) (m : Member)
      → str_eq m.subscription_id subscription_id ≡ true
      → let id = next_id digest previous current m.node_id in
        (str_eq id "" || has id seen) ≡ false
        → follow_one digest subscription_id previous current seen m
          ≡ (some (record m { node_id = id }), id ∷ seen)
  unfolding follow_one follow_id
  one_kept seen m e f = rw (e, f) refl

  join_elsewhere :
      (seen : List String) (m : Member) (r : List Member × Bool)
      → str_eq m.subscription_id subscription_id ≡ false
      → IsSettled seen r.0
      → IsSettled seen (join_one m (some m) r).0
  unfolding join_one IsSettled
  join_elsewhere seen m (rest, c) e h = rw e h

  join_dropped :
      (seen : List String) (m : Member) (r : List Member × Bool)
      → IsSettled seen r.0
      → IsSettled seen (join_one m none r).0
  unfolding join_one
  join_dropped seen m (rest, c) h = h

  join_kept :
      (seen : List String) (m : Member) (id : String) (r : List Member × Bool)
      → str_eq m.subscription_id subscription_id ≡ true
      → (str_eq id "" || has id seen) ≡ false
      → Settles previous current id
      → IsSettled (id ∷ seen) r.0
      → IsSettled seen (join_one m (some (record m { node_id = id })) r).0
  unfolding join_one IsSettled
  join_kept seen m id (rest, c) e f k h = rw e (ground arith, ground arith, h)

  pub follow-IsSettled :
      (seen : List String) (ms : List Member)
      → IsSettled seen (follow digest subscription_id previous current seen ms).0
  follow-IsSettled seen [] = unfold IsSettled follow in tt
  follow-IsSettled seen (m ∷ ms) =
      let id = next_id digest previous current m.node_id in
      elim (Bool-cases (str_eq m.subscription_id subscription_id)) [
        | inr e ↦ rw (follow_at seen m ms (some m, seen) (one_elsewhere seen m e)) (
            join_elsewhere seen m (follow digest subscription_id previous current seen ms) e
              (follow-IsSettled seen ms))
        | inl e ↦ elim (Bool-cases (str_eq id "" || has id seen)) [
          | inl f ↦ rw (follow_at seen m ms (none, seen) (one_dropped seen m e f)) (
              join_dropped seen m (follow digest subscription_id previous current seen ms)
                (follow-IsSettled seen ms))
          | inr f ↦
              rw
                (follow_at seen m ms (some (record m { node_id = id }), id ∷ seen)
                  (one_kept seen m e f))
                (join_kept seen m id (follow digest subscription_id previous current (id ∷ seen) ms)
                  e f
                  (next_known_of digest m.node_id previous current (find_node m.node_id current)
                    refl)
                  (follow-IsSettled (id ∷ seen) ms))
        ]
      ]
