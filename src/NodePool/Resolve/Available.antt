-- ===== src/NodePool/Resolve/Available.antt =====
-- `ResolveWithMembers` and the available members that the view of a pool counts.
use sing_box_webui.Prelude.{
  Bool, true, Option, none, some, subst, Result, Bool-cases, inl, inr, ℕ, ◌+◌, ◌≤◌, String, ◌≡◌,
  refl, sym, ap, ◌∙◌, false, List, [], ◌∷◌, arith, ltb, length, All, str_eq, if◌then◌else◌, ok, err,
}
use sing_box_webui.Subscription.Model.{Node, Subscription}
use sing_box_webui.Subscription.Lookup.{selected_node}
use sing_box_webui.NodePool.Model.{Member, Pool, PoolError, too_few_members}
use sing_box_webui.NodePool.Resolve.{
  is_available, member_view, member_views, count_available, to_view, resolve_members, Resolved,
  enough, get, resolve_with_members,
}

-- The node id of every stored member is not empty.
abbrev pub IsNamed : Member → Type 0
IsNamed m = str_eq m.node_id "" ≡ false

available_lem :
    (subs : List Subscription) (m : Member)
    → IsNamed m
    → (member_view subs m).available ≡ is_available subs m
unfolding member_view is_available selected_node
available_lem subs m h = ground arith

resolved_one :
    (subs : List Subscription) (m : Member) (ms : List Member)
    → length (resolve_members subs (m ∷ ms)).1 ≡ (
        if is_available subs m
        then length (resolve_members subs ms).1 + 1
        else length (resolve_members subs ms).1)
unfolding resolve_members is_available
resolved_one subs m ms = ground arith

counted_one :
    (subs : List Subscription) (m : Member) (ms : List Member)
    → IsNamed m
    → count_available (member_views subs (m ∷ ms)) ≡ (
        if is_available subs m
        then count_available (member_views subs ms) + 1
        else count_available (member_views subs ms))
counted_one subs m ms h =
    unfold member_views count_available in
    ap
      (λ b.
        if b
        then count_available (member_views subs ms) + 1
        else count_available (member_views subs ms))
      (available_lem subs m h)

length-resolve_members :
    (subs : List Subscription) (ms : List Member)
    → All IsNamed ms
    → length (resolve_members subs ms).1 ≡ count_available (member_views subs ms)
length-resolve_members subs [] h = unfold resolve_members member_views count_available in refl
length-resolve_members subs (m ∷ ms) h =
    resolved_one subs m ms
    ∙ ap (λ n. if is_available subs m then n + 1 else n) (length-resolve_members subs ms h.1)
    ∙ sym (counted_one subs m ms h.0)

to_view_count :
    (subs : List Subscription) (p : Pool)
    → (to_view subs p).available_count ≡ count_available (member_views subs p.members)
to_view_count subs p = unfold to_view in refl

resolve_ok :
    (items : List Pool) (subs : List Subscription) (id : String) (p : Pool)
    → get items id ≡ ok p
    → resolve_with_members items subs id ≡ enough p (resolve_members subs p.members)
unfolding resolve_with_members
resolve_ok items subs id p g = rw g refl

-- The members that resolve to a stored node, in their order
unfoldable pub available_only : List Subscription → List Member → List Member
available_only subs [] = []
available_only subs (m ∷ ms) =
    let rest = available_only subs ms in if is_available subs m then m ∷ rest else rest

-- The nodes are those of the members, one by one.
unfoldable pub Serves : List Subscription → List Member → List Node → Type 0
Serves subs [] [] = Unit {0}
Serves subs [] (n ∷ ns) = ⊥
Serves subs (m ∷ ms) [] = ⊥
Serves subs (m ∷ ms) (n ∷ ns) =
    ((s : Subscription) × (selected_node subs m.subscription_id m.node_id ≡ some (s, n)))
    × Serves subs ms ns

-- What the resolution of a pool holds: all its available members, their nodes, and as many of them as
-- the view of the pool counts.
pub record IsResolution (subs : List Subscription) (p : Pool) (r : Resolved) : Type 0 where
  pub same_pool : r.pool ≡ p
  pub members : r.members ≡ available_only subs p.members
  pub nodes : Serves subs r.members r.nodes
  pub counted : length r.nodes ≡ (to_view subs p).available_count

-- How a resolution ends, by whether fewer than two members are available
pub Resolves : List Subscription → Pool → Bool → Result PoolError Resolved → Type 0
Resolves subs p true q = q ≡ err too_few_members
Resolves subs p false q = (r : Resolved) × (q ≡ ok r) × IsResolution subs p r

resolve_none :
    (subs : List Subscription) (m : Member) (ms : List Member)
    → selected_node subs m.subscription_id m.node_id ≡ none
    → (resolve_members subs (m ∷ ms) ≡ resolve_members subs ms) × (is_available subs m ≡ false)
unfolding resolve_members is_available
resolve_none subs m ms e = (rw (resolve_members, e) refl, rw (is_available, e) refl)

resolve_some :
    (subs : List Subscription) (m : Member) (ms : List Member) (r : Subscription × Node)
    → selected_node subs m.subscription_id m.node_id ≡ some r
    → (resolve_members subs (m ∷ ms)
        ≡ (m ∷ (resolve_members subs ms).0, r.1 ∷ (resolve_members subs ms).1))
      × (is_available subs m ≡ true)
unfolding resolve_members is_available
resolve_some subs m ms (s, n) e = (rw (resolve_members, e) refl, rw (is_available, e) refl)

served_step :
    (subs : List Subscription) (m : Member) (ms : List Member) (o : Option (Subscription × Node))
    → selected_node subs m.subscription_id m.node_id ≡ o
    → ((resolve_members subs ms).0 ≡ available_only subs ms)
      × Serves subs (resolve_members subs ms).0 (resolve_members subs ms).1
    → ((resolve_members subs (m ∷ ms)).0 ≡ available_only subs (m ∷ ms))
      × Serves subs (resolve_members subs (m ∷ ms)).0 (resolve_members subs (m ∷ ms)).1
unfolding available_only Serves
served_step subs m ms none e (a, b) = let (q, f) = resolve_none subs m ms e in rw (q, f) (a, b)
served_step subs m ms (some (s, n)) e (a, b) =
    let (q, f) = resolve_some subs m ms (s, n) e in
    rw (q, f) (ap (λ (xs : List Member). m ∷ xs) a, ((s, e), b))

resolve_members-Serves :
    (subs : List Subscription) (ms : List Member)
    → ((resolve_members subs ms).0 ≡ available_only subs ms)
      × Serves subs (resolve_members subs ms).0 (resolve_members subs ms).1
resolve_members-Serves subs [] = unfold resolve_members available_only Serves in (refl, tt)
resolve_members-Serves subs (m ∷ ms) =
    served_step subs m ms (selected_node subs m.subscription_id m.node_id) refl
      (resolve_members-Serves subs ms)

enough-Resolves :
    (subs : List Subscription) (p : Pool) (q : List Member × List Node) (n : ℕ)
    → length q.1 ≡ n
    → n ≡ (to_view subs p).available_count
    → (q.0 ≡ available_only subs p.members) × Serves subs q.0 q.1
    → Resolves subs p (ltb n 2) (enough p q)
unfolding enough Resolves
enough-Resolves subs p (ms, ns) n e c (a, b) = elim (Bool-cases (ltb n 2)) [
  | inl f ↦ rw (e, f) refl
  | inr f ↦
      rw (e, f)
        (
          record { pool = p; members = ms; nodes = ns },
          refl,
          record { same_pool = refl; members = a; nodes = b; counted = e ∙ c },
        )
]

-- A pool whose stored members all name a node fails to resolve with `too_few_members` where its view
-- counts fewer than two members as available. Otherwise it resolves to itself with all its available
-- members, in their order, and for each of them the node that it refers to; there are as many as the
-- view counts.
pub resolve_with_members-Resolves :
    (items : List Pool) (subs : List Subscription) (id : String) (p : Pool)
    → get items id ≡ ok p
    → All IsNamed p.members
    → Resolves subs p (ltb (to_view subs p).available_count 2) (resolve_with_members items subs id)
resolve_with_members-Resolves items subs id p g h =
    let c = length-resolve_members subs p.members h ∙ sym (to_view_count subs p) in
    rw (resolve_ok items subs id p g) (
      enough-Resolves subs p (resolve_members subs p.members) (to_view subs p).available_count c
        refl (resolve_members-Serves subs p.members))

enough_served :
    (subs : List Subscription) (p : Pool) (q : List Member × List Node) (r : Resolved)
    → (q.0 ≡ available_only subs p.members) × Serves subs q.0 q.1
    → enough p q ≡ ok r
    → (r.pool ≡ p)
      × (r.members ≡ available_only subs p.members)
      × Serves subs r.members r.nodes
      × (2 ≤ length r.nodes)
unfolding enough
enough_served subs p (ms, ns) r (a, b) = elim (Bool-cases (ltb (length ns) 2)) [
  | inl f ↦ rw f (λ e. absurd (ground arith))
  | inr f ↦ rw f (λ e.
      let w : ◌≡◌ {A = Resolved} (record { pool = p; members = ms; nodes = ns }) r = cc e in
      subst
        (λ (x : Resolved).
          (x.pool ≡ p)
          × (x.members ≡ available_only subs p.members)
          × Serves subs x.members x.nodes
          × (2 ≤ length x.nodes))
        w (refl, a, b, ground arith))
]

get_served :
    (items : List Pool) (subs : List Subscription) (id : String) (r : Resolved)
    (g : Result PoolError Pool)
    → get items id ≡ g
    → resolve_with_members items subs id ≡ ok r
    → (p : Pool) × (get items id ≡ ok p)
      × (r.pool ≡ p)
      × (r.members ≡ available_only subs p.members)
      × Serves subs r.members r.nodes
      × (2 ≤ length r.nodes)
unfolding resolve_with_members
get_served items subs id r (err e) g = rw g (λ h. absurd (ground arith))
get_served items subs id r (ok p) g = rw g (λ h.
    let t =
      enough_served subs p (resolve_members subs p.members) r
        (resolve_members-Serves subs p.members) h in
    (p, refl, t.0, t.1, t.2, t.3))

-- What a resolution that succeeds holds, of the stored pool that it is of.
pub resolve_with_members_served :
    (items : List Pool) (subs : List Subscription) (id : String) (r : Resolved)
    → resolve_with_members items subs id ≡ ok r
    → (p : Pool) × (get items id ≡ ok p)
      × (r.pool ≡ p)
      × (r.members ≡ available_only subs p.members)
      × Serves subs r.members r.nodes
      × (2 ≤ length r.nodes)
resolve_with_members_served items subs id r h = get_served items subs id r (get items id) refl h
