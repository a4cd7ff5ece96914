-- ===== src/ProxyChain/Resolve/LoopFree.antt =====
-- The nodes by which a chain that `resolve` returns is entered and left.
use sing_box_webui.Prelude.{
  ◌≤◌, String, ◌≡◌, refl, sym, subst, ap, arith, false, List, [], ◌∷◌, Option, none, some, ◌⊎◌, inl,
  inr, Bool-cases, length, str_eq, eq_iff, Result, ok, err, All,
}
use sing_box_webui.Subscription.Model.{Node, Subscription}
use sing_box_webui.Subscription.Lookup.{selected_node}
use sing_box_webui.Storage.{find}
use sing_box_webui.NodePool.Model.{Member, Pool, PoolError}
use sing_box_webui.NodePool.Resolve
use sing_box_webui.NodePool.Resolve.{pool_id, is_available, get, resolve_with_members}
use sing_box_webui.NodePool.Resolve.Available.{
  IsNamed, available_only, Serves, resolve_with_members_served,
}
use sing_box_webui.ProxyChain.Model.{
  NodeRef, Chain, Resolved, ChainError, entry_node_type, entry_pool_type,
}
use sing_box_webui.ProxyChain.Validate.{same_node, validate}
use sing_box_webui.ProxyChain.Validate.Named.{IsNamedChain, validate-IsNamedChain}
use sing_box_webui.ProxyChain.Resolve.{
  has_exit, with_entry, with_pool, resolve_entry, resolve_exit, resolve_chain,
}
use sing_box_webui.ProxyChain.Resolve.Apart.{IsNode, IsApart, to_node, refs-IsApart}

-- Each entry node is that of its member, and apart from the exit.
pub Enters : List Subscription → NodeRef → Node → List Member → List Node → Type 0
Enters subs exit x [] [] = Unit {0}
Enters subs exit x [] (n ∷ ns) = ⊥
Enters subs exit x (m ∷ ms) [] = ⊥
Enters subs exit x (m ∷ ms) (n ∷ ns) =
    IsNode subs m.subscription_id m.node_id n
    × IsApart m.subscription_id n exit x
    × Enters subs exit x ms ns

pub record ByNode (subs : List Subscription) (c : Chain) (r : Resolved) : Type 0 where
  pub by_node : c.entry_type ≡ entry_node_type
  pub entry : Node
  pub entered : r.entry_node ≡ some entry
  pub named : IsNode subs c.entry_node.subscription_id c.entry_node.node_id entry
  pub apart : IsApart c.entry_node.subscription_id entry c.exit_node r.exit_node

pub record ByPool (subs : List Subscription) (pools : List Pool) (c : Chain) (r : Resolved)
    : Type 0 where
  pub by_pool : c.entry_type ≡ entry_pool_type
  pub pool : Pool
  pub stored : get pools c.entry_pool_id ≡ ok pool
  pub entered : r.entry_pool ≡ some pool
  pub available : r.entry_members ≡ available_only subs pool.members
  pub enters : Enters subs c.exit_node r.exit_node r.entry_members r.entry_nodes
  pub enough : 2 ≤ length r.entry_nodes

pub record IsLoopFree (subs : List Subscription) (pools : List Pool) (c : Chain) (r : Resolved)
    : Type 0 where
  pub exit : IsNode subs c.exit_node.subscription_id c.exit_node.node_id r.exit_node
  pub entry : ByNode subs c r ⊎ ByPool subs pools c r

available-IsNamed :
    (subs : List Subscription) (ms : List Member)
    → All IsNamed ms
    → All IsNamed (available_only subs ms)
unfolding available_only
available-IsNamed subs [] h = tt
available-IsNamed subs (m ∷ ms) h = elim (Bool-cases (is_available subs m)) [
  | inl e ↦ rw e (h.0, available-IsNamed subs ms h.1)
  | inr e ↦ rw e (available-IsNamed subs ms h.1)
]

AllNamed : Option Pool → Type 0
AllNamed none = Unit {0}
AllNamed (some p) = All IsNamed p.members

find-AllNamed :
    (pools : List Pool) (id : String)
    → All (λ (p : Pool). All IsNamed p.members) pools
    → AllNamed (find pool_id id pools)
unfolding find AllNamed
find-AllNamed [] id h = tt
find-AllNamed (p ∷ ps) id h = elim (Bool-cases (str_eq p.id id)) [
  | inl e ↦ rw e (h.0)
  | inr e ↦ rw e (find-AllNamed ps id h.1)
]

get_found :
    (o : Option Pool) (p : Pool) → Resolve.or_missing o ≡ ok p → AllNamed o → All IsNamed p.members
unfolding AllNamed Resolve.or_missing
get_found none p h n = absurd (ground arith)
get_found (some q) p h n = let e : q ≡ p = cc h in subst (λ (x : Pool). All IsNamed x.members) e n

get-All :
    (pools : List Pool) (id : String) (p : Pool)
    → get pools id ≡ ok p
    → All (λ (p : Pool). All IsNamed p.members) pools
    → All IsNamed p.members
unfolding get
get-All pools id p e h = get_found (find pool_id id pools) p e (find-AllNamed pools id h)

module _ (subs : List Subscription) (pools : List Pool) (c : Chain) where
  -- What the node entry gives
  by_node :
      (x : Node) (r : Resolved) (o : Option (Subscription × Node))
      → c.entry_type ≡ entry_node_type
      → str_eq c.entry_node.node_id "" ≡ false
      → x.id ≡ c.exit_node.node_id
      → same_node c.entry_node c.exit_node ≡ false
      → selected_node subs c.entry_node.subscription_id c.entry_node.node_id ≡ o
      → with_entry c x o ≡ ok r
      → ByNode subs c r × (r.exit_node ≡ x)
  unfolding with_entry
  by_node x r none t e f d g h = absurd (ground arith)
  by_node x r (some (s, n)) t e f d g h =
      let i = to_node subs c.entry_node.subscription_id c.entry_node.node_id s n e g in
      let a =
        refs-IsApart c.exit_node c.entry_node.subscription_id c.entry_node.node_id n x i.same_id f
          d in
      subst (λ (q : Result ChainError Resolved). IsEntered x q) h
        (record { by_node = t; entry = n; entered = refl; named = i; apart = a }, refl)
    where
      IsEntered : Node → Result ChainError Resolved → Type 0
      IsEntered x (ok r) = ByNode subs c r × (r.exit_node ≡ x)
      IsEntered x (err e) = Unit {0}

  members_enter :
      (x : Node) (ms : List Member) (ns : List Node)
      → x.id ≡ c.exit_node.node_id
      → All IsNamed ms
      → has_exit c.exit_node ms ≡ false
      → Serves subs ms ns
      → Enters subs c.exit_node x ms ns
  unfolding Serves Enters has_exit
  members_enter x [] [] f h d s = tt
  members_enter x [] (n ∷ ns) f h d s = absurd s
  members_enter x (m ∷ ms) [] f h d s = absurd s
  members_enter x (m ∷ ms) (n ∷ ns) f h d ((o, e), s) =
      let i = to_node subs m.subscription_id m.node_id o n h.0 e in
      (
        i,
        refs-IsApart c.exit_node m.subscription_id m.node_id n x i.same_id f (ground arith),
        members_enter x ms ns f h.1 (ground arith) s,
      )

  IsPooled : Node → Result ChainError Resolved → Type 0
  IsPooled x (ok r) = ByPool subs pools c r × (r.exit_node ≡ x)
  IsPooled x (err e) = Unit {0}

  by_pool :
      (x : Node) (r : Resolved) (q : Result PoolError Resolve.Resolved)
      → c.entry_type ≡ entry_pool_type
      → x.id ≡ c.exit_node.node_id
      → All (λ (p : Pool). All IsNamed p.members) pools
      → resolve_with_members pools subs c.entry_pool_id ≡ q
      → with_pool c x q ≡ ok r
      → ByPool subs pools c r × (r.exit_node ≡ x)
  unfolding with_pool IsPooled
  by_pool x r (err e) t f h g = λ k. absurd (ground arith)
  by_pool x r (ok v) t f h g =
      let (p, s, same, kept, serves, two) =
        resolve_with_members_served pools subs c.entry_pool_id v g in
      let named =
        subst (All IsNamed) (sym kept)
          (available-IsNamed subs p.members (get-All pools c.entry_pool_id p s h)) in
      elim (Bool-cases (has_exit c.exit_node v.members)) [
        | inl e ↦ rw e (λ k. absurd (ground arith))
        | inr e ↦ rw e (λ k.
            subst (λ (q : Result ChainError Resolved). IsPooled x q) k
              (
                record {
                  by_pool = t;
                  pool = p;
                  stored = s;
                  entered = ap (λ (z : Pool). Option.some z) same;
                  available = kept;
                  enters = members_enter x v.members v.nodes f named e serves;
                  enough = two;
                },
                refl,
              ))
      ]

  entry_of :
      (x : Node) (r : Resolved)
      → IsNamedChain c
      → x.id ≡ c.exit_node.node_id
      → All (λ (p : Pool). All IsNamed p.members) pools
      → resolve_entry subs pools c x ≡ ok r
      → (ByNode subs c r ⊎ ByPool subs pools c r) × (r.exit_node ≡ x)
  unfolding resolve_entry
  entry_of x r v f h = elim (Bool-cases (str_eq c.entry_type entry_node_type)) [
    | inl e ↦ rw e (elim (Bool-cases (same_node c.entry_node c.exit_node)) [
      | inl d ↦ rw d (λ k. absurd (ground arith))
      | inr d ↦ rw d (λ k.
          let (b, i) =
            by_node x r (selected_node subs c.entry_node.subscription_id c.entry_node.node_id)
              ((eq_iff c.entry_type entry_node_type).0 e) (v.entry_named e) f d refl k in
          (inl b, i))
    ])
    | inr e ↦ rw e (elim (Bool-cases (str_eq c.entry_type entry_pool_type)) [
      | inr d ↦ rw d (λ k. absurd (ground arith))
      | inl d ↦ rw d (λ k.
          let (b, i) =
            by_pool x r (resolve_with_members pools subs c.entry_pool_id)
              ((eq_iff c.entry_type entry_pool_type).0 d) f h refl k in
          (inr b, i))
    ])
  ]

  exit-IsLoopFree :
      (o : Option (Subscription × Node)) (r : Resolved)
      → selected_node subs c.exit_node.subscription_id c.exit_node.node_id ≡ o
      → IsNamedChain c
      → All (λ (p : Pool). All IsNamed p.members) pools
      → resolve_exit subs pools c o ≡ ok r
      → IsLoopFree subs pools c r
  unfolding resolve_exit
  exit-IsLoopFree none r g v h k = absurd (ground arith)
  exit-IsLoopFree (some (s, x)) r g v h k =
      let i = to_node subs c.exit_node.subscription_id c.exit_node.node_id s x v.exit_named g in
      let (b, e) = entry_of x r v i.same_id h k in
      record {
        exit = subst (IsNode subs c.exit_node.subscription_id c.exit_node.node_id) (sym e) i;
        entry = b;
      }

-- A validated chain that resolves, with pools whose stored members all name a node, leaves by the stored
-- node that its exit names. By a node, it enters by the stored node that its entry names; by a pool, by
-- at least two: those of all the available members of the stored pool, one by one. No entry node has both
-- the subscription and the id of the exit node.
pub resolve_chain-IsLoopFree :
    (subs : List Subscription) (pools : List Pool) (input c : Chain) (r : Resolved)
    → validate input ≡ ok c
    → All (λ (p : Pool). All IsNamed p.members) pools
    → resolve_chain subs pools c ≡ ok r
    → IsLoopFree subs pools c r
unfolding resolve_chain
resolve_chain-IsLoopFree subs pools input c r v h k =
    exit-IsLoopFree subs pools c
      (selected_node subs c.exit_node.subscription_id c.exit_node.node_id) r refl
      (validate-IsNamedChain input c v) h k
