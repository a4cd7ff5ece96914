-- ===== src/Wiring/Finds.antt =====
-- What the stored subscriptions answer for an id, once one of them is replaced, removed or added.
use sing_box_webui.Prelude.{
  String, ◌≡◌, refl, ap, ◌∙◌, Bool, true, false, List, [], ◌∷◌, ◌++◌, none, some, All, arith,
  Bool-cases, inl, inr, str_eq, eq_iff, Result, ok, err, is_some,
}
use sing_box_webui.Storage.{find, replace, remove}
use sing_box_webui.Subscription.Model.{Node, Subscription}
use sing_box_webui.Subscription.Lookup.{find_node}
use sing_box_webui.Subscription.Store.{sub_id, pass_on}
use sing_box_webui.NodePool.Model.{Member, Pool, PoolError}
use sing_box_webui.NodePool.Store.{Pools}
use sing_box_webui.NodePool.Reconcile.Lands.{IsOn, AllMembers}
use sing_box_webui.Wiring.{error_text, nodes_found, nodes_of}

pub no_text :
    (render : PoolError → String) (r : Pools × Result PoolError (Unit {0}))
    → (error_text render r).1 ≡ none
    → ((error_text render r).0 ≡ r.0) × (r.1 ≡ ok tt)
unfolding error_text
no_text render (s, ok _) h = (refl, refl)
no_text render (s, err e) h = absurd (ground arith)

pub found_replaced :
    (id : String) (x y : Subscription) (xs : List Subscription)
    → find sub_id id xs ≡ some x
    → str_eq y.id id ≡ true
    → find sub_id id (replace sub_id id y xs) ≡ some y
unfolding find replace
found_replaced id x y [] = λ f e. absurd (ground arith)
found_replaced id x y (z ∷ zs) = elim (Bool-cases (str_eq z.id id)) [
  | inl g ↦ rw g (λ f e. rw e refl)
  | inr g ↦ rw g (λ f e. rw g (found_replaced id x y zs f e))
]

-- Two ids that differ are told apart by any third.
pub apart : (a id k : String) → str_eq id k ≡ false → str_eq a id ≡ true → str_eq a k ≡ false
apart a id k d e = ap (λ x. str_eq x k) ((eq_iff a id).0 e) ∙ d

pub other_replaced :
    (id k : String) (y : Subscription) (xs : List Subscription)
    → str_eq id k ≡ false
    → str_eq y.id id ≡ true
    → find sub_id k (replace sub_id id y xs) ≡ find sub_id k xs
unfolding find replace
other_replaced id k y [] d e = refl
other_replaced id k y (z ∷ zs) d e =
    let p = apart y.id id k d e in
    elim (Bool-cases (str_eq z.id id)) [
      | inl g ↦ let q = apart z.id id k d g in rw (g, p, q) refl
      | inr g ↦ let h = other_replaced id k y zs d e in rw (g, h) refl
    ]

pub other_removed :
    (id k : String) (xs : List Subscription)
    → str_eq id k ≡ false
    → find sub_id k (remove sub_id id xs) ≡ find sub_id k xs
unfolding find remove
other_removed id k [] d = refl
other_removed id k (z ∷ zs) d = elim (Bool-cases (str_eq z.id id)) [
  | inl g ↦ let q = apart z.id id k d g in rw (g, q) refl
  | inr g ↦ let h = other_removed id k zs d in rw (g, h) refl
]

-- Passing the activity on keeps the nodes.
pub nodes_passed :
    (k : String) (b : Bool) (xs : List Subscription) → nodes_of k (pass_on b xs) ≡ nodes_of k xs
nodes_passed k b [] = unfold pass_on in refl
nodes_passed k false (x ∷ xs) = unfold pass_on in refl
nodes_passed k true (x ∷ xs) = elim (Bool-cases (str_eq x.id k)) [
  | inl e ↦ unfold pass_on nodes_of nodes_found find in rw e refl
  | inr e ↦ unfold pass_on nodes_of nodes_found find in rw e refl
]

pub nodes_added_of :
    (k : String) (x : Subscription) (xs : List Subscription)
    → x.nodes ≡ []
    → nodes_found (find sub_id k (xs ++ x ∷ [])) ≡ nodes_found (find sub_id k xs)
unfolding find nodes_found
nodes_added_of k x [] n = elim (Bool-cases (str_eq x.id k)) [ inl e ↦ rw e n | inr e ↦ rw e refl ]
nodes_added_of k x (y ∷ ys) n = elim (Bool-cases (str_eq y.id k)) [
  | inl e ↦ rw e refl
  | inr e ↦ rw e (nodes_added_of k x ys n)
]

-- Where no member is of a subscription, its members are on any nodes.
pub IsOn-any :
    (id : String) (nodes : List Node) (ps : List Pool)
    → All (AllMembers (IsOn id [])) ps
    → All (AllMembers (IsOn id nodes)) ps
IsOn-any id nodes [] h = tt
IsOn-any id nodes (p ∷ ps) h =
    (unfold AllMembers in members_on p.members h.0, IsOn-any id nodes ps h.1)
  where
    members_on : (ms : List Member) → All (IsOn id []) ms → All (IsOn id nodes) ms
    members_on [] h = tt
    members_on (m ∷ ms) h = (
      unfold IsOn find_node is_some in λ e. let g = h.0 e in absurd (ground arith),
      members_on ms h.1,
    )
