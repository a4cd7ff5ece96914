-- ===== src/Subscription/Store/Selected.antt =====
-- The selected node of a subscription is one of its nodes, as soon as it has any.
use sing_box_webui.Prelude.{
  String, ◌≡◌, refl, true, List, [], ◌∷◌, ◌++◌, arith, is_some, Bool-cases, inl, inr, str_eq,
  eq_iff,
}
use sing_box_webui.Subscription.Model.{Node, Subscription}
use sing_box_webui.Subscription.Lookup.{find_node}

pub IsSelectedIn : String → List Node → Type 0
IsSelectedIn selected [] = selected ≡ ""
IsSelectedIn selected (n ∷ ns) = is_some (find_node selected (n ∷ ns)) ≡ true

abbrev pub HasSelection : Subscription → Type 0
HasSelection s = IsSelectedIn s.selected_node_id s.nodes

pub found_selected :
    (selected : String) (ns : List Node)
    → is_some (find_node selected ns) ≡ true
    → IsSelectedIn selected ns
unfolding IsSelectedIn find_node is_some
found_selected selected [] h = absurd (ground arith)
found_selected selected (n ∷ ns) h = h

pub found_in :
    (n : Node) (ns : List Node) (k : String)
    → IsSelectedIn k (n ∷ ns)
    → is_some (find_node k (n ∷ ns)) ≡ true
unfolding IsSelectedIn
found_in n ns k h = h

pub nothing_selected : (k : String) → IsSelectedIn k [] → k ≡ ""
unfolding IsSelectedIn
nothing_selected k h = h

pub found-append :
    (k : String) (xs ys : List Node)
    → is_some (find_node k xs) ≡ true
    → is_some (find_node k (xs ++ ys)) ≡ true
unfolding find_node is_some
found-append k [] ys = λ h. absurd (ground arith)
found-append k (x ∷ xs) ys = elim (Bool-cases (str_eq x.id k)) [
  | inl e ↦ rw e (λ h. refl)
  | inr e ↦ rw e (λ h. found-append k xs ys h)
]

pub found_last : (n : Node) (xs : List Node) → is_some (find_node n.id (xs ++ n ∷ [])) ≡ true
unfolding find_node is_some
found_last n [] = rw ((eq_iff n.id n.id).1 refl) refl
found_last n (x ∷ xs) = elim (Bool-cases (str_eq x.id n.id)) [
  | inl e ↦ rw e refl
  | inr e ↦ rw e (found_last n xs)
]

pub empty_selected : IsSelectedIn "" []
unfolding IsSelectedIn
empty_selected = refl
