-- ===== src/Subscription/Import/Keeps.antt =====
-- An import keeps a subscription's identity, and its selection among its nodes.
use sing_box_webui.Prelude.{
  ℕ, String, ◌≡◌, refl, ◌∙◌, true, false, List, [], ◌∷◌, ◌++◌, arith, if◌then◌else◌, is_some,
  Bool-cases, inl, inr, str_eq, eq_iff, has, Result, ok, err,
}
use sing_box_webui.Subscription.Model.{Node, Subscription}
use sing_box_webui.Subscription.Lookup.{find_node}
use sing_box_webui.Subscription.Store.Selected.{
  IsSelectedIn, HasSelection, found_selected, found_in, nothing_selected, found-append, found_last,
}
use sing_box_webui.Subscription.Import.{
  ParsedItem, Importing, replace_node, import_duplicate, import_added, import_invalid, import_node,
  import_loop,
}

found-replace_node :
    (k : String) (n : Node) (xs : List Node)
    → is_some (find_node k xs) ≡ true
    → is_some (find_node k (replace_node n xs)) ≡ true
unfolding find_node replace_node is_some
found-replace_node k n [] = λ h. h
found-replace_node k n (x ∷ xs) = elim (Bool-cases (str_eq x.id n.id)) [
  | inl e ↦
      let same : x.id ≡ n.id = (eq_iff x.id n.id).0 e in
      rw (e, same)
        (elim (Bool-cases (str_eq n.id k)) [ inl f ↦ rw f (λ h. refl) | inr f ↦ rw f (λ h. h) ])
  | inr e ↦ rw e (elim (Bool-cases (str_eq x.id k)) [
    | inl f ↦ rw f (λ h. refl)
    | inr f ↦ rw f (found-replace_node k n xs)
  ])
]

replaced_selected :
    (k : String) (n : Node) (xs : List Node)
    → IsSelectedIn k xs
    → IsSelectedIn k (replace_node n xs)
replaced_selected k n [] h = unfold replace_node in h
replaced_selected k n (x ∷ xs) h =
    found_selected k (replace_node n (x ∷ xs)) (found-replace_node k n (x ∷ xs) (found_in x xs k h))

-- Of a selection that is not empty
appended_selected :
    (k : String) (n : Node) (xs : List Node)
    → str_eq k "" ≡ false
    → IsSelectedIn k xs
    → IsSelectedIn k (xs ++ n ∷ [])
appended_selected k n [] e h =
    let t = (eq_iff k "").1 (nothing_selected k h) in absurd (ground arith)
appended_selected k n (x ∷ xs) e h =
    found_selected k (x ∷ xs ++ n ∷ []) (found-append k (x ∷ xs) (n ∷ []) (found_in x xs k h))

added_selected :
    (k : String) (n : Node) (xs : List Node)
    → IsSelectedIn k xs
    → IsSelectedIn (if str_eq k "" then n.id else k) (xs ++ n ∷ [])
added_selected k n xs h = elim (Bool-cases (str_eq k "")) [
  | inl e ↦ rw e (found_selected n.id (xs ++ n ∷ []) (found_last n xs))
  | inr e ↦ rw e (appended_selected k n xs e h)
]

-- What one step of the loop leaves of an item.
pub record Continues (x y : Subscription) : Type 0 where
  pub same_id : y.id ≡ x.id
  pub same_active : y.active ≡ x.active
  pub selection : HasSelection x → HasSelection y

duplicate-Continues :
    (line : ℕ) (n : Node) (a : Importing) → Continues a.item (import_duplicate line n a).item
unfolding import_duplicate
duplicate-Continues line n a = record {
  same_id = refl;
  same_active = refl;
  selection = replaced_selected a.item.selected_node_id n a.item.nodes;
}

added-Continues :
    (line : ℕ) (n : Node) (a : Importing) → Continues a.item (import_added line n a).item
unfolding import_added
added-Continues line n a = record {
  same_id = refl;
  same_active = refl;
  selection = added_selected a.item.selected_node_id n a.item.nodes;
}

import_node-Continues :
    (line : ℕ) (r : Result String Node) (a : Importing)
    → Continues a.item (import_node line r a).item
unfolding import_node import_invalid
import_node-Continues line (err e) a = record {
  same_id = refl;
  same_active = refl;
  selection = λ h. h;
}
import_node-Continues line (ok n) a = elim (Bool-cases (has n.id a.existing)) [
  | inl e ↦ rw e (duplicate-Continues line n a)
  | inr e ↦ rw e (added-Continues line n a)
]

pub import_loop-Continues :
    (ps : List ParsedItem) (a : Importing) → Continues a.item (import_loop ps a).item
unfolding import_loop
import_loop-Continues [] a = record { same_id = refl; same_active = refl; selection = λ h. h }
import_loop-Continues (p ∷ ps) a =
    let first = import_node-Continues p.line p.node a in
    let rest = import_loop-Continues ps (import_node p.line p.node a) in
    record {
      same_id = rest.same_id ∙ first.same_id;
      same_active = rest.same_active ∙ first.same_active;
      selection = λ h. rest.selection (first.selection h);
    }
