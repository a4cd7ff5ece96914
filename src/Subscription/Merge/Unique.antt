-- ===== src/Subscription/Merge/Unique.antt =====
-- What a refresh makes of the nodes: no two with one id, the imported ones kept, and one selected.
use sing_box_webui.Prelude.{
  String, ◌≡◌, refl, Bool, true, false, List, [], ◌∷◌, ◌++◌, Option, none, some, is_some,
  Bool-cases, inl, inr, str_eq, eq_iff, has,
}
use sing_box_webui.Prelude.Int.{ℤ}
use sing_box_webui.Subscription.Model.{Node, Subscription, ParseResult, FetchMetadata}
use sing_box_webui.Subscription.Lookup.{find_node}
use sing_box_webui.Subscription.Store.Selected.{
  IsSelectedIn, HasSelection, empty_selected, found_selected,
}
use sing_box_webui.Subscription.Import.Keeps.{Continues}
use sing_box_webui.Subscription.Merge.{
  merge_one, merge_node_lists, first_id, reselect, with_nodes, changed_nodes, refreshed,
}

-- No id is in `seen` or comes twice.
pub IsUnique : List String → List Node → Type 0
IsUnique seen [] = Unit {0}
IsUnique seen (n ∷ ns) = (has n.id seen ≡ false) × IsUnique (n.id ∷ seen) ns

-- The loop: what it keeps is unique, and so is what goes on from what it has seen.
merge_one-IsUnique :
    (seen : List String) (xs ys : List Node)
    → IsUnique (merge_one seen xs).1 ys
    → IsUnique seen ((merge_one seen xs).0 ++ ys)
unfolding merge_one IsUnique
merge_one-IsUnique seen [] ys = λ h. h
merge_one-IsUnique seen (x ∷ xs) ys = elim (Bool-cases (has x.id seen)) [
  | inl e ↦ rw e (merge_one-IsUnique seen xs ys)
  | inr e ↦ rw e (λ h. (e, merge_one-IsUnique (x.id ∷ seen) xs ys h))
]

IsUnique-rest : (seen : List String) (ys : List Node) → IsUnique seen (merge_one seen ys).0
unfolding merge_one IsUnique
IsUnique-rest seen [] = tt
IsUnique-rest seen (y ∷ ys) = elim (Bool-cases (has y.id seen)) [
  | inl e ↦ rw e (IsUnique-rest seen ys)
  | inr e ↦ rw e (e, IsUnique-rest (y.id ∷ seen) ys)
]

-- The merged list has no two nodes with one id, whatever the two lists were.
pub merge_node_lists-IsUnique : (xs ys : List Node) → IsUnique [] (merge_node_lists xs ys)
unfolding merge_node_lists
merge_node_lists-IsUnique xs ys =
    merge_one-IsUnique [] xs (merge_one (merge_one [] xs).1 ys).0
      (IsUnique-rest (merge_one [] xs).1 ys)

head_found : (n : Node) (ns : List Node) → is_some (find_node n.id (n ∷ ns)) ≡ true
unfolding find_node is_some
head_found n ns = rw ((eq_iff n.id n.id).1 refl) refl

first_found : (ns : List Node) → IsSelectedIn (first_id ns) ns
unfolding first_id
first_found [] = empty_selected
first_found (n ∷ ns) = found_selected n.id (n ∷ ns) (head_found n ns)

reselected :
    (k : String) (ns : List Node) (o : Option Node)
    → find_node k ns ≡ o
    → IsSelectedIn (reselect k ns o) ns
unfolding reselect
reselected k ns none e = first_found ns
reselected k ns (some n) e = elim (Bool-cases (str_eq k "")) [
  | inl f ↦ rw f (first_found ns)
  | inr f ↦ rw f (found_selected k ns (rw e (unfold is_some in refl)))
]

with_nodes-Continues :
    (result : ParseResult) (item : Subscription) → HasSelection (with_nodes result item)
unfolding with_nodes
with_nodes-Continues result item = reselected item.selected_node_id _ _ refl

changed-Continues :
    (b : Bool) (result : ParseResult) (item : Subscription)
    → Continues item (changed_nodes b result item)
unfolding changed_nodes
changed-Continues true result item = record {
  same_id = refl;
  same_active = refl;
  selection = λ h. h;
}
changed-Continues false result item = record {
  same_id = unfold with_nodes in refl;
  same_active = unfold with_nodes in refl;
  selection = λ h. with_nodes-Continues result item;
}

-- The item that a refresh stores has the id and the activity of the one before, and a selection among
-- its nodes if that one had.
pub refreshed-Continues :
    (result : ParseResult) (metadata : FetchMetadata) (now : ℤ) (item : Subscription)
    → Continues item (refreshed result metadata now item)
unfolding refreshed
refreshed-Continues result metadata now item =
    let c = changed-Continues metadata.not_modified result item in
    record { same_id = c.same_id; same_active = c.same_active; selection = c.selection }
