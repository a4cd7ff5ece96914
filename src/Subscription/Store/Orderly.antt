-- ===== src/Subscription/Store/Orderly.antt =====
-- What every operation on the stored subscriptions keeps: one is active, each has a selection among
-- its nodes, and the file agrees with memory but for the texts of the last errors.
pub mod Calls
use sing_box_webui.Prelude.{
  ℕ, String, ◌≡◌, refl, sym, ap, subst, ◌∙◌, Bool, true, false, not, ◌&&◌, ◌||◌, List, [], ◌∷◌,
  ◌++◌, map, Option, none, some, All, All-append, arith, if◌then◌else◌, Bool-cases, inl, inr,
  str_eq, eq_iff, trim_space, Result, ok, err,
}
use sing_box_webui.Prelude.Int.{ℤ}
use sing_box_webui.Storage.{
  Stored, Env, OrderError, commit, drop_last, find, replace, remove, reordered,
}
use sing_box_webui.Storage.Sync.{commit_failed, commit_saved, drop_last-append, replace-replace}
use sing_box_webui.Storage.Keeps.{replace-All, remove-All, find_id}
use sing_box_webui.Storage.Reorder.{reordered-All, reordered-Rearranges}
use sing_box_webui.Subscription.Model.{
  Node, Subscription, CreateInput, UpdateInput, SubscriptionError, not_found, bad_interval,
  bad_name, not_saved, url_exists,
}
use sing_box_webui.Subscription.Lookup.{find_node}
use sing_box_webui.Subscription.Import.Keeps.{Continues}
use sing_box_webui.Subscription.Store.Active.{
  IsOneActive, replace-IsOneActive, activate_only-IsOneActive, delete-IsOneActive,
  insert-IsOneActive, Perm-IsOneActive,
}
use sing_box_webui.Subscription.Store.Selected.{
  IsSelectedIn, HasSelection, empty_selected, found_selected,
}
use sing_box_webui.Subscription.Store.{
  Subs, Urls, sub_id, new_subscription, is_empty, insert_checked, checked_input, insert,
  update_interval, update_auto, update_named, update_fields, update_written, update_found, update,
  activate_only, activate_found, activate, select_found, select_in, select_node, reorder_to,
  reorder, pass_on, delete_found, delete_item, has_url,
}

abbrev pub blank : Subscription → Subscription
blank s = record s { last_error = "" }

-- The file agrees with memory but for the last errors, if this is asked.
abbrev pub IsSyncedIf : Bool → Subs → Type 0
IsSyncedIf true s = map blank s.items ≡ map blank s.disk
IsSyncedIf false s = Unit {0}

pub record IsOrderly (clean : Bool) (s : Subs) : Type 0 where
  pub one : IsOneActive s.items
  pub selected : All HasSelection s.items
  pub synced : IsSyncedIf clean s

saved_synced :
    (clean : Bool) (items : List Subscription)
    → IsSyncedIf clean (record { items = items; disk = items })
saved_synced true items = refl
saved_synced false items = tt

pub commit-IsOrderly :
    {B : Type 0} (clean saved : Bool) (e : SubscriptionError) (items : List Subscription)
    (undo : List Subscription → List Subscription) (b : B) (s : Subs)
    → IsOrderly clean s
    → IsOneActive items
    → All HasSelection items
    → undo items ≡ s.items
    → IsOrderly clean (commit saved e items undo b s).0
commit-IsOrderly clean true e items undo b s h o a u =
    rw (commit_saved e items undo b s)
      (record { one = o; selected = a; synced = saved_synced clean items })
commit-IsOrderly clean false e items undo b s h o a u = rw (commit_failed e items undo b s u) h

pub found-All :
    (P : Subscription → Type 0) (id : String) (x : Subscription) (xs : List Subscription)
    → find sub_id id xs ≡ some x
    → All P xs
    → P x
unfolding find
found-All P id x [] = λ f h. absurd (ground arith)
found-All P id x (y ∷ ys) = elim (Bool-cases (str_eq y.id id)) [
  | inl e ↦ rw e (λ f h. let q : y ≡ x = cc f in subst P q h.0)
  | inr e ↦ rw e (λ f h. found-All P id x ys f h.1)
]

replaced-selected :
    (id : String) (x y : Subscription) (xs : List Subscription)
    → find sub_id id xs ≡ some x
    → Continues x y
    → All HasSelection xs
    → All HasSelection (replace sub_id id y xs)
replaced-selected id x y xs f c a =
    replace-All HasSelection sub_id id y xs (c.selection (found-All HasSelection id x xs f a)) a

-- A commit that writes an item over the one it continues.
pub replace-IsOrderly :
    {B : Type 0} (clean saved : Bool) (e : SubscriptionError) (id : String) (x y : Subscription)
    (b : B) (s : Subs)
    → find sub_id id s.items ≡ some x
    → Continues x y
    → IsOrderly clean s
    → IsOrderly clean (commit saved e (replace sub_id id y s.items) (replace sub_id id x) b s).0
replace-IsOrderly clean saved e id x y b s f c h =
    commit-IsOrderly clean saved e (replace sub_id id y s.items) (replace sub_id id x) b s h
      (replace-IsOneActive id x y s.items f c.same_active h.one)
      (replaced-selected id x y s.items f c h.selected)
      (replace-replace sub_id id x y s.items f
        ((eq_iff y.id id).1 (c.same_id ∙ find_id sub_id id s.items x f)))

blank-replace :
    (id : String) (x y : Subscription) (xs : List Subscription)
    → find sub_id id xs ≡ some x
    → blank y ≡ blank x
    → map blank (replace sub_id id y xs) ≡ map blank xs
unfolding find replace
blank-replace id x y [] = λ f b. refl
blank-replace id x y (z ∷ zs) = elim (Bool-cases (str_eq z.id id)) [
  | inl e ↦ rw e (λ f b.
      let q : z ≡ x = cc f in ap (λ (t : Subscription). t ∷ map blank zs) (b ∙ ap blank (sym q)))
  | inr e ↦
      rw e (λ f b. ap (λ (ts : List Subscription). blank z ∷ ts) (blank-replace id x y zs f b))
]

noted_synced :
    (clean : Bool) (items : List Subscription) (s : Subs)
    → map blank items ≡ map blank s.items
    → IsSyncedIf clean s
    → IsSyncedIf clean (record s { items = items })
noted_synced true items s e h = e ∙ h
noted_synced false items s e h = tt

-- Writing in memory only, an item that differs in its last error.
pub noted-IsOrderly :
    (clean : Bool) (id : String) (x y : Subscription) (s : Subs)
    → find sub_id id s.items ≡ some x
    → blank y ≡ blank x
    → IsOrderly clean s
    → IsOrderly clean (record s { items = replace sub_id id y s.items })
noted-IsOrderly clean id x y s f b h = record {
  one = replace-IsOneActive id x y s.items f (ap (λ (t : Subscription). t.active) b) h.one;
  selected =
      replaced-selected id x y s.items f
        (record {
          same_id = ap (λ (t : Subscription). t.id) b;
          same_active = ap (λ (t : Subscription). t.active) b;
          selection = subst (λ (t : Subscription). HasSelection t) (sym b);
        })
        h.selected;
  synced =
      noted_synced clean (replace sub_id id y s.items) s (blank-replace id x y s.items f b)
        h.synced;
}

pub weaker : (clean : Bool) (s : Subs) → IsOrderly clean s → IsOrderly false s
weaker clean s h = record { one = h.one; selected = h.selected; synced = tt }
