-- ===== src/Storage.antt =====
-- What the managers of stored lists share (`indexOf`, `persistLocked`, the rollback after a failed
-- save and the loop of `Reorder`; here as in internal/nodepool/manager.go and
-- internal/proxychain/manager.go). The file is replaced by a rename, so a failed save leaves it as
-- it was; its JSON is taken to be the list itself. Whether a save succeeds is an argument.
pub mod Sync
pub mod Keeps
pub mod Examples
pub mod Reorder
use sing_box_webui.Prelude.{
  ℕ, String, Bool, true, false, not, List, [], ◌∷◌, ◌++◌, Option, none, some, ◌==◌, length, has,
  str_eq, if◌then◌else◌, Result, ok, err,
}
use sing_box_webui.Prelude.Int.{ℤ}

pub record Stored (A : Type 0) : Type 0 where
  pub items : List A
  pub disk : List A

-- What an operation meets: whether the save succeeds, the time, and a fresh id.
pub record Env : Type 0 where
  pub saved : Bool
  pub now : ℤ
  pub id : String

module _ {A : Type 0} where
  -- persistLocked
  unfoldable pub persist : Bool → Stored A → Stored A × Bool
  persist true s = (record s { disk = s.items }, true)
  persist false s = (s, false)

  pub after_persist {ℓ} :
      {E : Type 0} {B : Type ℓ}
      → E
      → (List A → List A)
      → B
      → Stored A × Bool
      → Stored A × Result E B
  after_persist e undo b (s, true) = (s, ok b)
  after_persist e undo b (s, false) = (record s { items = undo s.items }, err e)

  -- The new list is installed and saved; `undo` takes it back where the save fails.
  unfoldable pub commit {ℓ} :
      {E : Type 0} {B : Type ℓ}
      → Bool
      → E
      → List A
      → (List A → List A)
      → B
      → Stored A
      → Stored A × Result E B
  unfolding persist after_persist
  commit saved e items undo b s =
      after_persist e undo b (persist saved (record s { items = items }))

  -- m.items[:len(m.items)-1]
  unfoldable pub drop_last : List A → List A
  drop_last [] = []
  drop_last (x ∷ []) = []
  drop_last (x ∷ y ∷ xs) = x ∷ drop_last (y ∷ xs)

pub data OrderError : Type 0 where
  incomplete unknown_id duplicate_id : OrderError

module _ {A : Type 0} (id_of : A → String) where
  -- m.items[m.indexOf(id)], if there is one
  unfoldable pub find : String → List A → Option A
  find id [] = none
  find id (x ∷ xs) = if str_eq (id_of x) id then some x else find id xs

  -- m.items[m.indexOf(id)] = item
  unfoldable pub replace : String → A → List A → List A
  replace id item [] = []
  replace id item (x ∷ xs) = if str_eq (id_of x) id then item ∷ xs else x ∷ replace id item xs

  -- append(m.items[:index], m.items[index+1:]...)
  unfoldable pub remove : String → List A → List A
  remove id [] = []
  remove id (x ∷ xs) = if str_eq (id_of x) id then xs else x ∷ remove id xs

  last_step : String → A → Option A → Option A
  last_step id x (some y) = some y
  last_step id x none = if str_eq (id_of x) id then some x else none

  -- m.items[indices[id]]: the loop that fills `indices` keeps the last index of an id.
  unfoldable pub find_last : String → List A → Option A
  unfolding last_step
  find_last id [] = none
  find_last id (x ∷ xs) = last_step id x (find_last id xs)

  order_step : Option A → Bool → Result OrderError (List A) → Result OrderError (List A)
  order_step none seen rest = err unknown_id
  order_step (some x) true rest = err duplicate_id
  order_step (some x) false (err e) = err e
  order_step (some x) false (ok xs) = ok (x ∷ xs)

  -- The loop of `Reorder` over the ids.
  pub order_loop : List A → List String → List String → Result OrderError (List A)
  unfolding order_step
  order_loop items seen [] = ok []
  order_loop items seen (id ∷ ids) =
      order_step (find_last id items) (has id seen) (order_loop items (id ∷ seen) ids)

  unfoldable pub reordered : List A → List String → Result OrderError (List A)
  unfolding order_loop
  reordered items ids =
      if not (length ids == length items) then err incomplete else order_loop items [] ids
