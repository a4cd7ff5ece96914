-- ===== src/Storage/Sync.antt =====
-- The list in memory and the list in the file stay the same, whether or not a save succeeds.
use sing_box_webui.Prelude.{
  String, ◌≡◌, refl, ◌∙◌, arith, Bool, true, false, List, [], ◌∷◌, ◌++◌, some, str_eq, ok, err,
}
use sing_box_webui.Storage.{Stored, commit, drop_last, find, replace}

abbrev pub IsSynced : {A : Type 0} → Stored A → Type 0
IsSynced s = s.items ≡ s.disk

module _ {A E B : Type 0} where
  pub commit-IsSynced :
      (saved : Bool) (e : E) (items : List A) (undo : List A → List A) (b : B) (s : Stored A)
      → undo items ≡ s.items
      → IsSynced s
      → IsSynced (commit saved e items undo b s).0
  unfolding commit
  commit-IsSynced true e items undo b s u h = refl
  commit-IsSynced false e items undo b s u h = u ∙ h

  -- A commit that fails leaves the store as it was.
  pub commit_failed :
      (e : E) (items : List A) (undo : List A → List A) (b : B) (s : Stored A)
      → undo items ≡ s.items
      → commit false e items undo b s ≡ (s, err e)
  unfolding commit
  commit_failed e items undo b s u = rw u

  pub commit_saved :
      (e : E) (items : List A) (undo : List A → List A) (b : B) (s : Stored A)
      → commit true e items undo b s ≡ (record { items = items; disk = items }, ok b)
  unfolding commit
  commit_saved e items undo b s = refl

pub drop_last-append : {A : Type 0} (xs : List A) (x : A) → drop_last (xs ++ x ∷ []) ≡ xs
unfolding drop_last
drop_last-append [] x = refl
drop_last-append (y ∷ []) x = refl
drop_last-append (y ∷ z ∷ xs) x = rw (drop_last-append (z ∷ xs) x)

module _ {A : Type 0} (id_of : A → String) where
  -- Writing an item back over its replacement, which has its id, restores the list.
  pub replace-replace :
      (id : String) (x y : A) (xs : List A)
      → find id_of id xs ≡ some x
      → str_eq (id_of y) id ≡ true
      → replace id_of id x (replace id_of id y xs) ≡ xs
  unfolding find replace
  replace-replace id x y [] h k = refl
  replace-replace id x y (z ∷ zs) h k = ground (arith, replace-replace id x y zs)
