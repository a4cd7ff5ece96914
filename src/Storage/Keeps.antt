-- ===== src/Storage/Keeps.antt =====
-- A store whose file and memory agree and whose items all have a property.
use sing_box_webui.Prelude.{
  String, ◌≡◌, refl, sym, ap, ◌∙◌, Bool, true, false, List, [], ◌∷◌, some, All, str_eq, eq_iff,
  Bool-cases, inl, inr,
}
use sing_box_webui.Storage.{Stored, commit, find, replace, remove}
use sing_box_webui.Storage.Sync.{IsSynced, commit_failed, commit_saved}

module _ {A : Type 0} (P : A → Type 0) where
  pub record Keeps (s : Stored A) : Type 0 where
    pub synced : IsSynced s
    pub all : All P s.items

  -- A commit keeps this if the new list has the property and `undo` restores the old one.
  pub commit-Keeps :
      {E B : Type 0} (saved : Bool) (e : E) (items : List A) (undo : List A → List A) (b : B)
      (s : Stored A)
      → Keeps s
      → All P items
      → undo items ≡ s.items
      → Keeps (commit saved e items undo b s).0
  commit-Keeps true e items undo b s h v u =
      rw (commit_saved e items undo b s) (record { synced = refl; all = v })
  commit-Keeps false e items undo b s h v u = rw (commit_failed e items undo b s u) h

  module _ (id_of : A → String) where
    pub replace-All :
        (id : String) (x : A) (xs : List A) → P x → All P xs → All P (replace id_of id x xs)
    unfolding replace
    replace-All id x [] v h = tt
    replace-All id x (y ∷ ys) v h = elim (Bool-cases (str_eq (id_of y) id)) [
      | inl e ↦ rw e (v, h.1)
      | inr e ↦ rw e (h.0, replace-All id x ys v h.1)
    ]

    pub remove-All : (id : String) (xs : List A) → All P xs → All P (remove id_of id xs)
    unfolding remove
    remove-All id [] h = tt
    remove-All id (y ∷ ys) h = elim (Bool-cases (str_eq (id_of y) id)) [
      | inl e ↦ rw e h.1
      | inr e ↦ rw e (h.0, remove-All id ys h.1)
    ]

-- What `find` finds has the id.
pub find_id :
    {A : Type 0} (id_of : A → String) (id : String) (xs : List A) (x : A)
    → find id_of id xs ≡ some x
    → id_of x ≡ id
unfolding find
find_id id_of id [] x = λ h. cc h
find_id id_of id (y ∷ ys) x = elim (Bool-cases (str_eq (id_of y) id)) [
  | inl e ↦ rw e (λ h. let q : y ≡ x = cc h in ap id_of (sym q) ∙ (eq_iff (id_of y) id).0 e)
  | inr e ↦ rw e (find_id id_of id ys x)
]
