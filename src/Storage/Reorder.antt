-- ===== src/Storage/Reorder.antt =====
-- A successful reordering neither loses nor adds an item, and follows the ids that were given.
use mathlib.Core.Path.{subst}
use mathlib.Core.List.Perm
use mathlib.Core.List.{Perm}
use sing_box_webui.Prelude.{
  suc, String, ◌≡◌, ◌≢◌, refl, sym, ap, ◌∙◌, Bool, true, false, List, [], ◌∷◌, Option, none, some,
  arith, map, ◌==◌, length, has, str_eq, Bool-cases, Option-cases, inl, inr, if◌then◌else◌, Result,
  ok, err, eq_iff, or_false, All,
}
use sing_box_webui.Storage.{find_last, last_step, order_step, order_loop, reordered, OrderError}

module _ {A : Type 0} (id_of : A → String) where
  -- The list without the item that `find_last` finds.
  remove_last : String → List A → List A
  remove_last id [] = []
  remove_last id (x ∷ xs) = elim (find_last id_of id xs) [
    | some y ↦ x ∷ remove_last id xs
    | none ↦ if str_eq (id_of x) id then xs else x ∷ xs
  ]

  -- What `find_last` says of a list with one more item.
  found_below :
      (id : String) (x y : A) (xs : List A)
      → find_last id_of id xs ≡ some y
      → (find_last id_of id (x ∷ xs) ≡ some y) × (remove_last id (x ∷ xs) ≡ x ∷ remove_last id xs)
  unfolding find_last remove_last
  found_below id x y xs e = (rw (e, find_last), rw (e, remove_last))

  found_here :
      (id : String) (x : A) (xs : List A)
      → find_last id_of id xs ≡ none
      → str_eq (id_of x) id ≡ true
      → (find_last id_of id (x ∷ xs) ≡ some x) × (remove_last id (x ∷ xs) ≡ xs)
  unfolding find_last remove_last
  found_here id x xs e t = (rw (e, find_last) (rw t), rw (e, remove_last) (rw t))

  stays :
      (id : String) (x : A) (xs : List A)
      → find_last id_of id xs ≡ none
      → str_eq (id_of x) id ≡ false
      → remove_last id (x ∷ xs) ≡ x ∷ xs
  unfolding remove_last
  stays id x xs e t = rw (e, remove_last) (rw t)

  found_nowhere :
      (id : String) (x : A) (xs : List A)
      → find_last id_of id xs ≡ none
      → str_eq (id_of x) id ≡ false
      → find_last id_of id (x ∷ xs) ≡ none
  unfolding find_last
  found_nowhere id x xs e t = rw (e, find_last) (rw t)

  abbrev Removes : String → A → List A → Type 0
  Removes id y xs =
      Perm xs (y ∷ remove_last id xs)
      × (id_of y ≡ id)
      × (length xs ≡ suc (length (remove_last id xs)))

  find_last-Removes :
      (id : String) (y : A) (xs : List A) → find_last id_of id xs ≡ some y → Removes id y xs
  find_last-Removes id y [] h = unfold find_last in cc h
  find_last-Removes id y (x ∷ xs) h = elim (Option-cases (find_last id_of id xs)) [
    | inl e ↦ elim (Bool-cases (str_eq (id_of x) id)) [
      | inl t ↦
          let f = found_here id x xs e t in
          let p : x ≡ y = cc (f.0, h) in
          rw (f.1, ← p) (Perm.refl (x ∷ xs), (eq_iff (id_of x) id).0 t, refl)
      | inr t ↦ cc (found_nowhere id x xs e t, h)
    ]
    | inr (z, e) ↦
        let f = found_below id x z xs e in
        let p : z ≡ y = cc (f.0, h) in
        let r = find_last-Removes id y xs (e ∙ ap some p) in
        rw f.1 (
          Perm.trans (Perm.cons x r.0) (Perm.swap y x (remove_last id xs)),
          r.1,
          omega (arith, r.2),
        )
  ]

  last_step_other :
      (id j : String) (x : A) (o : Option A) → id_of x ≡ id → id ≢ j → last_step id_of j x o ≡ o
  unfolding last_step
  last_step_other id j x (some y) e h = refl
  last_step_other id j x none e h = elim (Bool-cases (str_eq (id_of x) j)) [
    | inl t ↦ absurd (h (sym e ∙ (eq_iff (id_of x) j).0 t))
    | inr t ↦ rw t
  ]

  find_last_cong :
      (j : String) (x : A) (xs ys : List A)
      → find_last id_of j xs ≡ find_last id_of j ys
      → find_last id_of j (x ∷ xs) ≡ find_last id_of j (x ∷ ys)
  unfolding find_last
  find_last_cong j x xs ys e = ap (last_step id_of j x) e

  find_last-other :
      (id j : String) (xs : List A)
      → id ≢ j
      → find_last id_of j (remove_last id xs) ≡ find_last id_of j xs
  find_last-other id j [] h = unfold remove_last in refl
  find_last-other id j (x ∷ xs) h = elim (Option-cases (find_last id_of id xs)) [
    | inl e ↦ elim (Bool-cases (str_eq (id_of x) id)) [
      | inl t ↦ rw (found_here id x xs e t).1 (
          sym (
            unfold find_last in
            last_step_other id j x (find_last id_of j xs) ((eq_iff (id_of x) id).0 t) h))
      | inr t ↦ rw (stays id x xs e t)
    ]
    | inr (z, e) ↦
        rw (found_below id x z xs e).1
          (find_last_cong j x (remove_last id xs) xs (find_last-other id j xs h))
  ]

  -- The items in the order of the ids.
  abbrev pub Rearranges : List A → List String → List A → Type 0
  Rearranges items ids out = Perm items out × (map id_of out ≡ ids)

  -- What a step that succeeds has found.
  order_step-ok :
      (o : Option A) (seen : Bool) (r : Result OrderError (List A)) (out : List A)
      → order_step id_of o seen r ≡ ok out
      → (x : A) × (xs : List A) × (o ≡ some x) × (seen ≡ false) × (r ≡ ok xs) × (x ∷ xs ≡ out)
  unfolding order_step
  order_step-ok none seen r out h = cc h
  order_step-ok (some x) true r out h = cc h
  order_step-ok (some x) false (err e) out h = cc h
  order_step-ok (some x) false (ok xs) out h = (x, xs, refl, refl, refl, cc h)

  -- `rest` still holds, of the items, those whose ids have not been seen.
  abbrev Agrees : List A → List A → List String → Type 0
  Agrees items rest seen =
      (j : String) → has j seen ≡ false → find_last id_of j rest ≡ find_last id_of j items

  Agrees-next :
      (items rest : List A) (seen : List String) (id : String)
      → Agrees items rest seen
      → Agrees items (remove_last id rest) (id ∷ seen)
  Agrees-next items rest seen id a j h =
      let t = or_false (str_eq id j) (has j seen) (unfold has in h) in
      find_last-other id j rest (λ e. cc ((eq_iff id j).1 e, t.0)) ∙ a j t.1

  nil_of_length : (xs : List A) → 0 ≡ length xs → Perm xs []
  nil_of_length [] h = Perm.refl []
  nil_of_length (x ∷ xs) h = absurd (omega arith)

  order_loop-Rearranges :
      (items rest : List A) (seen ids : List String) (out : List A)
      → Agrees items rest seen
      → length ids ≡ length rest
      → order_loop id_of items seen ids ≡ ok out
      → Rearranges rest ids out
  unfolding order_loop
  order_loop-Rearranges items rest seen [] [] a l h = (nil_of_length rest l, refl)
  order_loop-Rearranges items rest seen [] (o ∷ out) a l h = cc h
  order_loop-Rearranges items rest seen (id ∷ ids) out a l h =
      let (x, xs, found, fresh, tail_ok, e) =
        order_step-ok (find_last id_of id items) (has id seen)
          (order_loop id_of items (id ∷ seen) ids) out h in
      let r = find_last-Removes id x rest (a id fresh ∙ found) in
      let ih =
        order_loop-Rearranges items (remove_last id rest) (id ∷ seen) ids xs
          (Agrees-next items rest seen id a) (omega (arith, r.2)) tail_ok in
      rw (← e) (Perm.trans r.0 (Perm.cons x ih.0), cc (r.1, ih.1))

  -- A reordering that is accepted holds the items of the list, each as often, in the order of the ids.
  pub reordered-Rearranges :
      (items : List A) (ids : List String) (out : List A)
      → reordered id_of items ids ≡ ok out
      → Rearranges items ids out
  unfolding reordered
  reordered-Rearranges items ids out = elim (Bool-cases (length ids == length items)) [
    | inl e ↦
        rw e (λ h. order_loop-Rearranges items items [] ids out (λ j _. refl) (ground arith) h)
    | inr e ↦ rw e (λ h. cc h)
  ]

  find_last-All {ℓ} :
      (P : A → Type ℓ) (id : String) (xs : List A) (x : A)
      → All P xs
      → find_last id_of id xs ≡ some x
      → P x
  find_last-All P id [] x h e = unfold find_last in cc e
  find_last-All P id (y ∷ ys) x h e = elim (Option-cases (find_last id_of id ys)) [
    | inl f ↦ elim (Bool-cases (str_eq (id_of y) id)) [
      | inl t ↦ let p : y ≡ x = cc ((found_here id y ys f t).0, e) in subst P p h.0
      | inr t ↦ cc (found_nowhere id y ys f t, e)
    ]
    | inr (z, f) ↦
        let p : z ≡ x = cc ((found_below id y z ys f).0, e) in
        find_last-All P id ys x h.1 (f ∙ ap some p)
  ]

  order_loop-All {ℓ} :
      (P : A → Type ℓ) (items : List A) (seen ids : List String) (out : List A)
      → All P items
      → order_loop id_of items seen ids ≡ ok out
      → All P out
  unfolding order_loop
  order_loop-All P items seen [] [] a h = tt
  order_loop-All P items seen [] (o ∷ out) a h = cc h
  order_loop-All P items seen (id ∷ ids) out a h =
      let (x, xs, found, fresh, tail_ok, e) =
        order_step-ok (find_last id_of id items) (has id seen)
          (order_loop id_of items (id ∷ seen) ids) out h in
      subst (All P) e
        (find_last-All P id items x a found, order_loop-All P items (id ∷ seen) ids xs a tail_ok)

  pub reordered-All {ℓ} :
      (P : A → Type ℓ) (items : List A) (ids : List String) (out : List A)
      → All P items
      → reordered id_of items ids ≡ ok out
      → All P out
  unfolding reordered
  reordered-All P items ids out a = elim (Bool-cases (length ids == length items)) [
    | inl e ↦ rw e (λ h. order_loop-All P items [] ids out a h)
    | inr e ↦ rw e (λ h. cc h)
  ]
