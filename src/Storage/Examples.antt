-- ===== src/Storage/Examples.antt =====
-- The theorem on reordering, applied to three texts that are their own ids.
use sing_box_webui.Prelude.{String, refl, has, [], ◌∷◌}
use sing_box_webui.Storage.{order_loop, find_last, reordered}
use sing_box_webui.Storage.Reorder.{Rearranges, reordered-Rearranges}

abbrev itself : String → String
itself s = s

-- Tests

reordered-Rearranges_example :
    Rearranges itself ("a" ∷ "b" ∷ "c" ∷ []) ("c" ∷ "a" ∷ "b" ∷ []) ("c" ∷ "a" ∷ "b" ∷ [])
reordered-Rearranges_example =
    reordered-Rearranges itself ("a" ∷ "b" ∷ "c" ∷ []) ("c" ∷ "a" ∷ "b" ∷ []) ("c" ∷ "a" ∷ "b" ∷ [])
      (unfold reordered order_loop find_last has in refl)
