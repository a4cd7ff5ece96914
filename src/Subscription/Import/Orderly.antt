-- ===== src/Subscription/Import/Orderly.antt =====
-- An import keeps what every operation keeps.
use sing_box_webui.Prelude.{
  ℕ, String, ◌≡◌, refl, ◌∙◌, Bool, true, false, Bool-cases, inl, inr, List, [], ◌∷◌, Option, none,
  some, ltb, Result, ok, err,
}
use sing_box_webui.Storage.{Env, find}
use sing_box_webui.Subscription.Model.{Node, Subscription, SubscriptionError, not_saved}
use sing_box_webui.Subscription.Store.{Subs, sub_id}
use sing_box_webui.Subscription.Store.Orderly.{IsOrderly, replace-IsOrderly}
use sing_box_webui.Subscription.Import.Keeps.{Continues, import_loop-Continues}
use sing_box_webui.Subscription.Import.{
  ParsedItem, Importing, import_loop, begin_import, save_import, import_found, import_parsed,
  parse_lines, import_nodes, max_import_text_bytes,
}

save_import-IsOrderly :
    (clean : Bool) (env : Env) (id : String) (x : Subscription) (s : Subs) (a : Importing)
    (b : Bool)
    → find sub_id id s.items ≡ some x
    → Continues x a.item
    → IsOrderly clean s
    → IsOrderly clean (save_import env id x s a b).0
unfolding save_import
save_import-IsOrderly clean env id x s a true f c h =
    replace-IsOrderly clean env.saved not_saved id x a.item a s f c h
save_import-IsOrderly clean env id x s a false f c h = h

begun :
    (ps : List ParsedItem) (x : Subscription) → Continues x (import_loop ps (begin_import x)).item
begun ps x =
    let c = import_loop-Continues ps (begin_import x) in
    record {
      same_id = c.same_id ∙ unfold begin_import in refl;
      same_active = c.same_active ∙ unfold begin_import in refl;
      selection = λ h. c.selection (unfold begin_import in h);
    }

import_found-IsOrderly :
    (clean : Bool) (env : Env) (id : String) (ps : List ParsedItem) (s : Subs)
    (o : Option Subscription)
    → find sub_id id s.items ≡ o
    → IsOrderly clean s
    → IsOrderly clean (import_found env id ps s o).0
unfolding import_found
import_found-IsOrderly clean env id ps s none f h = h
import_found-IsOrderly clean env id ps s (some x) f h =
    let a = import_loop ps (begin_import x) in
    save_import-IsOrderly clean env id x s a a.changed f (begun ps x) h

import_parsed-IsOrderly :
    (clean : Bool) (env : Env) (id : String) (s : Subs)
    (r : Result SubscriptionError (List ParsedItem))
    → IsOrderly clean s
    → IsOrderly clean (import_parsed env id s r).0
unfolding import_parsed
import_parsed-IsOrderly clean env id s (err e) h = h
import_parsed-IsOrderly clean env id s (ok []) h = h
import_parsed-IsOrderly clean env id s (ok (p ∷ ps)) h =
    import_found-IsOrderly clean env id (p ∷ ps) s (find sub_id id s.items) refl h

pub import_nodes-IsOrderly :
    (clean : Bool) (parse_link : String → Result String Node) (env : Env) (id : String) (bytes : ℕ)
    (lines : List (ℕ × String)) (s : Subs)
    → IsOrderly clean s
    → IsOrderly clean (import_nodes parse_link env id bytes lines s).0
unfolding import_nodes
import_nodes-IsOrderly clean parse_link env id bytes lines s h =
    elim (Bool-cases (ltb max_import_text_bytes bytes)) [
      | inl e ↦ rw e h
      | inr e ↦ rw e (import_parsed-IsOrderly clean env id s (parse_lines parse_link 0 lines) h)
    ]
