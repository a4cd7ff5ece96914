-- ===== src/NodePool/Store/Keeps.antt =====
-- Every operation on the stored pools keeps the pools valid and the file in step with memory, and
-- changes nothing when it returns an error.
use sing_box_webui.Prelude.{
  String, ◌≡◌, refl, sym, ap, ◌∙◌, Bool, true, false, List, [], ◌∷◌, ◌++◌, map, Option, none, some,
  All, All-append, arith, str_eq, eq_iff, Bool-cases, inl, inr, Result, ok, err,
}
use sing_box_webui.Prelude.Int.{ℤ}
use sing_box_webui.Subscription.Model.{Subscription}
use sing_box_webui.Storage.{Env, OrderError, commit, drop_last, find, replace, remove, reordered}
use sing_box_webui.Storage.Sync.{
  IsSynced, commit_failed, commit_saved, drop_last-append, replace-replace,
}
use sing_box_webui.Storage.Reorder.{reordered-All}
use sing_box_webui.NodePool.Model.{Pool, CreateInput, UpdateInput, PoolError, not_saved}
use sing_box_webui.NodePool.Validate.{Net, validate_pool}
use sing_box_webui.NodePool.Validate.Normal.{
  IsValid, validate_pool-IsValid, validate_pool-id, normalize_valid,
}
use sing_box_webui.NodePool.Resolve.{pool_id, to_view}
use sing_box_webui.NodePool.Store.{
  Pools, new_pool, apply_input, checked, with_ok, create, update_found, update, delete_found,
  delete, reorder_to, reorder, load,
}

-- Memory and file agree, and hold valid pools.
pub record Inv (net : Net) (s : Pools) : Type 0 where
  pub synced : IsSynced s
  pub valid : All (IsValid net) s.items

-- A commit keeps the invariant if the new list is valid and `undo` restores the old one.
commit-Inv :
    {B : Type 0} (net : Net) (saved : Bool) (e : PoolError) (items : List Pool)
    (undo : List Pool → List Pool) (b : B) (s : Pools)
    → Inv net s
    → All (IsValid net) items
    → undo items ≡ s.items
    → Inv net (commit saved e items undo b s).0
commit-Inv net true e items undo b s h v u =
    rw (commit_saved e items undo b s) (record { synced = refl; valid = v })
commit-Inv net false e items undo b s h v u = rw (commit_failed e items undo b s u) h

with_ok-Inv :
    {A B : Type 0} (net : Net) (s : Pools) (next : A → Pools × Result PoolError B)
    (r : Result PoolError A)
    → Inv net s
    → ((a : A) → r ≡ ok a → Inv net (next a).0)
    → Inv net (with_ok s next r).0
unfolding with_ok
with_ok-Inv net s next (err e) h k = h
with_ok-Inv net s next (ok a) h k = k a refl

find_id : (id : String) (items : List Pool) (p : Pool) → find pool_id id items ≡ some p → p.id ≡ id
unfolding find
find_id id [] p = λ h. cc h
find_id id (x ∷ xs) p = elim (Bool-cases (str_eq x.id id)) [
  | inl e ↦ rw e (λ h. let q : x ≡ p = cc h in ap pool_id (sym q) ∙ (eq_iff x.id id).0 e)
  | inr e ↦ rw e (find_id id xs p)
]

module _ (net : Net) where
  replace-IsValid :
      (id : String) (p : Pool) (items : List Pool)
      → IsValid net p
      → All (IsValid net) items
      → All (IsValid net) (replace pool_id id p items)
  unfolding replace
  replace-IsValid id p [] v h = tt
  replace-IsValid id p (x ∷ xs) v h = elim (Bool-cases (str_eq x.id id)) [
    | inl e ↦ rw e (v, h.1)
    | inr e ↦ rw e (h.0, replace-IsValid id p xs v h.1)
  ]

  remove-IsValid :
      (id : String) (items : List Pool)
      → All (IsValid net) items
      → All (IsValid net) (remove pool_id id items)
  unfolding remove
  remove-IsValid id [] h = tt
  remove-IsValid id (x ∷ xs) h = elim (Bool-cases (str_eq x.id id)) [
    | inl e ↦ rw e h.1
    | inr e ↦ rw e (h.0, remove-IsValid id xs h.1)
  ]

  -- The time of the update is no part of what makes a pool valid.
  stamped : (p : Pool) (now : ℤ) → IsValid net p → IsValid net (record p { updated_at = now })
  stamped p now v = record {
    name_trimmed = v.name_trimmed;
    name_length = v.name_length;
    member_count = v.member_count;
    members_clean = v.members_clean;
    interval_range = v.interval_range;
    tolerance_range = v.tolerance_range;
    url_trimmed = v.url_trimmed;
    url_nonempty = v.url_nonempty;
    url_accepted = v.url_accepted;
    idle_range = v.idle_range;
    interval_within_idle = v.interval_within_idle;
    fallback_count = v.fallback_count;
    fallback_clean = v.fallback_clean;
    latency_range = v.latency_range;
    failures_range = v.failures_range;
    recovery_range = v.recovery_range;
    backoff_range = v.backoff_range;
  }

  module _ (subs : List Subscription) where
    checked-ok : (p q : Pool) → checked net subs p ≡ ok q → validate_pool net p ≡ ok q
    unfolding checked
    checked-ok p q h = ground arith

    pub create-Inv :
        (env : Env) (input : CreateInput) (s : Pools)
        → Inv net s
        → Inv net (create net subs env input s).0
    unfolding create
    create-Inv env input s h = with_ok-Inv net s _ (checked net subs (new_pool env input)) h λ p e.
        commit-Inv net env.saved not_saved (s.items ++ p ∷ []) drop_last (to_view subs p) s h
          (All-append (IsValid net) s.items (p ∷ []) h.valid (
            validate_pool-IsValid net (new_pool env input) p (checked-ok (new_pool env input) p e),
            tt,
          ))
          (drop_last-append s.items p)

    update_found-Inv :
        (env : Env) (input : UpdateInput) (id : String) (s : Pools) (o : Option Pool)
        → find pool_id id s.items ≡ o
        → Inv net s
        → Inv net (update_found net subs env input id s o).0
    unfolding update_found
    update_found-Inv env input id s none f h = h
    update_found-Inv env input id s (some old) f h =
        with_ok-Inv net s _ (checked net subs (apply_input input old)) h λ p e.
          let v = checked-ok (apply_input input old) p e in
          let updated = record p { updated_at = env.now } in
          let same : updated.id ≡ id =
            validate_pool-id net (apply_input input old) p v
            ∙ unfold apply_input in find_id id s.items old f in
          commit-Inv net env.saved not_saved (replace pool_id id updated s.items)
            (replace pool_id id old) (to_view subs updated) s h
            (replace-IsValid id updated s.items
              (stamped p env.now (validate_pool-IsValid net (apply_input input old) p v)) h.valid)
            (replace-replace pool_id id old updated s.items f ((eq_iff updated.id id).1 same))

    pub update-Inv :
        (env : Env) (id : String) (input : UpdateInput) (s : Pools)
        → Inv net s
        → Inv net (update net subs env id input s).0
    unfolding update
    update-Inv env id input s h = update_found-Inv env input id s (find pool_id id s.items) refl h

  delete_found-Inv :
      (env : Env) (id : String) (s : Pools) (o : Option Pool)
      → Inv net s
      → Inv net (delete_found env id s o).0
  unfolding delete_found
  delete_found-Inv env id s none h = h
  delete_found-Inv env id s (some old) h =
      commit-Inv net env.saved not_saved (remove pool_id id s.items) (λ _. s.items) tt s h
        (remove-IsValid id s.items h.valid) refl

  pub delete-Inv : (env : Env) (id : String) (s : Pools) → Inv net s → Inv net (delete env id s).0
  unfolding delete
  delete-Inv env id s h = delete_found-Inv env id s (find pool_id id s.items) h

  reorder_to-Inv :
      (env : Env) (subs : List Subscription) (ids : List String) (s : Pools)
      (r : Result OrderError (List Pool))
      → reordered pool_id s.items ids ≡ r
      → Inv net s
      → Inv net (reorder_to env subs s r).0
  unfolding reorder_to
  reorder_to-Inv env subs ids s (err e) f h = h
  reorder_to-Inv env subs ids s (ok out) f h =
      commit-Inv net env.saved not_saved out (λ _. s.items) (map (to_view subs) out) s h
        (reordered-All pool_id (IsValid net) s.items ids out h.valid f) refl

  pub reorder-Inv :
      (env : Env) (subs : List Subscription) (ids : List String) (s : Pools)
      → Inv net s
      → Inv net (reorder env subs ids s).0
  unfolding reorder
  reorder-Inv env subs ids s h =
      reorder_to-Inv env subs ids s (reordered pool_id s.items ids) refl h

  load_valid : (items : List Pool) → All (IsValid net) items → load (some items) ≡ items
  unfolding load
  load_valid [] h = refl
  load_valid (p ∷ ps) h = cc (normalize_valid net p h.0, load_valid ps h.1)

-- The operations of the manager, each with its arguments.
pub data Call : Type 0 where
  creates : CreateInput → Call
  updates : String → UpdateInput → Call
  deletes : String → Call
  reorders : List String → Call

pub step : Net → List Subscription → Env → Call → Pools → Pools
step net subs env (creates input) s = (create net subs env input s).0
step net subs env (updates id input) s = (update net subs env id input s).0
step net subs env (deletes id) s = (delete env id s).0
step net subs env (reorders ids) s = (reorder env subs ids s).0

-- The subscriptions, and whether a save succeeds, may differ from call to call.
pub run : Net → List (List Subscription × Env × Call) → Pools → Pools
run net [] s = s
run net ((subs, env, c) ∷ cs) s = run net cs (step net subs env c s)

-- Each operation keeps the pools valid and the file in step with memory, whether or not it is refused
-- and whether or not its save succeeds.
pub step-Inv :
    (net : Net) (subs : List Subscription) (env : Env) (c : Call) (s : Pools)
    → Inv net s
    → Inv net (step net subs env c s)
unfolding step
step-Inv net subs env (creates input) s h = create-Inv net subs env input s h
step-Inv net subs env (updates id input) s h = update-Inv net subs env id input s h
step-Inv net subs env (deletes id) s h = delete-Inv net env id s h
step-Inv net subs env (reorders ids) s h = reorder-Inv net env subs ids s h

run-Inv :
    (net : Net) (cs : List (List Subscription × Env × Call)) (s : Pools)
    → Inv net s
    → Inv net (run net cs s)
unfolding run
run-Inv net [] s h = h
run-Inv net ((subs, env, c) ∷ cs) s h =
    run-Inv net cs (step net subs env c s) (step-Inv net subs env c s h)

abbrev pub no_pools : Pools
no_pools = record { items = []; disk = [] }

-- From an empty store, after any creations, updates, deletions and reorderings, whether or not each is
-- refused and its save succeeds, a restart that reads the file back finds the pools that were in memory.
pub load-run :
    (net : Net) (cs : List (List Subscription × Env × Call))
    → load (some (run net cs no_pools).disk) ≡ (run net cs no_pools).items
load-run net cs =
    let h = run-Inv net cs no_pools (record { synced = refl; valid = tt }) in
    ap (λ (ps : List Pool). load (some ps)) (sym h.synced)
    ∙ load_valid net (run net cs no_pools).items h.valid
