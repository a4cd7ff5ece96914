-- ===== src/ProxyChain/Validate/Idempotent.antt =====
-- Validating a validated chain changes nothing.
use sing_box_webui.Prelude.{
  ◌≡◌, refl, sym, subst, ap, ◌∙◌, arith, false, Bool-cases, inl, inr, ◌⊎◌, str_eq, trim_space,
  trim_space_idem, ok,
}
use sing_box_webui.NodePool.Validate.{bad_length}
use sing_box_webui.ProxyChain.Model.{NodeRef, Chain, entry_node_type, entry_pool_type}
use sing_box_webui.ProxyChain.Validate.{
  clean_node_ref, is_incomplete, no_node, cleaned, validate_entry, validate_cleaned, validate,
}

clean_node_ref_idem : (r : NodeRef) → clean_node_ref (clean_node_ref r) ≡ clean_node_ref r
unfolding clean_node_ref
clean_node_ref_idem r = rw (trim_space_idem r.subscription_id, trim_space_idem r.node_id) refl

cleaned_idem : (c : Chain) → cleaned (cleaned c) ≡ cleaned c
unfolding cleaned
cleaned_idem c =
    rw
      (
        trim_space_idem c.name,
        trim_space_idem c.entry_pool_id,
        clean_node_ref_idem c.entry_node,
        clean_node_ref_idem c.exit_node,
      )
      refl

-- The two chains that `validate` may return.
abbrev as_node : Chain → Chain
as_node c = record c { entry_pool_id = "" }

abbrev as_pool : Chain → Chain
as_pool c = record c { entry_node = no_node }

not_refused :
    (c d : Chain)
    → validate_cleaned c ≡ ok d
    → (bad_length c.name ≡ false) × (is_incomplete c.exit_node ≡ false) × (validate_entry c ≡ ok d)
unfolding validate_cleaned
not_refused c d = elim (Bool-cases (bad_length c.name)) [
  | inl e ↦ rw e (λ h. absurd (ground arith))
  | inr e ↦ rw e (elim (Bool-cases (is_incomplete c.exit_node)) [
    | inl f ↦ rw f (λ h. absurd (ground arith))
    | inr f ↦ rw f (λ h. (refl, refl, h))
  ])
]

entry_cases :
    (c d : Chain)
    → validate_entry c ≡ ok d
    → ((as_node c ≡ d) × (validate_entry (as_node c) ≡ ok (as_node c)))
      ⊎ ((as_pool c ≡ d) × (validate_entry (as_pool c) ≡ ok (as_pool c)))
unfolding validate_entry
entry_cases c d = elim (Bool-cases (str_eq c.entry_type entry_node_type)) [
  | inl e ↦ rw e (elim (Bool-cases (is_incomplete c.entry_node)) [
    | inl f ↦ rw f (λ h. absurd (ground arith))
    | inr f ↦ rw f (λ h. inl (cc h, refl))
  ])
  | inr e ↦ rw e (elim (Bool-cases (str_eq c.entry_type entry_pool_type)) [
    | inl f ↦ rw f (elim (Bool-cases (str_eq c.entry_pool_id "")) [
      | inl g ↦ rw g (λ h. absurd (ground arith))
      | inr g ↦ rw g (λ h. inr (cc h, refl))
    ])
    | inr f ↦ rw f (λ h. absurd (ground arith))
  ])
]

cleaned_passes :
    (d : Chain)
    → bad_length d.name ≡ false
    → is_incomplete d.exit_node ≡ false
    → validate_entry d ≡ ok d
    → validate_cleaned d ≡ ok d
unfolding validate_cleaned
cleaned_passes d e f g = rw (e, f) g

passes_again :
    (d : Chain)
    → bad_length d.name ≡ false
    → is_incomplete d.exit_node ≡ false
    → validate_entry d ≡ ok d
    → cleaned d ≡ d
    → validate d ≡ ok d
unfolding validate
passes_again d e f g k = ap validate_cleaned k ∙ cleaned_passes d e f g

as_node_clean : (c : Chain) → cleaned (as_node (cleaned c)) ≡ as_node (cleaned c)
unfolding cleaned trim_space
as_node_clean c =
    rw (trim_space_idem c.name, clean_node_ref_idem c.entry_node, clean_node_ref_idem c.exit_node)
      refl

as_pool_clean : (c : Chain) → cleaned (as_pool (cleaned c)) ≡ as_pool (cleaned c)
unfolding cleaned clean_node_ref trim_space
as_pool_clean c =
    rw (trim_space_idem c.name, trim_space_idem c.entry_pool_id, clean_node_ref_idem c.exit_node)
      refl

-- A chain that `validate` returns is accepted again, and comes back as it is.
pub validate_idempotent : (c d : Chain) → validate c ≡ ok d → validate d ≡ ok d
validate_idempotent c d h =
    let (e, f, g) = not_refused (cleaned c) d (unfold validate in h) in
    elim (entry_cases (cleaned c) d g) [
      | inl (p, q) ↦
          subst (λ (x : Chain). validate x ≡ ok x) p
            (passes_again (as_node (cleaned c)) e f q (as_node_clean c))
      | inr (p, q) ↦
          subst (λ (x : Chain). validate x ≡ ok x) p
            (passes_again (as_pool (cleaned c)) e f q (as_pool_clean c))
    ]

-- Validation keeps the id.
pub validate_keeps_id : (c d : Chain) → validate c ≡ ok d → d.id ≡ c.id
validate_keeps_id c d h =
    let (e, f, g) = not_refused (cleaned c) d (unfold validate in h) in
    elim (entry_cases (cleaned c) d g) [
      | inl (p, q) ↦ ap (λ (x : Chain). x.id) (sym p) ∙ unfold cleaned in refl
      | inr (p, q) ↦ ap (λ (x : Chain). x.id) (sym p) ∙ unfold cleaned in refl
    ]
