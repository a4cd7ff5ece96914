-- ===== src/ProxyChain/Validate/Named.antt =====
-- The references of a chain that `validate` returns name nodes.
use sing_box_webui.Prelude.{
  ◌≡◌, subst, arith, true, false, Bool-cases, inl, inr, str_eq, Result, ok,
}
use sing_box_webui.NodePool.Validate.{bad_length}
use sing_box_webui.ProxyChain.Model.{NodeRef, Chain, ChainError, entry_node_type, entry_pool_type}
use sing_box_webui.ProxyChain.Validate.{
  is_incomplete, cleaned, validate_entry, validate_cleaned, validate,
}

-- The exit names a node, and so does the entry where the chain enters by a node.
pub record IsNamedChain (c : Chain) : Type 0 where
  pub exit_named : str_eq c.exit_node.node_id "" ≡ false
  pub entry_named :
      str_eq c.entry_type entry_node_type ≡ true → str_eq c.entry_node.node_id "" ≡ false

complete : (r : NodeRef) → is_incomplete r ≡ false → str_eq r.node_id "" ≡ false
unfolding is_incomplete
complete r h = ground arith

returned :
    {d e : Chain}
    → ◌≡◌ {A = Result ChainError Chain} (ok d) (ok e)
    → IsNamedChain d
    → IsNamedChain e
returned {d} {e} h k = let q : d ≡ e = cc h in subst IsNamedChain q k

entry-IsNamedChain :
    (c d : Chain) → str_eq c.exit_node.node_id "" ≡ false → validate_entry c ≡ ok d → IsNamedChain d
unfolding validate_entry
entry-IsNamedChain c d x = elim (Bool-cases (str_eq c.entry_type entry_node_type)) [
  | inl e ↦ rw e (elim (Bool-cases (is_incomplete c.entry_node)) [
    | inl f ↦ rw f (λ h. absurd (ground arith))
    | inr f ↦
        rw f
          (λ h. returned h (record { exit_named = x; entry_named = λ _. complete c.entry_node f }))
  ])
  | inr e ↦ rw e (elim (Bool-cases (str_eq c.entry_type entry_pool_type)) [
    | inr f ↦ rw f (λ h. absurd (ground arith))
    | inl f ↦ rw f (elim (Bool-cases (str_eq c.entry_pool_id "")) [
      | inl g ↦ rw g (λ h. absurd (ground arith))
      | inr g ↦
          rw g
            (λ h. returned h (record { exit_named = x; entry_named = λ k. absurd (ground arith) }))
    ])
  ])
]

cleaned-IsNamedChain : (c d : Chain) → validate_cleaned c ≡ ok d → IsNamedChain d
unfolding validate_cleaned
cleaned-IsNamedChain c d = elim (Bool-cases (bad_length c.name)) [
  | inl e ↦ rw e (λ h. absurd (ground arith))
  | inr e ↦ rw e (elim (Bool-cases (is_incomplete c.exit_node)) [
    | inl f ↦ rw f (λ h. absurd (ground arith))
    | inr f ↦ rw f (entry-IsNamedChain c d (complete c.exit_node f))
  ])
]

pub validate-IsNamedChain : (c d : Chain) → validate c ≡ ok d → IsNamedChain d
unfolding validate
validate-IsNamedChain c d = cleaned-IsNamedChain (cleaned c) d
