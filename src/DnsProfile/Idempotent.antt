-- ===== src/DnsProfile/Idempotent.antt =====
-- A profile that `validateProfile` returns is one that it returns as it is.
use sing_box_webui.Prelude.{
  String, ◌≡◌, refl, subst, false, ◌||◌, List, [], ◌∷◌, arith, str_eq, ltb, length, trim_space,
  trim_space_idem, Result, ok, err, ◌>>=◌, ◌>>◌, refuse-ok, Bool-cases, inl, inr, All,
}
use sing_box_webui.DnsProfile.{
  FakeIp, Server, Profile, ProfileError, bad_count, Net, prefer_ipv4, first_error, is_local,
  clean_server, server_checks, check_servers, final_of, or_default, fake_ip_of, normal,
  profile_checks, validate_profile,
}

clean_server_idem : (s : Server) → clean_server (clean_server s) ≡ clean_server s
unfolding clean_server
clean_server_idem s = elim (Bool-cases (is_local (trim_space s.type))) [
  | inl e ↦
      rw
        (
          trim_space_idem s.tag,
          trim_space_idem s.type,
          trim_space_idem s.server,
          trim_space_idem s.detour,
          e,
        )
        refl
  | inr e ↦
      rw
        (
          trim_space_idem s.tag,
          trim_space_idem s.type,
          trim_space_idem s.server,
          trim_space_idem s.detour,
          e,
        )
        refl
]

-- Checks in front of a result that is one.
checks-ok :
    {A : Type 0} (r : Result ProfileError (Unit {0})) (k : Result ProfileError A) (a : A)
    → (r >> k) ≡ ok a
    → (r ≡ ok tt) × (k ≡ ok a)
checks-ok (ok u) k a h = (refl, h)
checks-ok (err e) k a h = absurd (ground arith)

bind-ok :
    {A B : Type 0} (r : Result ProfileError A) (k : A → Result ProfileError B) (b : B)
    → (r >>= k) ≡ ok b
    → (P : Type 0) → ((a : A) → r ≡ ok a → k a ≡ ok b → P)
    → P
bind-ok (ok a) k b h P f = f a refl h
bind-ok (err e) k b h P f = absurd (ground arith)

server_kept :
    (net : Net) (seen : List String) (s c : Server) (rest : List Server)
    → clean_server s ≡ c
    → first_error (server_checks net seen c) ≡ ok tt
    → check_servers net (c.tag ∷ seen) rest ≡ ok rest
    → check_servers net seen (s ∷ rest) ≡ ok (c ∷ rest)
unfolding check_servers
server_kept net seen s c rest e =
    subst
      (λ (d : Server).
        first_error (server_checks net seen d) ≡ ok tt
        → check_servers net (d.tag ∷ seen) rest ≡ ok rest
        → check_servers net seen (s ∷ rest) ≡ ok (d ∷ rest))
      e (λ f i. rw (f, i) refl)

abbrev IsKept : Net → List String → List Server → List Server → Type 0
IsKept net seen ss cs = (check_servers net seen cs ≡ ok cs) × (length cs ≡ length ss)

servers_idem :
    (net : Net) (seen : List String) (ss cs : List Server)
    → check_servers net seen ss ≡ ok cs
    → IsKept net seen ss cs
unfolding check_servers
servers_idem net seen [] cs h =
    let e : [] ≡ cs = cc h in
    subst (λ ds. (check_servers net seen ds ≡ ok ds) × (length ds ≡ 0)) e (refl, refl)
servers_idem net seen (s ∷ ss) cs h =
    let c = clean_server s in
    let (f, k) = checks-ok (first_error (server_checks net seen c)) _ cs h in
    bind-ok (check_servers net (c.tag ∷ seen) ss) (λ rest. ok (c ∷ rest)) cs k
      (IsKept net seen (s ∷ ss) cs)
      (λ rest e g.
        let (i, l) = servers_idem net (c.tag ∷ seen) ss rest e in
        let q : c ∷ rest ≡ cs = cc g in
        subst (λ ds. IsKept net seen (s ∷ ss) ds) q
          (server_kept net seen c c rest (clean_server_idem s) f i, omega (arith, l)))

-- An empty text that stands for a default, once it is filled in, stays.
or_default_idem :
    (s d : String)
    → trim_space d ≡ d
    → or_default (trim_space (or_default (trim_space s) d)) d ≡ or_default (trim_space s) d
unfolding or_default
or_default_idem s d h = elim (Bool-cases (str_eq (trim_space s) "")) [
  | inl e ↦ rw (e, h) (elim (Bool-cases (str_eq d "")) [ inl f ↦ rw f refl | inr f ↦ rw f refl ])
  | inr e ↦ rw (e, trim_space_idem s, e) refl
]

fake_ip_idem : (f : FakeIp) → fake_ip_of (fake_ip_of f) ≡ fake_ip_of f
unfolding fake_ip_of trim_space
fake_ip_idem f = elim (Bool-cases f.enabled) [
  | inl e ↦
      rw
        (
          e,
          or_default_idem f.inet4_range "198.18.0.0/15" refl,
          or_default_idem f.inet6_range "fc00::/18" refl,
        )
        refl
  | inr e ↦ rw e refl
]

final_idem :
    (f : String) (ss : List Server)
    → All (λ (s : Server). trim_space s.tag ≡ s.tag) ss
    → final_of (trim_space (final_of (trim_space f) ss)) ss ≡ final_of (trim_space f) ss
unfolding final_of
final_idem f [] h = trim_space_idem f
final_idem f (s ∷ t ∷ ss) h = trim_space_idem f
final_idem f (s ∷ []) h = elim (Bool-cases (str_eq (trim_space f) "")) [
  | inl e ↦
      rw (e, h.0) (elim (Bool-cases (str_eq s.tag "")) [ inl g ↦ rw g refl | inr g ↦ rw g refl ])
  | inr e ↦ rw (e, trim_space_idem f, e) refl
]

-- The tags that are kept are trimmed.
tags_trimmed :
    (net : Net) (seen : List String) (ss cs : List Server)
    → check_servers net seen ss ≡ ok cs
    → All (λ (s : Server). trim_space s.tag ≡ s.tag) cs
unfolding check_servers
tags_trimmed net seen [] cs h =
    let e : [] ≡ cs = cc h in subst (All (λ (s : Server). trim_space s.tag ≡ s.tag)) e tt
tags_trimmed net seen (s ∷ ss) cs h =
    let c = clean_server s in
    let (f, k) = checks-ok (first_error (server_checks net seen c)) _ cs h in
    bind-ok (check_servers net (c.tag ∷ seen) ss) (λ rest. ok (c ∷ rest)) cs k
      (All (λ (s : Server). trim_space s.tag ≡ s.tag) cs)
      (λ rest e g.
        let q : c ∷ rest ≡ cs = cc g in
        subst (All (λ (s : Server). trim_space s.tag ≡ s.tag)) q
          (unfold clean_server in trim_space_idem s.tag, tags_trimmed net (c.tag ∷ seen) ss rest e))

normal_idem :
    (p : Profile) (ss : List Server)
    → All (λ (s : Server). trim_space s.tag ≡ s.tag) ss
    → normal (normal p ss) ss ≡ normal p ss
unfolding normal trim_space
normal_idem p ss h =
    rw
      (final_idem p.final ss h, or_default_idem p.strategy prefer_ipv4 refl, fake_ip_idem p.fake_ip)
      refl

profile_kept :
    (net : Net) (p q : Profile)
    → (ltb (length p.servers) 1 || ltb 8 (length p.servers)) ≡ false
    → check_servers net [] p.servers ≡ ok p.servers
    → normal p p.servers ≡ q
    → first_error (profile_checks net q) ≡ ok tt
    → validate_profile net p ≡ ok q
unfolding validate_profile
profile_kept net p q b c e =
    subst
      (λ (r : Profile). first_error (profile_checks net r) ≡ ok tt → validate_profile net p ≡ ok r)
      e (λ f. rw (b, c, f) refl)

-- A profile that `validateProfile` returns is valid, and is returned as it is.
pub validate_profile_idem :
    (net : Net) (p q : Profile) → validate_profile net p ≡ ok q → validate_profile net q ≡ ok q
unfolding validate_profile normal
validate_profile_idem net p q h =
    let (b, k) = refuse-ok (ltb (length p.servers) 1 || ltb 8 (length p.servers)) bad_count _ h in
    bind-ok (check_servers net [] p.servers)
      (λ ss. first_error (profile_checks net (normal p ss)) >> ok (normal p ss)) q k
      (validate_profile net q ≡ ok q)
      (λ ss e g.
        let (f, r) = checks-ok (first_error (profile_checks net (normal p ss))) _ q g in
        let w : normal p ss ≡ q = cc r in
        let (i, l) = servers_idem net [] p.servers ss e in
        subst (λ (t : Profile). validate_profile net t ≡ ok t) w
          (profile_kept net (normal p ss) (normal p ss) (rw l b) i
            (normal_idem p ss (tags_trimmed net [] p.servers ss e)) f))
