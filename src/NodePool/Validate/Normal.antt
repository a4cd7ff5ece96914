-- ===== src/NodePool/Validate/Normal.antt =====
-- `validatePool` returns valid pools only, and leaves a valid pool as it is.
use sing_box_webui.Prelude.{
  ℕ, ◌≤◌, ◌<◌, String, ◌≡◌, refl, ap, false, List, [], ◌∷◌, arith, ltb, length, has, Bool-cases,
  inl, inr, str_eq, trim_space, trim_space_idem, Result, ok, err, ◌>>=◌, if◌then◌else◌, or_false,
}
use sing_box_webui.Prelude.Int.{ℤ, pos, negsuc, ltb_ℤ, ◌≤ℤ◌, ltb_ℤ-false, le→not_ltb_ℤ}
use sing_box_webui.NodePool.Model.{
  Pool, PoolError, default_probe_url, max_members, max_fallback_probe_urls,
  default_idle_timeout_seconds, default_high_latency_ms, default_consecutive_failures,
  default_recovery_successes, default_max_backoff_seconds, default_probe_interval_seconds,
  default_tolerance_ms,
}
use sing_box_webui.NodePool.Validate.{
  Net, Basics, or_default, outside, bad_length, validate, normalize_pool_defaults, bad_url,
  clean_urls, check_pool, validate_pool,
}
use sing_box_webui.NodePool.Validate.Valid.{
  InRange, IsClean, validate-ok, clean_members-Cleaned, IsClean-clean_members,
}

outside-false : (v : ℤ) (low high : ℕ) → outside v low high ≡ false → InRange v low high
unfolding outside
outside-false v low high h =
    let t = or_false (ltb_ℤ v (pos low)) (ltb_ℤ (pos high) v) h in
    (ltb_ℤ-false v (pos low) t.0, ltb_ℤ-false (pos high) v t.1)

InRange-outside : (v : ℤ) (low high : ℕ) → InRange v low high → outside v low high ≡ false
unfolding outside
InRange-outside (pos v) low high h = ground arith
InRange-outside (negsuc v) low high h = absurd (omega arith)

or_default_id : (v d : ℤ) (low high : ℕ) → 0 < low → InRange v low high → or_default v d ≡ v
or_default_id (pos v) d low high l h = ground arith
or_default_id (negsuc v) d low high l h = refl

module _ (net : Net) where
  -- Trimmed, accepted, and different from those seen and from one another.
  abbrev pub AreClean : List String → List String → Type 0
  AreClean seen [] = Unit
  AreClean seen (u ∷ us) =
      (trim_space u ≡ u) × (bad_url net u ≡ false) × (has u seen ≡ false) × AreClean (u ∷ seen) us

  abbrev CleanedUrls : List String → List String → List String → Type 0
  CleanedUrls seen us out = AreClean seen out × (length out ≤ length us)

  kept_urls :
      (seen : List String) (u : String) (us : List String) (r : Result PoolError (List String))
      (out : List String)
      → bad_url net (trim_space u) ≡ false
      → has (trim_space u) seen ≡ false
      → ((rest : List String) → r ≡ ok rest → CleanedUrls (trim_space u ∷ seen) us rest)
      → (r >>= λ rest. ok (trim_space u ∷ rest)) ≡ ok out
      → CleanedUrls seen (u ∷ us) out
  kept_urls seen u us (err x) out e d ih h = cc
  kept_urls seen u us (ok rest) out e d ih h =
      let p : trim_space u ∷ rest ≡ out = cc h in
      let r = ih rest refl in rw (← p) ((trim_space_idem u, e, d, r.0), omega (arith, r.1))

  clean_urls-Cleaned :
      (seen us out : List String) → clean_urls net seen us ≡ ok out → CleanedUrls seen us out
  unfolding clean_urls
  clean_urls-Cleaned seen [] [] = λ h. (tt, omega arith)
  clean_urls-Cleaned seen [] (o ∷ out) = λ h. cc h
  clean_urls-Cleaned seen (u ∷ us) out = elim (Bool-cases (bad_url net (trim_space u))) [
    | inl e ↦ rw e (λ h. cc h)
    | inr e ↦ elim (Bool-cases (has (trim_space u) seen)) [
      | inl d ↦ rw (e, d) (λ h. let r = clean_urls-Cleaned seen us out h in (r.0, omega arith))
      | inr d ↦
          rw (e, d)
            (kept_urls seen u us (clean_urls net (trim_space u ∷ seen) us) out e d
              (clean_urls-Cleaned (trim_space u ∷ seen) us))
    ]
  ]

  AreClean-clean_urls : (seen us : List String) → AreClean seen us → clean_urls net seen us ≡ ok us
  unfolding clean_urls
  AreClean-clean_urls seen [] h = refl
  AreClean-clean_urls seen (u ∷ us) h = rw (h.0, h.1, h.2, AreClean-clean_urls (u ∷ seen) us h.3)

  -- A valid pool.
  pub record IsValid (p : Pool) : Type 0 where
    pub name_trimmed : trim_space p.name ≡ p.name
    pub name_length : bad_length p.name ≡ false
    pub member_count : length p.members ≤ max_members
    pub members_clean : IsClean [] p.members
    pub interval_range : InRange p.probe_interval_seconds 15 3600
    pub tolerance_range : InRange p.tolerance_ms 1 1000
    pub url_trimmed : trim_space p.probe_url ≡ p.probe_url
    pub url_nonempty : str_eq p.probe_url "" ≡ false
    pub url_accepted : bad_url net p.probe_url ≡ false
    pub idle_range : InRange p.idle_timeout_seconds 60 86400
    pub interval_within_idle : p.probe_interval_seconds ≤ℤ p.idle_timeout_seconds
    pub fallback_count : length p.fallback_probe_urls ≤ max_fallback_probe_urls
    pub fallback_clean : AreClean (p.probe_url ∷ []) p.fallback_probe_urls
    pub latency_range : InRange p.high_latency_threshold_ms 100 10000
    pub failures_range : InRange p.consecutive_failures 1 10
    pub recovery_range : InRange p.recovery_successes 1 10
    pub backoff_range : InRange p.max_backoff_seconds 15 3600

  check_pool-ok :
      (p q : Pool)
      → check_pool net p ≡ ok q
      → (bad_url net p.probe_url ≡ false)
        × (outside p.idle_timeout_seconds 60 86400 ≡ false)
        × (ltb_ℤ p.idle_timeout_seconds p.probe_interval_seconds ≡ false)
        × (ltb max_fallback_probe_urls (length p.fallback_probe_urls) ≡ false)
        × (clean_urls net (p.probe_url ∷ []) p.fallback_probe_urls ≡ ok q.fallback_probe_urls)
        × (outside p.high_latency_threshold_ms 100 10000 ≡ false)
        × (outside p.consecutive_failures 1 10 ≡ false)
        × (outside p.recovery_successes 1 10 ≡ false)
        × (outside p.max_backoff_seconds 15 3600 ≡ false)
        × (q ≡ record p { fallback_probe_urls = q.fallback_probe_urls })
  unfolding check_pool
  check_pool-ok p q h = ground arith

default_url_trimmed : trim_space default_probe_url ≡ default_probe_url
unfolding trim_space
default_url_trimmed = refl

-- The probe URL after the defaults.
abbrev url_or_default : String → String
url_or_default url = if str_eq (trim_space url) "" then default_probe_url else trim_space url

url_or_default_lem :
    (url : String)
    → (trim_space (url_or_default url) ≡ url_or_default url)
      × (str_eq (url_or_default url) "" ≡ false)
url_or_default_lem url = elim (Bool-cases (str_eq (trim_space url) "")) [
  | inl e ↦ rw e (default_url_trimmed, refl)
  | inr e ↦ rw (e, e) (trim_space_idem url, refl)
]

positive_tolerance :
    (v : ℤ) → InRange (or_default v (pos 80)) 0 1000 → InRange (or_default v (pos 80)) 1 1000
positive_tolerance (pos v) h = ground arith
positive_tolerance (negsuc v) h = absurd (omega arith)

not_ltb : (limit n : ℕ) → n ≤ limit → ltb limit n ≡ false
not_ltb limit n h = ground arith

wider : (v : ℤ) → InRange v 1 1000 → InRange v 0 1000
wider v h = omega arith

bounded : {n m : ℕ} (limit : ℕ) → ltb limit m ≡ false → n ≤ m → n ≤ limit
bounded limit h k = ground arith

module _ (net : Net) where
  with_basics : Pool → Basics → Pool
  with_basics p b = record p {
    name = b.name;
    members = b.members;
    probe_interval_seconds = b.interval;
    tolerance_ms = b.tolerance;
  }

  checked-IsValid :
      (p q : Pool) (b : Basics)
      → validate p.name p.members p.probe_interval_seconds p.tolerance_ms ≡ ok b
      → check_pool net (normalize_pool_defaults (with_basics p b)) ≡ ok q
      → IsValid net q
  unfolding normalize_pool_defaults with_basics
  checked-IsValid p q b h k =
      let v = validate-ok p.name p.members p.probe_interval_seconds p.tolerance_ms b h in
      let c = check_pool-ok net (normalize_pool_defaults (with_basics p b)) q k in
      let u = url_or_default_lem p.probe_url in
      let m = clean_members-Cleaned [] p.members b.members v.7 in
      let f =
        clean_urls-Cleaned net (url_or_default p.probe_url ∷ []) p.fallback_probe_urls
          q.fallback_probe_urls c.4 in
      rw c.9 (record {
        name_trimmed = rw v.1 (trim_space_idem p.name);
        name_length = v.0;
        member_count = bounded max_members v.2 m.1;
        members_clean = m.0;
        interval_range = outside-false b.interval 15 3600 v.4;
        tolerance_range =
            rw v.5 (
              positive_tolerance p.tolerance_ms (rw v.5 at (outside-false b.tolerance 0 1000 v.6)));
        url_trimmed = u.0;
        url_nonempty = u.1;
        url_accepted = c.0;
        idle_range = outside-false _ 60 86400 c.1;
        interval_within_idle = ltb_ℤ-false _ b.interval c.2;
        fallback_count = bounded max_fallback_probe_urls c.3 f.1;
        fallback_clean = f.0;
        latency_range = outside-false _ 100 10000 c.5;
        failures_range = outside-false _ 1 10 c.6;
        recovery_range = outside-false _ 1 10 c.7;
        backoff_range = outside-false _ 15 3600 c.8;
      })

  accepted :
      (p q : Pool) (r : Result PoolError Basics)
      → validate p.name p.members p.probe_interval_seconds p.tolerance_ms ≡ r
      → (r >>= λ b. check_pool net (normalize_pool_defaults (with_basics p b))) ≡ ok q
      → IsValid net q
  accepted p q (err e) h k = cc
  accepted p q (ok b) h k = checked-IsValid p q b h k

  -- What `validatePool` accepts is valid as it returns it: trimmed, without duplicates, and within every
  -- bound.
  pub validate_pool-IsValid : (p q : Pool) → validate_pool net p ≡ ok q → IsValid net q
  unfolding validate_pool with_basics
  validate_pool-IsValid p q h =
      accepted p q (validate p.name p.members p.probe_interval_seconds p.tolerance_ms) refl h

  validate_valid :
      (p : Pool)
      → IsValid net p
      → validate p.name p.members p.probe_interval_seconds p.tolerance_ms
        ≡ ok (record {
          name = p.name;
          members = p.members;
          interval = p.probe_interval_seconds;
          tolerance = p.tolerance_ms;
        })
  unfolding validate
  validate_valid p v = rw (
    v.name_trimmed,
    v.name_length,
    not_ltb max_members (length p.members) v.member_count,
    or_default_id p.probe_interval_seconds default_probe_interval_seconds 15 3600 (omega arith)
        v.interval_range,
    InRange-outside p.probe_interval_seconds 15 3600 v.interval_range,
    or_default_id p.tolerance_ms default_tolerance_ms 1 1000 (omega arith) v.tolerance_range,
    InRange-outside p.tolerance_ms 0 1000 (wider p.tolerance_ms v.tolerance_range),
    IsClean-clean_members [] p.members v.members_clean,
  )

  pub normalize_valid : (p : Pool) → IsValid net p → normalize_pool_defaults p ≡ p
  unfolding normalize_pool_defaults
  normalize_valid p v = rw (
    v.url_trimmed,
    v.url_nonempty,
    or_default_id p.idle_timeout_seconds default_idle_timeout_seconds 60 86400 (omega arith)
        v.idle_range,
    or_default_id p.high_latency_threshold_ms default_high_latency_ms 100 10000 (omega arith)
        v.latency_range,
    or_default_id p.consecutive_failures default_consecutive_failures 1 10 (omega arith)
        v.failures_range,
    or_default_id p.recovery_successes default_recovery_successes 1 10 (omega arith)
        v.recovery_range,
    or_default_id p.max_backoff_seconds default_max_backoff_seconds 15 3600 (omega arith)
        v.backoff_range,
  )

  check_valid : (p : Pool) → IsValid net p → check_pool net p ≡ ok p
  unfolding check_pool
  check_valid p v = rw (
    v.url_accepted,
    InRange-outside p.idle_timeout_seconds 60 86400 v.idle_range,
    le→not_ltb_ℤ p.idle_timeout_seconds p.probe_interval_seconds v.interval_within_idle,
    not_ltb max_fallback_probe_urls (length p.fallback_probe_urls) v.fallback_count,
    AreClean-clean_urls net (p.probe_url ∷ []) p.fallback_probe_urls v.fallback_clean,
    InRange-outside p.high_latency_threshold_ms 100 10000 v.latency_range,
    InRange-outside p.consecutive_failures 1 10 v.failures_range,
    InRange-outside p.recovery_successes 1 10 v.recovery_range,
    InRange-outside p.max_backoff_seconds 15 3600 v.backoff_range,
  )

  -- `validatePool` leaves a valid pool as it is.
  pub IsValid-validate_pool : (p : Pool) → IsValid net p → validate_pool net p ≡ ok p
  unfolding validate_pool
  IsValid-validate_pool p v = rw (validate_valid p v) (rw (normalize_valid p v) (check_valid p v))

  accepted_id :
      (p q : Pool) (r : Result PoolError Basics)
      → (r >>= λ b. check_pool net (normalize_pool_defaults (with_basics p b))) ≡ ok q
      → q.id ≡ p.id
  unfolding normalize_pool_defaults with_basics
  accepted_id p q (err e) h = cc
  accepted_id p q (ok b) h =
      ap (λ (x : Pool). x.id) (check_pool-ok net (normalize_pool_defaults (with_basics p b)) q h).9

  pub validate_pool-id : (p q : Pool) → validate_pool net p ≡ ok q → q.id ≡ p.id
  unfolding validate_pool with_basics
  validate_pool-id p q h =
      accepted_id p q (validate p.name p.members p.probe_interval_seconds p.tolerance_ms) h
