-- ===== src/NodePool/Validate.antt =====
-- `validate`, `validatePool`, `normalizePoolDefaults` and `blockedProbeHost`. The parsers of net/url
-- and net/netip, and the lower-level `strings.Trim`, are the parameter `net`.
pub mod Valid
pub mod Normal
use Prim.Native.Char.{nul}
use Prim.Native.String.{len, ◌++◌}
use sing_box_webui.Prelude.{
  ℕ, String, Bool, true, false, not, ◌&&◌, ◌||◌, List, [], ◌∷◌, Option, none, some, leb, ltb, ◌==◌,
  if◌then◌else◌, length, has, str_eq, trim_space, Result, ok, err, ◌>>=◌, ◌>>◌, refuse,
}
use sing_box_webui.Prelude.Int.{ℤ, pos, leb_ℤ, ltb_ℤ, eqb_ℤ}
use sing_box_webui.Netsafety.{Addr, allowed_public_address}
use sing_box_webui.NodePool.Model.{
  Member, Pool, PoolError, bad_name, too_many_members, bad_interval, bad_tolerance, bad_member,
  bad_probe_url, bad_idle_timeout, interval_exceeds_idle, too_many_urls, bad_fallback_url,
  bad_high_latency, bad_failures, bad_recovery, bad_backoff, default_probe_interval_seconds,
  default_tolerance_ms, default_probe_url, default_idle_timeout_seconds, default_high_latency_ms,
  default_consecutive_failures, default_recovery_successes, default_max_backoff_seconds,
  max_fallback_probe_urls, max_members,
}

-- The parts of a parsed URL that the checks read.
pub record Url : Type 0 where
  pub scheme : String
  pub host : String
  pub hostname : String

-- url.ParseRequestURI, and netip.ParseAddr after strings.Trim(host, "[]").
pub record Net : Type 0 where
  pub parse_request_uri : String → Option Url
  pub parse_addr : String → Option Addr

-- subscriptionID + "\x00" + nodeID
unfoldable pub member_key : Member → String
member_key m = m.subscription_id ++ String.◌∷◌ nul m.node_id

unfoldable pub trim_member : Member → Member
trim_member m = record {
  subscription_id = trim_space m.subscription_id;
  node_id = trim_space m.node_id;
}

-- The loop over the members: trimmed, refused if a part is empty, dropped if already seen.
unfoldable pub clean_members : List String → List Member → Result PoolError (List Member)
clean_members seen [] = ok []
clean_members seen (m ∷ ms) =
    let clean = trim_member m in
    let skip = clean_members seen ms in
    let keep = clean_members (member_key clean ∷ seen) ms in
    if str_eq clean.subscription_id "" || str_eq clean.node_id ""
    then err bad_member
    else if has (member_key clean) seen
    then skip
    else do rest ← keep; ok (clean ∷ rest)

-- `if value == 0 { value = default }`
abbrev pub or_default : ℤ → ℤ → ℤ
or_default value default = if eqb_ℤ value (pos 0) then default else value

unfoldable pub outside : ℤ → ℕ → ℕ → Bool
outside value low high = ltb_ℤ value (pos low) || ltb_ℤ (pos high) value

unfoldable pub bad_length : String → Bool
bad_length name = str_eq name "" || ltb 80 (len name)

-- The four values that `validate` returns.
pub record Basics : Type 0 where
  pub name : String
  pub members : List Member
  pub interval : ℤ
  pub tolerance : ℤ

unfoldable pub validate : String → List Member → ℤ → ℤ → Result PoolError Basics
validate name members interval tolerance = do
  let trimmed = trim_space name
  refuse (bad_length trimmed) bad_name
  refuse (ltb max_members (length members)) too_many_members
  let interval' = or_default interval default_probe_interval_seconds
  refuse (outside interval' 15 3600) bad_interval
  let tolerance' = or_default tolerance default_tolerance_ms
  refuse (outside tolerance' 0 1000) bad_tolerance
  clean ← clean_members [] members
  ok (record { name = trimmed; members = clean; interval = interval'; tolerance = tolerance' })

unfoldable pub normalize_pool_defaults : Pool → Pool
normalize_pool_defaults p =
    let url = trim_space p.probe_url in
    record p {
      probe_url = if str_eq url "" then default_probe_url else url;
      idle_timeout_seconds = or_default p.idle_timeout_seconds default_idle_timeout_seconds;
      high_latency_threshold_ms = or_default p.high_latency_threshold_ms default_high_latency_ms;
      consecutive_failures = or_default p.consecutive_failures default_consecutive_failures;
      recovery_successes = or_default p.recovery_successes default_recovery_successes;
      max_backoff_seconds = or_default p.max_backoff_seconds default_max_backoff_seconds;
    }

module _ (net : Net) where
  unfoldable pub blocked_probe_host : String → Bool
  blocked_probe_host host = elim (net.parse_addr host) [
    | none ↦ false
    | some a ↦ not (allowed_public_address a)
  ]

  -- The condition on the probe URL and on each fallback URL.
  unfoldable pub bad_url : String → Bool
  unfolding blocked_probe_host
  bad_url value = elim (net.parse_request_uri value) [
    | none ↦ true
    | some url ↦
        not (str_eq url.scheme "https")
        || str_eq url.host ""
        || ltb 2048 (len value)
        || blocked_probe_host url.hostname
  ]

  -- The loop over the fallback URLs.
  unfoldable pub clean_urls : List String → List String → Result PoolError (List String)
  clean_urls seen [] = ok []
  clean_urls seen (u ∷ us) =
      let value = trim_space u in
      let skip = clean_urls seen us in
      let keep = clean_urls (value ∷ seen) us in
      if bad_url value
      then err bad_fallback_url
      else if has value seen
      then skip
      else do rest ← keep; ok (value ∷ rest)

  -- The part of `validatePool` after `validate` and the defaults.
  unfoldable pub check_pool : Pool → Result PoolError Pool
  check_pool p = do
    refuse (bad_url p.probe_url) bad_probe_url
    refuse (outside p.idle_timeout_seconds 60 86400) bad_idle_timeout
    refuse (ltb_ℤ p.idle_timeout_seconds p.probe_interval_seconds) interval_exceeds_idle
    refuse (ltb max_fallback_probe_urls (length p.fallback_probe_urls)) too_many_urls
    urls ← clean_urls (p.probe_url ∷ []) p.fallback_probe_urls
    refuse (outside p.high_latency_threshold_ms 100 10000) bad_high_latency
    refuse (outside p.consecutive_failures 1 10) bad_failures
    refuse (outside p.recovery_successes 1 10) bad_recovery
    refuse (outside p.max_backoff_seconds 15 3600) bad_backoff
    ok (record p { fallback_probe_urls = urls })

  unfoldable pub validate_pool : Pool → Result PoolError Pool
  unfolding check_pool
  validate_pool p = do
    b ← validate p.name p.members p.probe_interval_seconds p.tolerance_ms
    check_pool (
        normalize_pool_defaults (record p {
          name = b.name;
          members = b.members;
          probe_interval_seconds = b.interval;
          tolerance_ms = b.tolerance;
        }))
