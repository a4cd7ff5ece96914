-- ===== src/DnsProfile.antt =====
-- internal/dnsprofile/manager.go: the stored DNS profile. `Net` stands for strconv.Atoi,
-- netip.ParseAddr and netip.ParsePrefix. A check that fails gives the error of the first that does;
-- the checks of an address give one error.
pub mod Store
pub mod Idempotent
pub mod Reload
pub mod Examples
use Prim.Native.Char.{Char, code}
use Prim.Native.String as Text
use Prim.Native.String.{len}
use sing_box_webui.Prelude.{
  ℕ, ◌+◌, ◌-◌, String, Bool, true, false, not, ◌&&◌, ◌||◌, List, [], ◌∷◌, map, Option, none, some,
  if◌then◌else◌, str_eq, leb, ltb, ◌==◌, has, length, trim_space, Result, ok, err, ◌>>=◌, ◌>>◌,
  refuse,
}
use sing_box_webui.Prelude.Int.{ℤ, pos, ltb_ℤ}

pub record FakeIp : Type 0 where
  pub enabled : Bool
  pub inet4_range : String
  pub inet6_range : String

pub record Server : Type 0 where
  pub tag : String
  pub type : String
  pub server : String
  pub port : Option ℤ
  pub detour : String

pub record Profile : Type 0 where
  pub servers : List Server
  pub final : String
  pub strategy : String
  pub fake_ip : FakeIp

pub data ProfileError : Type 0 where
  bad_count bad_tag duplicate_tag bad_type bad_detour has_address has_detour bad_address bad_port :
      ProfileError
  no_final unknown_final bad_strategy bad_inet4 bad_inet6 ipv6_strategy not_saved : ProfileError

-- Whether a text is a number; whether it is an address, with a zone; whether it is a prefix, of IPv6.
pub record Net : Type 0 where
  pub is_number : String → Bool
  pub parse_addr : String → Option Bool
  pub parse_prefix : String → Option Bool

abbrev supported_server_types : List String
supported_server_types = "udp" ∷ "tcp" ∷ "tls" ∷ "https" ∷ "quic" ∷ "h3" ∷ "local" ∷ "hosts" ∷ []

abbrev pub prefer_ipv4 : String
prefer_ipv4 = "prefer_ipv4"

abbrev supported_strategies : List String
supported_strategies = "ipv4_only" ∷ "ipv6_only" ∷ prefer_ipv4 ∷ "prefer_ipv6" ∷ []

-- DefaultProfile
abbrev pub default_profile : Profile
default_profile = record {
  servers =
      record { tag = "dns-google"; type = "udp"; server = "8.8.8.8"; port = none; detour = "" }
      ∷ [];
  final = "dns-google";
  strategy = prefer_ipv4;
  fake_ip = record { enabled = false; inet4_range = ""; inet6_range = "" };
}

is_digit : Char → Bool
is_digit c = leb 48 (code c) && leb (code c) 57

is_lower : Char → Bool
is_lower c = leb 97 (code c) && leb (code c) 122

is_upper : Char → Bool
is_upper c = leb 65 (code c) && leb (code c) 90

is_dash : Char → Bool
is_dash c = code c == 45 || code c == 95

-- [a-z0-9_-]{0,left}$
tag_rest : ℕ → String → Bool
unfolding is_digit is_lower is_dash
tag_rest left Text.[] = true
tag_rest left (Text.◌∷◌ c s) =
    ltb 0 left && ((is_lower c || is_digit c || is_dash c) && tag_rest (left - 1) s)

-- tagPattern
matches_tag : String → Bool
unfolding tag_rest is_digit is_lower
matches_tag Text.[] = false
matches_tag (Text.◌∷◌ c s) = (is_lower c || is_digit c) && tag_rest 31 s

-- strings.ContainsAny(s, " \t\r\n")
has_white : String → Bool
has_white Text.[] = false
has_white (Text.◌∷◌ c s) =
    (code c == 32 || code c == 9 || code c == 13 || code c == 10) || has_white s

-- strings.TrimSuffix(s, ".")
trim_dot : String → String
trim_dot Text.[] = Text.[]
trim_dot (Text.◌∷◌ c Text.[]) = if code c == 46 then Text.[] else Text.◌∷◌ c Text.[]
trim_dot (Text.◌∷◌ c (Text.◌∷◌ d s)) = Text.◌∷◌ c (trim_dot (Text.◌∷◌ d s))

is_label_length : ℕ → Bool
is_label_length n = ltb 0 n && leb n 63

-- The labels between dots, the first with `before` bytes before the text
labels_fit : ℕ → String → Bool
unfolding is_digit is_lower is_upper is_dash is_label_length
labels_fit before Text.[] = is_label_length before
labels_fit before (Text.◌∷◌ c s) =
    if code c == 46
    then is_label_length before && labels_fit 0 s
    else (is_lower c || is_upper c || is_digit c || is_dash c) && labels_fit (before + 1) s

-- validateServerAddress, as whether it accepts
pub valid_address : Net → String → Bool
unfolding has_white trim_dot labels_fit
valid_address net value =
    not (str_eq value "" || ltb 253 (len value) || has_white value || net.is_number value)
    && elim (net.parse_addr (trim_dot value)) [
      | none ↦ labels_fit 0 (trim_dot value)
      | some zoned ↦ not zoned
    ]

-- validateCIDR, as whether it refuses
bad_prefix : Net → String → Bool → Bool
bad_prefix net value want_ipv6 = elim (net.parse_prefix value) [
  | none ↦ true
  | some is6 ↦ if want_ipv6 then not is6 else is6
]

bad_port_of : Option ℤ → Bool
bad_port_of none = false
bad_port_of (some p) = ltb_ℤ p (pos 1) || ltb_ℤ (pos 65_535) p

-- The first check that fails, if one does
first_error : List (Bool × ProfileError) → Result ProfileError (Unit {0})
first_error [] = ok tt
first_error ((bad, e) ∷ checks) = if bad then err e else first_error checks

is_local : String → Bool
is_local type = str_eq type "local" || str_eq type "hosts"

-- A server as the loop of `validateProfile` keeps it
clean_server : Server → Server
unfolding is_local
clean_server s = record {
  tag = trim_space s.tag;
  type = trim_space s.type;
  server = trim_space s.server;
  port = if is_local (trim_space s.type) then none else s.port;
  detour = trim_space s.detour;
}

server_checks : Net → List String → Server → List (Bool × ProfileError)
unfolding matches_tag valid_address bad_port_of is_local
server_checks net seen s =
    (not (matches_tag s.tag), bad_tag)
    ∷ (has s.tag seen, duplicate_tag)
    ∷ (not (has s.type supported_server_types), bad_type)
    ∷ (not (has s.detour ("" ∷ "proxy" ∷ "direct" ∷ "block" ∷ [])), bad_detour)
    ∷ (is_local s.type && not (str_eq s.server ""), has_address)
    ∷ (is_local s.type && not (str_eq s.detour ""), has_detour)
    ∷ (not (is_local s.type) && not (valid_address net s.server), bad_address)
    ∷ (not (is_local s.type) && bad_port_of s.port, bad_port)
    ∷ []

-- The loop of `validateProfile` over the servers
check_servers : Net → List String → List Server → Result ProfileError (List Server)
unfolding clean_server server_checks first_error
check_servers net seen [] = ok []
check_servers net seen (s ∷ ss) = do
  let c = clean_server s
  first_error (server_checks net seen c)
  rest ← check_servers net (c.tag ∷ seen) ss
  ok (c ∷ rest)

-- The tag of the only server stands for an empty final tag.
final_of : String → List Server → String
final_of final [] = final
final_of final (s ∷ []) = if str_eq final "" then s.tag else final
final_of final (s ∷ t ∷ ss) = final

or_default : String → String → String
or_default value default_value = if str_eq value "" then default_value else value

fake_ip_of : FakeIp → FakeIp
unfolding or_default
fake_ip_of f =
    if f.enabled
    then record {
      enabled = true;
      inet4_range = or_default (trim_space f.inet4_range) "198.18.0.0/15";
      inet6_range = or_default (trim_space f.inet6_range) "fc00::/18";
    }
    else record { enabled = false; inet4_range = ""; inet6_range = "" }

-- What `validateProfile` returns, of the servers that it keeps
normal : Profile → List Server → Profile
unfolding final_of or_default fake_ip_of
normal p servers = record {
  servers = servers;
  final = final_of (trim_space p.final) servers;
  strategy = or_default (trim_space p.strategy) prefer_ipv4;
  fake_ip = fake_ip_of p.fake_ip;
}

profile_checks : Net → Profile → List (Bool × ProfileError)
unfolding bad_prefix
profile_checks net q =
    (str_eq q.final "", no_final)
    ∷ (not (has q.final (map (λ (s : Server). s.tag) q.servers)), unknown_final)
    ∷ (not (has q.strategy supported_strategies), bad_strategy)
    ∷ (q.fake_ip.enabled && bad_prefix net q.fake_ip.inet4_range false, bad_inet4)
    ∷ (q.fake_ip.enabled && bad_prefix net q.fake_ip.inet6_range true, bad_inet6)
    ∷ (q.fake_ip.enabled && not (has q.strategy ("ipv4_only" ∷ prefer_ipv4 ∷ [])), ipv6_strategy)
    ∷ []

-- validateProfile
pub validate_profile : Net → Profile → Result ProfileError Profile
unfolding check_servers first_error normal profile_checks
validate_profile net p = do
  refuse (ltb (length p.servers) 1 || ltb 8 (length p.servers)) bad_count
  servers ← check_servers net [] p.servers
  let q = normal p servers
  first_error (profile_checks net q)
  ok q
