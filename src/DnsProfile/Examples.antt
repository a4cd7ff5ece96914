-- ===== src/DnsProfile/Examples.antt =====
-- The theorem on DNS profiles, applied to an update that is saved, and one whose save fails.
use sing_box_webui.Prelude.{String, ◌≡◌, Bool, true, false, List, [], ◌∷◌, none, some, str_eq, ok}
use sing_box_webui.Prelude.Int.{pos}
use sing_box_webui.DnsProfile.{Net, Profile}
use sing_box_webui.DnsProfile.Store.{load, run}
use sing_box_webui.DnsProfile.Reload.{fresh, load-run_updates}

-- No text is taken to be a number or an address.
abbrev net : Net
net = record {
  is_number = λ _. false;
  parse_addr = λ _. none;
  parse_prefix = λ text. some (str_eq text "fc00::/18");
}

abbrev profile : String → Profile
profile server = record {
  servers =
      record { tag = " main "; type = "tls"; server = server; port = some (pos 853); detour = "" }
      ∷ [];
  final = "";
  strategy = "";
  fake_ip = record { enabled = true; inet4_range = ""; inet6_range = "" };
}

abbrev calls : List (Bool × Profile)
calls = (true, profile "dns.example.com") ∷ (false, profile "other.example.com") ∷ []

-- Tests

load-run_updates_example : load net (run net calls fresh).disk ≡ ok (run net calls fresh).profile
load-run_updates_example = load-run_updates net calls
