-- ===== src/DnsProfile/Store.antt =====
-- `Update` and `load` of internal/dnsprofile/manager.go. The file, if there is one, is taken to hold
-- the profile that was encoded into it; `update` runs under the lock, and is one step.
use sing_box_webui.Prelude.{Bool, true, false, List, [], ◌∷◌, Option, none, some, Result, ok, err}
use sing_box_webui.DnsProfile.{
  Profile, ProfileError, not_saved, Net, default_profile, validate_profile,
}

pub record Manager : Type 0 where
  pub profile : Profile
  pub disk : Option Profile

unfoldable pub persist : Bool → Profile → Manager → Manager × Result ProfileError Profile
persist true p m = (record { profile = p; disk = some p }, ok p)
persist false p m = (m, err not_saved)

unfoldable pub update_valid :
    Bool → Result ProfileError Profile → Manager → Manager × Result ProfileError Profile
unfolding persist
update_valid saved (err e) m = (m, err e)
update_valid saved (ok p) m = persist saved p m

-- Update
unfoldable pub update : Net → Bool → Profile → Manager → Manager × Result ProfileError Profile
unfolding update_valid
update net saved input m = update_valid saved (validate_profile net input) m

-- load
unfoldable pub load : Net → Option Profile → Result ProfileError Profile
load net none = ok default_profile
load net (some p) = validate_profile net p

unfoldable pub run : Net → List (Bool × Profile) → Manager → Manager
unfolding update
run net [] m = m
run net ((saved, input) ∷ cs) m = run net cs (update net saved input m).0
