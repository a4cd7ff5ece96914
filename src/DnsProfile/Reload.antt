-- ===== src/DnsProfile/Reload.antt =====
-- Opening the stored profile again gives the one that the manager has.
use sing_box_webui.Prelude.{◌≡◌, refl, Bool, true, false, List, [], ◌∷◌, none, Result, ok, err}
use sing_box_webui.DnsProfile.{Profile, ProfileError, Net, default_profile, validate_profile}
use sing_box_webui.DnsProfile.Idempotent.{validate_profile_idem}
use sing_box_webui.DnsProfile.Store.{Manager, persist, update_valid, update, load, run}

-- The manager as it is opened where there is no file
abbrev pub fresh : Manager
fresh = record { profile = default_profile; disk = none }

abbrev Reloads : Net → Manager → Type 0
Reloads net m = load net m.disk ≡ ok m.profile

valid-Reloads :
    (net : Net) (saved : Bool) (input : Profile) (r : Result ProfileError Profile) (m : Manager)
    → validate_profile net input ≡ r
    → Reloads net m
    → Reloads net (update_valid saved r m).0
unfolding update_valid persist load
valid-Reloads net saved input (err e) m f h = h
valid-Reloads net true input (ok p) m f h = validate_profile_idem net input p f
valid-Reloads net false input (ok p) m f h = h

run-Reloads :
    (net : Net) (cs : List (Bool × Profile)) (m : Manager)
    → Reloads net m
    → Reloads net (run net cs m)
unfolding run update
run-Reloads net [] m h = h
run-Reloads net ((saved, input) ∷ cs) m h =
    run-Reloads net cs (update net saved input m).0
      (valid-Reloads net saved input (validate_profile net input) m refl h)

-- After any updates of a manager that was opened without a file, refused or not, saved or not, opening the
-- file again succeeds and gives the profile that the manager has.
pub load-run_updates :
    (net : Net) (cs : List (Bool × Profile))
    → load net (run net cs fresh).disk ≡ ok (run net cs fresh).profile
load-run_updates net cs = run-Reloads net cs fresh (unfold load in refl)
