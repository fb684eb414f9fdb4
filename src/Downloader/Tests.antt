-- ===== src/Downloader/Tests.antt =====
-- ppjudge/downloader.go: one file downloaded, locked, found in the cache and given back.
use Prim.Native.String.{String}
use popcon_sc.Prelude.{
  ◌<◌, ◌≡◌, refl, true, false, some, [], ◌∷◌, ℤ, pos, is_some, arith, insert, ◌-ℤ◌,
}
use popcon_sc.Downloader.{
  new_pp_downloader, new_locker, download_hit, download_store, sweep, is_target,
}
use popcon_sc.Downloader.World.{World, store, lock, start, Run, here, next}
use popcon_sc.Downloader.Theorems.{counter-held, sweep_keeps_held, download_hit_leaks}

abbrev code_file : String
code_file = "submission_codex.txtsubmission_code"

-- The file is stored and locked.
abbrev stored : World
stored = record start { ppd = (download_store code_file (pos 1) (pos 0) start.ppd).0 }

abbrev locked : World
locked = record stored {
  ppd = (new_locker code_file stored.ppd).0;
  lockers = record { key = code_file; status = 0 } ∷ [];
}

stored-Run : Run start 1 stored
stored-Run = next here (store start code_file (pos 1) (pos 0))

locked-Run : Run start 2 locked
unfolding new_locker download_store new_pp_downloader insert
locked-Run = next stored-Run (lock stored code_file)

counter-held_example :
    ((cnt : ℤ) → locked.ppd.counter.at code_file ≡ some cnt → cnt ≡ pos 1)
    × (0 < 1 → is_some (locked.ppd.encoded_name_to_file_name.at code_file) ≡ true)
counter-held_example = counter-held 2 locked code_file (omega arith) locked-Run

sweep_keeps_held_example :
    (is_some (locked.ppd.encoded_name_to_file_name.at code_file) ≡ true)
    × ((sweep (pos 60) (pos 1000) locked.ppd).0.encoded_name_to_file_name.at code_file
        ≡ locked.ppd.encoded_name_to_file_name.at code_file)
sweep_keeps_held_example =
    sweep_keeps_held 2 locked code_file (pos 60) (pos 1000) (omega arith) locked-Run (omega arith)

-- The locker of the first download is given back, and the file is still kept.
abbrev found : World
found = record stored {
  ppd = (download_hit code_file (pos 5) stored.ppd).0;
  unowned = code_file ∷ [];
}

download_hit_leaks_example :
    (is_some (found.ppd.encoded_name_to_file_name.at code_file) ≡ true)
    × ((expire later : ℤ) → is_target expire later found.ppd code_file ≡ false)
unfolding download_store new_pp_downloader insert
download_hit_leaks_example =
    download_hit_leaks 1 0 stored found code_file (pos 5) (pos 0) stored-Run refl here (omega arith)

-- An unused file goes once its time is over.
sweep_removes : (sweep (pos 60) (pos 100) stored.ppd).1 ≡ some (pos 1) ∷ []
unfolding sweep download_store new_pp_downloader insert ◌-ℤ◌
sweep_removes = refl
