-- ===== src/Downloader/World.antt =====
-- ppjudge/downloader.go: every interleaving of the downloads, locks, opened files and deletions of
-- any number of goroutines.
use Prim.Native.String.{String}
use text.Mathlib.Text.{◌==◌}
use popcon_sc.Prelude.{
  ℕ, suc, ◌+◌, ◌≡◌, Bool, true, false, ◌&&◌, Option, none, some, List, [], ◌∷◌, ℤ, count_if,
  get_elem?, set,
}
use popcon_sc.Prelude.Tests as Tests
use popcon_sc.Downloader.{
  PpDownloader, PpLocker, new_pp_downloader, new_file_name, download_hit, download_store,
  new_locker, unlock, release, open_file, sweep,
}

-- A `PPFile` handed out by `OpenFile`: its key, and whether `Close` is still to come.
pub record OpenedFile : Type 0 where
  pub key : String
  pub is_open : Bool

-- The downloader, every locker and file handed out, and the references that were taken and that no
-- locker or file gives back: the one that `download_hit` takes beside that of its locker, and the
-- one of an `OpenFile` whose `os.OpenFile` fails.
pub record World : Type 0 where
  pub ppd : PpDownloader
  pub lockers : List PpLocker
  pub files : List OpenedFile
  pub unowned : List String

abbrev pub start : World
start = record { ppd = new_pp_downloader; lockers = []; files = []; unowned = [] }

abbrev pub add_locker : Option PpLocker → List PpLocker → List PpLocker
add_locker none ls = ls
add_locker (some l) ls = l ∷ ls

-- One critical section of one goroutine. A file is closed once (ppjudge/main.go).
pub data Step : World → World → Type 0 where
  hit :
      (w : World) (k : String) (now cnt : ℤ)
      → w.ppd.counter.at k ≡ some cnt
      → Step w (record w { ppd = (download_hit k now w.ppd).0; unowned = k ∷ w.unowned })
  name : (w : World) → Step w (record w { ppd = (new_file_name w.ppd).0 })
  store :
      (w : World) (k : String) (path now : ℤ)
      → Step w (record w { ppd = (download_store k path now w.ppd).0 })
  lock :
      (w : World) (k : String)
      → Step w (record w {
        ppd = (new_locker k w.ppd).0;
        lockers = add_locker (new_locker k w.ppd).1 w.lockers;
      })
  give_back :
      (w : World) (i : ℕ) (l : PpLocker)
      → get_elem? w.lockers i ≡ some l
      → Step w (record w { ppd = (unlock l w.ppd).0; lockers = set w.lockers i (unlock l w.ppd).1 })
  open_ok :
      (w : World) (k : String) (path : ℤ)
      → (open_file k w.ppd).1 ≡ some path
      → Step w (record w {
        ppd = (open_file k w.ppd).0;
        files = record { key = k; is_open = true } ∷ w.files;
      })
  open_fails :
      (w : World) (k : String) (path : ℤ)
      → (open_file k w.ppd).1 ≡ some path
      → Step w (record w { ppd = (open_file k w.ppd).0; unowned = k ∷ w.unowned })
  close :
      (w : World) (i : ℕ) (f : OpenedFile)
      → get_elem? w.files i ≡ some f
      → f.is_open ≡ true
      → Step w (record w {
        ppd = release f.key w.ppd;
        files = set w.files i (record f { is_open = false });
      })
  tick : (w : World) (expire now : ℤ) → Step w (record w { ppd = (sweep expire now w.ppd).0 })

-- `Run n v w`: n steps lead from v to w.
pub data Run (v : World) : ℕ → World → Type 0 where
  here : Run v 0 v
  next : {n : ℕ} {w u : World} → Run v n w → Step w u → Run v (suc n) u

abbrev pub holds_locker : String → PpLocker → Bool
holds_locker k l = l.key == k && Tests.◌==◌ l.status 0

abbrev pub holds_file : String → OpenedFile → Bool
holds_file k f = f.key == k && f.is_open

-- How many locks and opened files of a key are out.
abbrev pub held : String → World → ℕ
held k w = count_if (holds_locker k) w.lockers + count_if (holds_file k) w.files

abbrev pub lost : String → World → ℕ
lost k w = count_if (λ j. j == k) w.unowned
