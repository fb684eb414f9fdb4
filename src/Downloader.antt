-- ===== src/Downloader.antt =====
-- ppjudge/downloader.go: the cache of downloaded files, with its reference counts.
-- Each function below is one critical section under the mutex, or a whole operation made of them.
-- The name "ppj_N.txt" of a saved file stands as the int64 N and the empty name as `none`; a time is
-- in nanoseconds. What the network and the file system answer is an argument.
pub mod World
pub mod Counts
pub mod Invariant
pub mod Theorems
mod Tests
use Prim.Native.String.{String}
use popcon_sc.Prelude.{
  ◌-◌, negsuc, ℕ, ◌+◌, ◌%◌, ◌^◌, Bool, true, false, ◌&&◌, Option, none, some, List, [], ◌∷◌, map,
  ◌==◌, if◌then◌else◌, ℤ, pos, ◌-ℤ◌, ltb_ℤ, ◌==ℤ◌, add64, sub64, keep_if, GoMap, make, insert,
  delete_all,
}

pub record PpDownloader : Type 0 where
  pub encoded_name_to_file_name : GoMap ℤ
  pub last_update_time : GoMap ℤ
  pub counter : GoMap ℤ
  pub file_name_counter : ℤ

-- `NewPPDownloader`, once its directory is made.
unfoldable pub new_pp_downloader : PpDownloader
new_pp_downloader = record {
  encoded_name_to_file_name = make;
  last_update_time = make;
  counter = make;
  file_name_counter = pos 0;
}

-- Reading a missing key of a map of numbers gives 0.
abbrev pub or_zero : Option ℤ → ℤ
or_zero none = pos 0
or_zero (some z) = z

-- `newFileName`.
unfoldable pub new_file_name : PpDownloader → PpDownloader × ℤ
new_file_name ppd =
    let n = add64 ppd.file_name_counter (pos 1) in (record ppd { file_name_counter = n }, n)

-- The first critical section of `Download`: a file that is here already is counted, and its name is
-- returned.
unfoldable pub download_hit : String → ℤ → PpDownloader → PpDownloader × Option ℤ
download_hit enc now ppd = elim (ppd.counter.at enc) [
  | none ↦ (ppd, none)
  | some cnt ↦ (
    record ppd {
      counter = insert enc (add64 cnt (pos 1)) ppd.counter;
      last_update_time = insert enc now ppd.last_update_time;
    },
    ppd.encoded_name_to_file_name.at enc,
  )
]

-- The second critical section of `Download`: the new file is entered, unless another download of
-- the same file was faster. Returns the name to use, and the file to remove.
unfoldable pub download_store : String → ℤ → ℤ → PpDownloader → PpDownloader × Option ℤ × Option ℤ
download_store enc path now ppd = elim (ppd.counter.at enc) [
  | none ↦ (
    record ppd {
      counter = insert enc (pos 0) ppd.counter;
      encoded_name_to_file_name = insert enc path ppd.encoded_name_to_file_name;
      last_update_time = insert enc now ppd.last_update_time;
    },
    some path,
    none,
  )
  | some _ ↦ (ppd, ppd.encoded_name_to_file_name.at enc, some path)
]

-- The closure of `NewLocker`: its key, and the int32 `status` that counts the calls.
pub record PpLocker : Type 0 where
  pub key : String
  pub status : ℕ

-- `NewLocker`. `none` is `os.ErrNotExist`.
unfoldable pub new_locker : String → PpDownloader → PpDownloader × Option PpLocker
new_locker enc ppd = elim (ppd.counter.at enc) [
  | none ↦ (ppd, none)
  | some cnt ↦ (
    record ppd { counter = insert enc (add64 cnt (pos 1)) ppd.counter },
    some (record { key = enc; status = 0 }),
  )
]

-- `counter[enc]--`.
unfoldable pub release : String → PpDownloader → PpDownloader
release enc ppd = record ppd {
  counter = insert enc (sub64 (or_zero (ppd.counter.at enc)) (pos 1)) ppd.counter;
}

-- `Unlock`: the first call gives the reference back.
unfoldable pub unlock : PpLocker → PpDownloader → PpDownloader × PpLocker
unlock locker ppd =
    let called = (locker.status + 1) % 2 ^ 32 in
    (if called == 1 then release locker.key ppd else ppd, record locker { status = called })

-- What happens between the two critical sections of `Download`.
pub data Fetch : Type 0 where
  -- the server does not give the file
  unavailable : Fetch
  -- the new file cannot be created
  not_created : Fetch
  -- the copy breaks off
  not_copied : Fetch
  fetched : Fetch

pub data DownloadResult : Type 0 where
  failed : DownloadResult
  -- a name, with a locker or without one
  located : Option ℤ → Option PpLocker → DownloadResult

finish_download : String → PpDownloader × Option ℤ → PpDownloader × DownloadResult
finish_download enc (ppd, path) =
    let (ppd', locker) = new_locker enc ppd in (ppd', located path locker)

fetch_and_store : Fetch → String → ℤ → PpDownloader → PpDownloader × DownloadResult
unfolding finish_download
fetch_and_store unavailable enc now ppd = (ppd, failed)
fetch_and_store not_created enc now ppd = ((new_file_name ppd).0, failed)
fetch_and_store not_copied enc now ppd = ((new_file_name ppd).0, failed)
fetch_and_store fetched enc now ppd =
    let (named, path) = new_file_name ppd in
    let (stored, used, removed) = download_store enc path now named in
    finish_download enc (stored, used)

-- `Download`, where no other goroutine comes between: `now` at the first critical section and
-- `later` at the second.
unfoldable pub download : Fetch → String → ℤ → ℤ → PpDownloader → PpDownloader × DownloadResult
unfolding fetch_and_store finish_download
download outcome enc now later ppd =
    let (seen, path) = download_hit enc now ppd in
    elim path [
      | none ↦ fetch_and_store outcome enc later seen
      | some p ↦ finish_download enc (seen, some p)
    ]

-- `OpenFile` up to the call of `os.OpenFile`. `none` is `os.ErrNotExist`.
unfoldable pub open_file : String → PpDownloader → PpDownloader × Option ℤ
open_file enc ppd = elim (ppd.encoded_name_to_file_name.at enc) [
  | none ↦ (ppd, none)
  | some file ↦ (
    record ppd { counter = insert enc (add64 (or_zero (ppd.counter.at enc)) (pos 1)) ppd.counter },
    some file,
  )
]

-- `RunAutomaticallyDeleter` keeps unused files for a minute at least.
unfoldable pub clamp_expire : ℤ → ℤ
clamp_expire expire = if ltb_ℤ expire (pos 60_000_000_000) then pos 60_000_000_000 else expire

-- `now.Sub(v)` saturates at the ends of int64.
abbrev pub duration_since : ℤ → ℤ → ℤ
duration_since now v =
    let d = now -ℤ v in
    if ltb_ℤ (pos (2 ^ 63 - 1)) d
    then pos (2 ^ 63 - 1)
    else (if ltb_ℤ d (negsuc (2 ^ 63 - 1)) then negsuc (2 ^ 63 - 1) else d)

-- The entries that a round of the deleter takes: unused for longer than `expire`, and not counted.
unfoldable pub is_target : ℤ → ℤ → PpDownloader → String → Bool
is_target expire now ppd k = elim (ppd.last_update_time.at k) [
  | none ↦ false
  | some v ↦ ltb_ℤ expire (duration_since now v) && (or_zero (ppd.counter.at k) ==ℤ pos 0)
]

-- A round of `RunAutomaticallyDeleter`, with the files that it then removes.
unfoldable pub sweep : ℤ → ℤ → PpDownloader → PpDownloader × List (Option ℤ)
unfolding is_target
sweep expire now ppd =
    let targets = keep_if (is_target expire now ppd) ppd.last_update_time.keys in
    (
      record ppd {
        counter = delete_all targets ppd.counter;
        encoded_name_to_file_name = delete_all targets ppd.encoded_name_to_file_name;
        last_update_time = delete_all targets ppd.last_update_time;
      },
      map (λ k. ppd.encoded_name_to_file_name.at k) targets,
    )
