-- ===== src/Downloader/Theorems.antt =====
-- ppjudge/downloader.go: what the counts of the cache guarantee, and the reference that a cache hit
-- keeps for ever.
use Prim.Native.String.{String}
use text.Mathlib.TextPositions.{eq_refl}
use popcon_sc.Prelude.{
  add64_one, sub64_one, ℕ, suc, ◌+◌, ◌^◌, ◌≤◌, ◌<◌, ◌≡◌, true, false, Option, none, some, ◌∷◌, ℤ,
  pos, is_some, at-delete_all, elem-keep_if, keep_if, arith, insert,
}
use popcon_sc.Downloader.{
  PpDownloader, DownloadResult, failed, located, Fetch, fetched, new_locker, unlock, download,
  download_hit, download_store, new_file_name, sweep, is_target, release,
}
use popcon_sc.Downloader.World.{
  World, Step, hit, name, store, lock, give_back, open_ok, open_fails, close, tick, start, Run,
  here, next, held, lost,
}
use popcon_sc.Downloader.Invariant.{Run-Inv}

-- After any run of fewer than 2^31 steps of any goroutines, the count of a file is the number of its
-- locks and opened files that are out, and of the references that nobody gives back; a file with
-- such a reference has a name.
pub counter-held :
    (n : ℕ) (w : World) (k : String)
    → n < 2 ^ 31
    → Run start n w
    → ((cnt : ℤ) → w.ppd.counter.at k ≡ some cnt → cnt ≡ pos (held k w + lost k w))
      × (0 < held k w + lost k w → is_some (w.ppd.encoded_name_to_file_name.at k) ≡ true)
counter-held n w k small r =
    let c = (Run-Inv small r).counts k in (λ cnt h. ground (arith, c), λ p. ground (arith, c))

-- A round of the deleter changes an entry only if the entry has been unused for longer than
-- `expire` and its count is 0.
pub sweep_sound :
    (expire now : ℤ) (ppd : PpDownloader) (k : String)
    → is_target expire now ppd k ≡ false
    → ((sweep expire now ppd).0.encoded_name_to_file_name.at k ≡ ppd.encoded_name_to_file_name.at k)
      × ((sweep expire now ppd).0.counter.at k ≡ ppd.counter.at k)
      × ((sweep expire now ppd).0.last_update_time.at k ≡ ppd.last_update_time.at k)
unfolding sweep
sweep_sound expire now ppd k h = ground (
  arith,
  at-delete_all (keep_if (is_target expire now ppd) ppd.last_update_time.keys) k ppd.counter,
  at-delete_all (keep_if (is_target expire now ppd) ppd.last_update_time.keys) k
      ppd.encoded_name_to_file_name,
  at-delete_all (keep_if (is_target expire now ppd) ppd.last_update_time.keys) k
      ppd.last_update_time,
  elem-keep_if (is_target expire now ppd) k ppd.last_update_time.keys,
)

-- A file with a lock or an opened file that is out survives every round of the deleter, whatever the
-- clock says: after any run of fewer than 2^31 steps it has a name, and the round keeps it.
pub sweep_keeps_held :
    (n : ℕ) (w : World) (k : String) (expire now : ℤ)
    → n < 2 ^ 31
    → Run start n w
    → 0 < held k w
    → (is_some (w.ppd.encoded_name_to_file_name.at k) ≡ true)
      × ((sweep expire now w.ppd).0.encoded_name_to_file_name.at k
          ≡ w.ppd.encoded_name_to_file_name.at k)
unfolding is_target
sweep_keeps_held n w k expire now small r p =
    let c = (Run-Inv small r).counts k in
    (ground (arith, c), (sweep_sound expire now w.ppd k (ground (arith, c))).0)

lost-Step : {w u : World} (k : String) → Step w u → lost k w ≤ lost k u
lost-Step k (hit w j now cnt h) = ground arith
lost-Step k (name w) = omega arith
lost-Step k (store w j path now) = omega arith
lost-Step k (lock w j) = omega arith
lost-Step k (give_back w i l h) = omega arith
lost-Step k (open_ok w j path h) = omega arith
lost-Step k (open_fails w j path h) = ground arith
lost-Step k (close w i f h o) = omega arith
lost-Step k (tick w expire now) = omega arith

-- One run after another, the second of m steps.
Run-append : {v w u : World} {n m : ℕ} → Run v n w → Run w m u → (l : ℕ) × (l ≡ n + m) × Run v l u
Run-append {n} r here = (n, omega arith, r)
Run-append r (next q s) = let (l, e, t) = Run-append r q in (suc l, omega arith, next t s)

lost-Run : {w u : World} {m : ℕ} (k : String) → Run w m u → lost k w ≤ lost k u
lost-Run k here = omega arith
lost-Run k (next r s) = omega (arith, lost-Run k r, lost-Step k s)

-- The bug: once a download has found its file in the cache, that file keeps its entry for ever. In
-- every state that is reached afterwards, within 2^31 steps in all, the file has a name, and no
-- round of the deleter takes it, also when nobody holds a lock or an opened file of it.
pub download_hit_leaks :
    (n m : ℕ) (w u : World) (k : String) (now cnt : ℤ)
    → Run start n w
    → w.ppd.counter.at k ≡ some cnt
    → Run (record w { ppd = (download_hit k now w.ppd).0; unowned = k ∷ w.unowned }) m u
    → n + m + 1 < 2 ^ 31
    → (is_some (u.ppd.encoded_name_to_file_name.at k) ≡ true)
      × ((expire later : ℤ) → is_target expire later u.ppd k ≡ false)
unfolding is_target
download_hit_leaks n m w u k now cnt r h q small =
    let (l, e, t) = Run-append (next r (hit w k now cnt h)) q in
    let c = (Run-Inv {n = l} (omega arith) t).counts k in
    let kept = lost-Run k q in
    (ground (arith, c, kept, eq_refl k), λ expire later. ground (arith, c, kept, eq_refl k))

-- The state that a download leaves once its locker, if there is one, has been unlocked.
abbrev pub after_unlock : PpDownloader × DownloadResult → PpDownloader
after_unlock (ppd, failed) = ppd
after_unlock (ppd, located path none) = ppd
after_unlock (ppd, located path (some l)) = (unlock l ppd).0

-- What the count of a file becomes by a download.
abbrev count_after_fetch : Fetch → Option ℤ
count_after_fetch fetched = some (pos 0)
count_after_fetch _ = none

-- A file that was not there: with no other goroutine between, a download and the `Unlock` of its
-- locker leave it with count 0 if it was fetched, and without an entry on every failure.
pub download_miss-unlock :
    (outcome : Fetch) (k : String) (now later : ℤ) (ppd : PpDownloader)
    → ppd.counter.at k ≡ none
    → (after_unlock (download outcome k now later ppd)).counter.at k ≡ count_after_fetch outcome
unfolding download download_hit download_store new_locker new_file_name unlock release insert
download_miss-unlock fetched k now later ppd h =
    ground (arith, eq_refl k, add64_one 0 (omega arith), sub64_one 1 (omega arith) (omega arith))
download_miss-unlock _ k now later ppd h = ground arith

-- The bug in one thread: a file that was there with count r, below 2^62 - 2, is left with count r + 1
-- by a download and the `Unlock` of its locker, where r would be right.
pub download_hit-unlock :
    (outcome : Fetch) (k : String) (now later : ℤ) (ppd : PpDownloader) (r : ℕ) (p : ℤ)
    → r + 2 < 2 ^ 62
    → ppd.counter.at k ≡ some (pos r)
    → ppd.encoded_name_to_file_name.at k ≡ some p
    → (after_unlock (download outcome k now later ppd)).counter.at k ≡ some (pos (r + 1))
unfolding download download_hit download_store new_locker new_file_name unlock release insert
download_hit-unlock outcome k now later ppd r p small h e =
    ground (arith, eq_refl k, add64_one r, add64_one (r + 1), sub64_one (r + 1 + 1))
