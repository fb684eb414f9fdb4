-- ===== src/Downloader/Counts.antt =====
-- ppjudge/downloader.go: what each critical section does to the entry of one file.
use Prim.Native.String.{String}
use text.Mathlib.Text.{◌==◌}
use text.Mathlib.TextEquality.{eq_iff}
use popcon_sc.Prelude.{
  add64_one, sub64_one, ℕ, ◌+◌, ◌-◌, ◌^◌, ◌≤◌, ◌<◌, ◌≡◌, true, Option, none, some, if◌then◌else◌, ℤ,
  pos, bit, is_some, at-delete_all, elem-keep_if, keep_if, arith, insert,
}
use popcon_sc.Downloader.{
  PpDownloader, download_hit, download_store, new_locker, release, open_file, sweep, is_target,
}

-- What the three maps say of a key that has r references.
abbrev pub KeyInv : Option ℤ → Option ℤ → Option ℤ → ℕ → Type 0
KeyInv none names times r = (names ≡ none) × (times ≡ none) × (r ≡ 0)
KeyInv (some z) names times r = (z ≡ pos r) × (is_some names ≡ true) × (is_some times ≡ true)

abbrev pub Counts : PpDownloader → String → ℕ → Type 0
Counts ppd k r =
    KeyInv (ppd.counter.at k) (ppd.encoded_name_to_file_name.at k) (ppd.last_update_time.at k) r

-- One critical section at a time, seen from one key j.
module _ (ppd : PpDownloader) (k j : String) (r : ℕ) (inv : Counts ppd j r) where
  pub download_hit-Counts :
      (now cnt : ℤ)
      → r < 2 ^ 62
      → ppd.counter.at k ≡ some cnt
      → Counts (download_hit k now ppd).0 j (r + bit (k == j))
  unfolding download_hit insert
  download_hit-Counts now cnt small h = ground (arith, eq_iff k j, add64_one r)

  pub download_store-Counts : (path now : ℤ) → Counts (download_store k path now ppd).0 j r
  unfolding download_store insert
  download_store-Counts path now = ground (arith, eq_iff k j)

  pub new_locker-Counts :
      r < 2 ^ 62
      → Counts
          (new_locker k ppd).0
          j
          (r + (if is_some (new_locker k ppd).1 then bit (k == j) else 0))
  unfolding new_locker insert
  new_locker-Counts small = ground (arith, eq_iff k j, add64_one r)

  pub open_file-Counts :
      (path : ℤ)
      → r < 2 ^ 62
      → (open_file k ppd).1 ≡ some path
      → Counts (open_file k ppd).0 j (r + bit (k == j))
  unfolding open_file insert
  open_file-Counts path small h = ground (arith, eq_iff k j, add64_one r)

  -- The key that is released has a reference.
  pub release-Counts : r < 2 ^ 62 → bit (k == j) ≤ r → Counts (release k ppd) j (r - bit (k == j))
  unfolding release insert
  release-Counts small h = ground (arith, eq_iff k j, sub64_one r)

  pub sweep-Counts : (expire now : ℤ) → Counts (sweep expire now ppd).0 j r
  unfolding sweep
  sweep-Counts expire now = ground (
    arith,
    at-delete_all (keep_if (is_target expire now ppd) ppd.last_update_time.keys) j ppd.counter,
    at-delete_all (keep_if (is_target expire now ppd) ppd.last_update_time.keys) j
        ppd.encoded_name_to_file_name,
    at-delete_all (keep_if (is_target expire now ppd) ppd.last_update_time.keys) j
        ppd.last_update_time,
    elem-keep_if (is_target expire now ppd) j ppd.last_update_time.keys,
  )
