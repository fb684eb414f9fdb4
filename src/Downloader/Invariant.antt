-- ===== src/Downloader/Invariant.antt =====
-- ppjudge/downloader.go: the count of a file is the number of its locks and opened files and of the
-- references that nobody gives back, whatever the goroutines do.
use Prim.Native.String.{String}
use text.Mathlib.Text.{◌==◌}
use popcon_sc.Prelude.{
  ℕ, suc, ◌+◌, ◌^◌, ◌≤◌, ◌<◌, ◌≡◌, refl, true, false, Option, none, some, List, ◌∷◌, ℤ,
  count_if-le-length, count_if-set, length-set, length, get_elem?, set, All, All-set, All-map,
  All-get, subst, arith, dec_lt,
}
use popcon_sc.Downloader.{
  PpDownloader, PpLocker, new_pp_downloader, new_file_name, download_hit, download_store,
  new_locker, unlock, release, open_file, sweep,
}
use popcon_sc.Downloader.World.{
  World, OpenedFile, start, Step, hit, name, store, lock, give_back, open_ok, open_fails, close,
  tick, add_locker, Run, here, next, held, lost, holds_locker, holds_file,
}
use popcon_sc.Downloader.Counts.{
  Counts, download_hit-Counts, download_store-Counts, new_locker-Counts, open_file-Counts,
  release-Counts, sweep-Counts,
}

-- After n steps.
pub record Inv (n : ℕ) (w : World) : Type 0 where
  pub counts : (k : String) → Counts w.ppd k (held k w + lost k w)
  pub few : length w.lockers + length w.files + length w.unowned ≤ n
  pub calls : All (λ l. l.status ≤ n) w.lockers

references-le : (n : ℕ) (w : World) (k : String) → Inv n w → held k w + lost k w ≤ n
references-le n w k v = omega (
  arith,
  v.few,
  count_if-le-length (holds_locker k) w.lockers,
  count_if-le-length (holds_file k) w.files,
  count_if-le-length (λ j. j == k) w.unowned,
)

calls_mono :
    (n : ℕ) (ls : List PpLocker) → All (λ l. l.status ≤ n) ls → All (λ l. l.status ≤ suc n) ls
calls_mono n ls a = All-map (λ l. l.status ≤ n) (λ l. l.status ≤ suc n) ls (λ l h. omega arith) a

new_locker-status :
    (ppd : PpDownloader) (k : String) (l : PpLocker) → (new_locker k ppd).1 ≡ some l → l.status ≡ 0
unfolding new_locker
new_locker-status ppd k l h = ground arith

add_locker-calls :
    (n : ℕ) (o : Option PpLocker) (ls : List PpLocker)
    → ((l : PpLocker) → o ≡ some l → l.status ≡ 0)
    → All (λ l. l.status ≤ n) ls
    → All (λ l. l.status ≤ n) (add_locker o ls)
add_locker-calls n none ls h a = a
add_locker-calls n (some l) ls h a = (omega (arith, h l refl), a)

-- The first call of a locker's `Unlock` releases its key.
pub unlock_first :
    (l : PpLocker) (ppd : PpDownloader)
    → l.status ≡ 0
    → unlock l ppd ≡ (release l.key ppd, record l { status = 1 })
unfolding unlock
unlock_first l ppd h = ground arith

-- Every later call does nothing but count.
pub unlock_again :
    (l : PpLocker) (ppd : PpDownloader)
    → 0 < l.status
    → l.status < 2 ^ 31
    → unlock l ppd ≡ (ppd, record l { status = l.status + 1 })
unfolding unlock
unlock_again l ppd h small = ground arith

start-Inv : Inv 0 start
unfolding new_pp_downloader
start-Inv = record { counts = λ k. (refl, refl, omega arith); few = omega arith; calls = tt }

module _ (n : ℕ) (w : World) (v : Inv n w) (small : n < 2 ^ 31) where
  -- The references of a key fit into the counter.
  bounded : (j : String) → held j w + lost j w < 2 ^ 62
  bounded j = omega (arith, references-le n w j v)

  hit-Inv :
      (k : String) (now cnt : ℤ)
      → w.ppd.counter.at k ≡ some cnt
      → Inv (suc n) (record w { ppd = (download_hit k now w.ppd).0; unowned = k ∷ w.unowned })
  hit-Inv k now cnt h = record {
    counts = λ j.
        subst (Counts (download_hit k now w.ppd).0 j) (ground arith)
          (download_hit-Counts w.ppd k j _ (v.counts j) now cnt (bounded j) h);
    few = omega (arith, v.few);
    calls = calls_mono n w.lockers v.calls;
  }

  store-Inv :
      (k : String) (path now : ℤ)
      → Inv (suc n) (record w { ppd = (download_store k path now w.ppd).0 })
  store-Inv k path now = record {
    counts = λ j. download_store-Counts w.ppd k j _ (v.counts j) path now;
    few = omega (arith, v.few);
    calls = calls_mono n w.lockers v.calls;
  }

  name-Inv : Inv (suc n) (record w { ppd = (new_file_name w.ppd).0 })
  unfolding new_file_name
  name-Inv = record {
    counts = v.counts;
    few = omega (arith, v.few);
    calls = calls_mono n w.lockers v.calls;
  }

  lock-Inv :
      (k : String)
      → Inv (suc n) (record w {
        ppd = (new_locker k w.ppd).0;
        lockers = add_locker (new_locker k w.ppd).1 w.lockers;
      })
  unfolding new_locker
  lock-Inv k = record {
    counts = λ j.
        subst (Counts (new_locker k w.ppd).0 j) (ground arith)
          (new_locker-Counts w.ppd k j _ (v.counts j) (bounded j));
    few = ground (arith, v.few);
    calls =
        add_locker-calls (suc n) (new_locker k w.ppd).1 w.lockers (λ l. new_locker-status w.ppd k l)
          (calls_mono n w.lockers v.calls);
  }

  open_ok-Inv :
      (k : String) (path : ℤ)
      → (open_file k w.ppd).1 ≡ some path
      → Inv (suc n) (record w {
        ppd = (open_file k w.ppd).0;
        files = record { key = k; is_open = true } ∷ w.files;
      })
  open_ok-Inv k path h = record {
    counts = λ j.
        subst (Counts (open_file k w.ppd).0 j) (ground arith)
          (open_file-Counts w.ppd k j _ (v.counts j) path (bounded j) h);
    few = omega (arith, v.few);
    calls = calls_mono n w.lockers v.calls;
  }

  open_fails-Inv :
      (k : String) (path : ℤ)
      → (open_file k w.ppd).1 ≡ some path
      → Inv (suc n) (record w { ppd = (open_file k w.ppd).0; unowned = k ∷ w.unowned })
  open_fails-Inv k path h = record {
    counts = λ j.
        subst (Counts (open_file k w.ppd).0 j) (ground arith)
          (open_file-Counts w.ppd k j _ (v.counts j) path (bounded j) h);
    few = omega (arith, v.few);
    calls = calls_mono n w.lockers v.calls;
  }

  give_back_first-Inv :
      (i : ℕ) (l : PpLocker)
      → get_elem? w.lockers i ≡ some l
      → l.status ≡ 0
      → Inv (suc n) (record w {
        ppd = release l.key w.ppd;
        lockers = set w.lockers i (record l { status = 1 });
      })
  give_back_first-Inv i l h z = record {
    counts = λ j.
        let change = count_if-set (holds_locker j) w.lockers i l (record l { status = 1 }) h in
        subst (Counts (release l.key w.ppd) j) (ground (arith, change))
          (release-Counts w.ppd l.key j _ (v.counts j) (bounded j) (ground (arith, change)));
    few = omega (arith, v.few, length-set w.lockers i (record l { status = 1 }));
    calls =
        All-set (λ l. l.status ≤ suc n) w.lockers i (record l { status = 1 })
          (calls_mono n w.lockers v.calls) (omega arith);
  }

  give_back_again-Inv :
      (i : ℕ) (l : PpLocker)
      → get_elem? w.lockers i ≡ some l
      → 0 < l.status
      → l.status ≤ n
      → Inv (suc n) (record w { lockers = set w.lockers i (record l { status = l.status + 1 }) })
  give_back_again-Inv i l h p b = record {
    counts = λ j.
        let change =
          count_if-set (holds_locker j) w.lockers i l (record l { status = l.status + 1 }) h in
        subst (Counts w.ppd j) (ground (arith, change)) (v.counts j);
    few = omega (arith, v.few, length-set w.lockers i (record l { status = l.status + 1 }));
    calls =
        All-set (λ l. l.status ≤ suc n) w.lockers i (record l { status = l.status + 1 })
          (calls_mono n w.lockers v.calls) (omega arith);
  }

  give_back-Inv :
      (i : ℕ) (l : PpLocker)
      → get_elem? w.lockers i ≡ some l
      → Inv
          (suc n)
          (record w { ppd = (unlock l w.ppd).0; lockers = set w.lockers i (unlock l w.ppd).1 })
  give_back-Inv i l h = elim (dec_lt 0 l.status) [
    | yes p ↦
        let b = All-get (λ l. l.status ≤ n) w.lockers i l h v.calls in
        rw (unlock_again l w.ppd p (omega arith)) (give_back_again-Inv i l h p b)
    | no z ↦ rw (unlock_first l w.ppd (omega arith)) (give_back_first-Inv i l h (omega arith))
  ]

  close-Inv :
      (i : ℕ) (f : OpenedFile)
      → get_elem? w.files i ≡ some f
      → f.is_open ≡ true
      → Inv (suc n) (record w {
        ppd = release f.key w.ppd;
        files = set w.files i (record f { is_open = false });
      })
  close-Inv i f h o = record {
    counts = λ j.
        let change = count_if-set (holds_file j) w.files i f (record f { is_open = false }) h in
        subst (Counts (release f.key w.ppd) j) (ground (arith, change))
          (release-Counts w.ppd f.key j _ (v.counts j) (bounded j) (ground (arith, change)));
    few = omega (arith, v.few, length-set w.files i (record f { is_open = false }));
    calls = calls_mono n w.lockers v.calls;
  }

  tick-Inv : (expire now : ℤ) → Inv (suc n) (record w { ppd = (sweep expire now w.ppd).0 })
  tick-Inv expire now = record {
    counts = λ j. sweep-Counts w.ppd "" j _ (v.counts j) expire now;
    few = omega (arith, v.few);
    calls = calls_mono n w.lockers v.calls;
  }

pub Step-Inv : {n : ℕ} {w u : World} → Inv n w → n < 2 ^ 31 → Step w u → Inv (suc n) u
Step-Inv {n} v small (hit w k now cnt h) = hit-Inv n w v small k now cnt h
Step-Inv {n} v small (name w) = name-Inv n w v small
Step-Inv {n} v small (store w k path now) = store-Inv n w v small k path now
Step-Inv {n} v small (lock w k) = lock-Inv n w v small k
Step-Inv {n} v small (give_back w i l h) = give_back-Inv n w v small i l h
Step-Inv {n} v small (open_ok w k path h) = open_ok-Inv n w v small k path h
Step-Inv {n} v small (open_fails w k path h) = open_fails-Inv n w v small k path h
Step-Inv {n} v small (close w i f h o) = close-Inv n w v small i f h o
Step-Inv {n} v small (tick w expire now) = tick-Inv n w v small expire now

pub Run-Inv : {n : ℕ} {w : World} → n < 2 ^ 31 → Run start n w → Inv n w
Run-Inv small here = start-Inv
Run-Inv small (next {n} r s) = Step-Inv (Run-Inv {n = n} (omega arith) r) (omega arith) s
