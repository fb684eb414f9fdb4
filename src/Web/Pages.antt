-- ===== src/Web/Pages.antt =====
-- ppweb/pagination_helper.go: the links to the pages around the current one.
use popcon_sc.Prelude.{
  ℕ, zero, suc, ◌+◌, ◌*◌, ◌/◌, ◌%◌, ◌≤◌, ◌<◌, ◌≡◌, Bool, true, false, Option, none, some, List, [],
  ◌∷◌, ◌==◌, if◌then◌else◌, arith, ℤ, pos, ◌-ℤ◌, ◌+ℤ◌, ltb_ℤ, leb_ℤ, +ℤ_parts, Bool-cases, ==_iff,
  sym, ap, ◌∙◌, subst, inl, inr, ◌&&◌, ◌==ℤ◌, All,
}
use native.Mathlib.Omega.{div_fact, mod_fact}

pub record PageHelperLink : Type 0 where
  pub page : ℤ
  pub active : Bool

pub record PageHelper : Type 0 where
  pub current : ℤ
  pub max_page : ℕ
  pub contents_per_page : ℕ
  pub page_links : List PageHelperLink

-- `maxPages`; `contentsPerPage` is not 0.
unfoldable pub max_pages : ℕ → ℕ → ℕ
max_pages contents_count contents_per_page =
    if (contents_count % contents_per_page) == 0
    then contents_count / contents_per_page
    else contents_count / contents_per_page + 1

-- The loop of `NewPageHelper`, from i on, over n more numbers.
unfoldable pub links : ℤ → ℕ → ℕ → ℤ → List PageHelperLink
links current max zero i = []
links current max (suc n) i =
    let rest = links current max n (i +ℤ pos 1) in
    if ltb_ℤ i (pos 1)
    then rest
    else (if ltb_ℤ (pos max) i then rest else record { page = i; active = i ==ℤ current } ∷ rest)

-- `NewPageHelper`, where no sum wraps around. `none` is the redirection to page 1.
unfoldable pub new_page_helper : ℤ → ℕ → ℕ → ℕ → Option PageHelper
unfolding links max_pages
new_page_helper current_page contents_count contents_per_page choices =
    let max = max_pages contents_count contents_per_page in
    let pages = links current_page max (choices * 2 + 1) (current_page -ℤ pos choices) in
    if (if max == 0 then false else ltb_ℤ (pos max) current_page)
    then none
    else some (record {
      current = current_page;
      max_page = max;
      contents_per_page = contents_per_page;
      page_links = pages;
    })

-- Every content has a page: the last page is the first one behind which nothing is left.
pub max_pages-least :
    (count per : ℕ)
    → 0 < per
    → (count ≤ max_pages count per * per) × (max_pages count per * per < count + per)
unfolding max_pages
max_pages-least count zero h = absurd (omega arith)
max_pages-least count (suc k) h = elim (Bool-cases ((count % suc k) == 0)) [
  | inl y ↦
      let e : max_pages count (suc k) ≡ count / suc k = ground arith in
      let d = div_fact count k in
      let z : count % suc k ≡ 0 = (==_iff (count % suc k) 0).0 y in
      let m : (count / suc k) * suc k ≡ count = omega (arith, d, z) in
      (
        subst (λ x. count ≤ x * suc k) (sym e) (omega (arith, m)),
        subst (λ x. x * suc k < count + suc k) (sym e) (omega (arith, m)),
      )
  | inr n ↦
      let e : max_pages count (suc k) ≡ count / suc k + 1 = ground arith in
      let d = div_fact count k in
      let l = mod_fact count k in
      let z : 0 < count % suc k = ground arith in
      let m : (count / suc k + 1) * suc k ≡ suc k * (count / suc k) + suc k = omega arith in
      (
        subst (λ x. count ≤ x * suc k) (sym e) (omega (arith, m, d, l)),
        subst (λ x. x * suc k < count + suc k) (sym e) (omega (arith, m, d, z)),
      )
]

-- How often a list of links has a page.
abbrev pub has_page : ℤ → List PageHelperLink → ℕ
has_page p [] = 0
has_page p (l ∷ rest) = let n = has_page p rest in if l.page ==ℤ p then suc n else n

-- Whether a page is one of n numbers from i on, and a page from 1 to max.
abbrev pub is_linked : ℕ → ℕ → ℤ → ℤ → Bool
is_linked max n i p = leb_ℤ i p && (ltb_ℤ p (i +ℤ pos n) && (leb_ℤ (pos 1) p && leb_ℤ p (pos max)))

is_linked_later :
    (max n : ℕ) (i p : ℤ)
    → (i ==ℤ p) ≡ false
    → is_linked max (suc n) i p ≡ is_linked max n (i +ℤ pos 1) p
is_linked_later max n i p h =
    ground (arith, +ℤ_parts i (pos 1), +ℤ_parts (i +ℤ pos 1) (pos n), +ℤ_parts i (pos (suc n)))

is_linked_now :
    (max n : ℕ) (i p : ℤ)
    → (i ==ℤ p) ≡ true
    → (is_linked max n (i +ℤ pos 1) p ≡ false)
      × (is_linked max (suc n) i p ≡ (leb_ℤ (pos 1) i && leb_ℤ i (pos max)))
is_linked_now max n i p h =
    ground (arith, +ℤ_parts i (pos 1), +ℤ_parts (i +ℤ pos 1) (pos n), +ℤ_parts i (pos (suc n)))

has_page-link :
    (current : ℤ) (max n : ℕ) (i p : ℤ)
    → has_page p (links current max (suc n) i)
      ≡ has_page p (links current max n (i +ℤ pos 1))
        + (if (i ==ℤ p) && (leb_ℤ (pos 1) i && leb_ℤ i (pos max)) then 1 else 0)
unfolding links
has_page-link current max n i p = ground arith

has_page-links :
    (current : ℤ) (max n : ℕ) (i p : ℤ)
    → has_page p (links current max n i) ≡ (if is_linked max n i p then 1 else 0)
unfolding links
has_page-links current max zero i p = ground (arith, +ℤ_parts i (pos 0))
has_page-links current max (suc n) i p = elim (Bool-cases (i ==ℤ p)) [
  | inl y ↦
      let now = is_linked_now max n i p y in
      has_page-link current max n i p
      ∙ ground (arith, has_page-links current max n (i +ℤ pos 1) p, now.0, now.1)
  | inr later ↦
      has_page-link current max n i p
      ∙ ground (arith, has_page-links current max n (i +ℤ pos 1) p, is_linked_later max n i p later)
]

links-active :
    (current : ℤ) (max n : ℕ) (i : ℤ)
    → All (λ l. l.active ≡ (l.page ==ℤ current)) (links current max n i)
unfolding links
links-active current max zero i = tt
links-active current max (suc n) i = ground (arith, links-active current max n (i +ℤ pos 1))

-- The helper of a page has every page exactly once that exists and is no further than `choices` from
-- the current one, no other page, and marks the current page and no other as active.
pub new_page_helper-links :
    (current : ℤ) (count per choices : ℕ) (h : PageHelper) (p : ℤ)
    → new_page_helper current count per choices ≡ some h
    → (has_page p h.page_links ≡ (
        if is_linked (max_pages count per) (choices * 2 + 1) (current -ℤ pos choices) p
        then 1
        else 0))
      × All (λ l. l.active ≡ (l.page ==ℤ current)) h.page_links
unfolding new_page_helper
new_page_helper-links current count per choices h p e =
    let pages = links current (max_pages count per) (choices * 2 + 1) (current -ℤ pos choices) in
    let same : h.page_links ≡ pages = ground arith in
    (
      ap (has_page p) same
          ∙ has_page-links current (max_pages count per) (choices * 2 + 1) (current -ℤ pos choices)
              p,
      subst (All (λ l. l.active ≡ (l.page ==ℤ current))) (sym same)
          (links-active current (max_pages count per) (choices * 2 + 1) (current -ℤ pos choices)),
    )
