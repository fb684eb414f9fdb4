-- ===== src/Web/Pagination.antt =====
-- ppweb/pagination_helper.go `NewPaginationHelper`: the links below the list of submissions.
use popcon_sc.Prelude.{
  ℕ, zero, suc, ◌≡◌, refl, Bool, true, false, not, Option, none, some, List, [], ◌∷◌, ◌++◌,
  if◌then◌else◌, ◌&&◌, ◌||◌, arith, ℤ, pos, negsuc, pos_part, ◌+ℤ◌, ◌-ℤ◌, ltb_ℤ, leb_ℤ, ◌==ℤ◌, ◌≤ℤ◌,
  ◌<ℤ◌, +ℤ_parts, -ℤ_parts, All, All-append, count_if-append, count_if,
}

pub record PaginationHelper : Type 0 where
  pub page : ℤ
  pub is_active : Bool

-- -1 stands for the gap between pages.
abbrev gap : PaginationHelper
gap = record { page = negsuc 0; is_active = false }

-- The loop over the n numbers from i on.
unfoldable pub pages_from : ℤ → ℤ → ℕ → List PaginationHelper
pages_from current i zero = []
pages_from current i (suc n) =
    record { page = i; is_active = i ==ℤ current } ∷ pages_from current (i +ℤ pos 1) n

-- The links from page `left` to page `right`, with the first page and the last page around them.
unfoldable pub links_between : (current max left right : ℤ) → List PaginationHelper
unfolding pages_from
links_between current max left right =
    (if left ==ℤ pos 1 then [] else record { page = pos 1; is_active = false } ∷ gap ∷ [])
    ++ (pages_from current left (pos_part (right -ℤ left +ℤ pos 1))
        ++ (if right ==ℤ max then [] else gap ∷ record { page = max; is_active = false } ∷ []))

-- `none` is the panic of `make` for a negative capacity; no sum wraps around.
unfoldable pub new_pagination_helper : ℤ → ℤ → ℤ → Option (List PaginationHelper)
new_pagination_helper current max choices =
    let left = if leb_ℤ (current -ℤ choices) (pos 0) then pos 1 else current -ℤ choices in
    let right = if ltb_ℤ max (current +ℤ choices) then max else current +ℤ choices in
    if ltb_ℤ (right -ℤ left +ℤ pos 5) (pos 0)
    then none
    else some (links_between current max left right)

pages_from-active :
    (current i : ℤ) (n : ℕ)
    → count_if (λ h. h.is_active) (pages_from current i n)
      ≡ (if leb_ℤ i current && ltb_ℤ current (i +ℤ pos n) then 1 else 0)
unfolding pages_from
pages_from-active current i zero = ground (arith, +ℤ_parts i (pos 0))
pages_from-active current i (suc n) = ground (
  arith,
  pages_from-active current (i +ℤ pos 1) n,
  +ℤ_parts i (pos 1),
  +ℤ_parts (i +ℤ pos 1) (pos n),
  +ℤ_parts i (pos (suc n)),
)

-- A link to one of the pages from 1 to max, or the gap; it is marked exactly if it leads to the
-- current page.
abbrev pub is_page : (current max : ℤ) → PaginationHelper → Bool
is_page current max h =
    ((h.page ==ℤ negsuc 0) || (leb_ℤ (pos 1) h.page && leb_ℤ h.page max))
    && (if h.is_active then h.page ==ℤ current else not (h.page ==ℤ current))

pages_from-is_page :
    (current i max : ℤ) (n : ℕ)
    → pos 1 ≤ℤ i
    → i +ℤ pos n ≤ℤ max +ℤ pos 1
    → All (λ h. is_page current max h ≡ true) (pages_from current i n)
unfolding pages_from
pages_from-is_page current i max zero l h = tt
pages_from-is_page current i max (suc n) l h = (
  ground (arith, +ℤ_parts i (pos (suc n)), +ℤ_parts max (pos 1)),
  pages_from-is_page current (i +ℤ pos 1) max n (omega (arith, +ℤ_parts i (pos 1)))
      (omega (arith, +ℤ_parts i (pos 1), +ℤ_parts (i +ℤ pos 1) (pos n), +ℤ_parts i (pos (suc n)))),
)

-- How many links are marked as the current page.
abbrev pub active_count : List PaginationHelper → ℕ
active_count links = count_if (λ h. h.is_active) links

module _ (current max left right : ℤ) (l : pos 1 ≤ℤ left) (c : left ≤ℤ current)
    (d : current ≤ℤ right) (r : right ≤ℤ max) where
  links_between-active_count : active_count (links_between current max left right) ≡ 1
  unfolding links_between
  links_between-active_count =
      let n = pos_part (right -ℤ left +ℤ pos 1) in
      let first =
        if left ==ℤ pos 1 then [] else record { page = pos 1; is_active = false } ∷ gap ∷ [] in
      let last =
        if right ==ℤ max then [] else gap ∷ record { page = max; is_active = false } ∷ [] in
      ground (
        arith,
        count_if-append (λ h. h.is_active) first (pages_from current left n ++ last),
        count_if-append (λ h. h.is_active) (pages_from current left n) last,
        pages_from-active current left n,
        -ℤ_parts right left,
        +ℤ_parts (right -ℤ left) (pos 1),
        +ℤ_parts left (pos n),
      )

  links_between-is_page :
      All (λ h. is_page current max h ≡ true) (links_between current max left right)
  unfolding links_between
  links_between-is_page =
      let n = pos_part (right -ℤ left +ℤ pos 1) in
      let first : List PaginationHelper =
        if left ==ℤ pos 1 then [] else record { page = pos 1; is_active = false } ∷ gap ∷ [] in
      let last : List PaginationHelper =
        if right ==ℤ max then [] else gap ∷ record { page = max; is_active = false } ∷ [] in
      let middle = pages_from-is_page current left max n l (
        ground (
          arith,
          -ℤ_parts right left,
          +ℤ_parts (right -ℤ left) (pos 1),
          +ℤ_parts left (pos n),
          +ℤ_parts max (pos 1),
        )) in
      let first_pages : All (λ h. is_page current max h ≡ true) first = ground arith in
      let last_pages : All (λ h. is_page current max h ≡ true) last = ground arith in
      All-append (λ h. is_page current max h ≡ true) first (pages_from current left n ++ last)
        first_pages
        (All-append (λ h. is_page current max h ≡ true) (pages_from current left n) last middle
          last_pages)

-- For a page that exists: the list of submissions gets its links, of which exactly one is marked;
-- each is a page from 1 to the last one, or the gap, and is marked exactly if it is the current page.
pub new_pagination_helper-is_page :
    (current max choices : ℤ)
    → pos 1 ≤ℤ current
    → current ≤ℤ max
    → pos 0 ≤ℤ choices
    → (links : List PaginationHelper) × (new_pagination_helper current max choices ≡ some links)
      × (active_count links ≡ 1)
      × All (λ h. is_page current max h ≡ true) links
unfolding new_pagination_helper
new_pagination_helper-is_page current max choices l r c =
    let left = if leb_ℤ (current -ℤ choices) (pos 0) then pos 1 else current -ℤ choices in
    let right = if ltb_ℤ max (current +ℤ choices) then max else current +ℤ choices in
    let low : (pos 1 ≤ℤ left) × (left ≤ℤ current) = ground (arith, -ℤ_parts current choices) in
    let high : (current ≤ℤ right) × (right ≤ℤ max) = ground (arith, +ℤ_parts current choices) in
    let fits : ltb_ℤ (right -ℤ left +ℤ pos 5) (pos 0) ≡ false =
      ground (arith, low.1, high.0, -ℤ_parts right left, +ℤ_parts (right -ℤ left) (pos 5)) in
    (
      links_between current max left right,
      rw fits refl,
      links_between-active_count current max left right low.0 low.1 high.0 high.1,
      links_between-is_page current max left right low.0 low.1 high.0 high.1,
    )

-- The bug: far enough in front of the first page, the capacity is negative, and `make` panics.
pub new_pagination_helper_panics :
    (current max choices : ℤ)
    → pos 1 ≤ℤ max
    → pos 0 ≤ℤ choices
    → current +ℤ choices <ℤ negsuc 3
    → new_pagination_helper current max choices ≡ none
unfolding new_pagination_helper
new_pagination_helper_panics current max choices l c h =
    let left : leb_ℤ (current -ℤ choices) (pos 0) ≡ true =
      ground (arith, -ℤ_parts current choices, +ℤ_parts current choices) in
    let right : ltb_ℤ max (current +ℤ choices) ≡ false = ground arith in
    let negative : ltb_ℤ ((current +ℤ choices) -ℤ pos 1 +ℤ pos 5) (pos 0) ≡ true = ground (
      arith,
      -ℤ_parts (current +ℤ choices) (pos 1),
      +ℤ_parts ((current +ℤ choices) -ℤ pos 1) (pos 5),
    ) in
    rw (left, right, negative) refl
