-- ===== src/Web/Tests.antt =====
-- ppweb/utility.go and ppweb/pagination_helper.go on small inputs.
use popcon_sc.Prelude.{
  ◌≡◌, refl, true, false, [], ◌∷◌, ◌++◌, pos, ◌==ℤ◌, ◌-ℤ◌, ◌+ℤ◌, All, text, arith,
}
use popcon_sc.Web.Trim.{trim, read_all, concat, read_all-concat, trim_swallows}
use popcon_sc.Web.Pages.{
  PageHelper, max_pages, links, new_page_helper, has_page, new_page_helper-links,
}

read_all-concat_example :
    read_all false ((97 ∷ 13 ∷ []) ∷ (10 ∷ 98 ∷ []) ∷ [])
    ≡ (trim false (concat ((97 ∷ 13 ∷ []) ∷ (10 ∷ 98 ∷ []) ∷ []))).0
read_all-concat_example = read_all-concat false ((97 ∷ 13 ∷ []) ∷ (10 ∷ 98 ∷ []) ∷ [])

-- "\rab\nc" comes out as "\nabc".
trim_swallows_example :
    (trim false (13 ∷ (text "ab" ++ (10 ∷ text "c")))).0 ≡ 10 ∷ (text "ab" ++ text "c")
unfolding trim
trim_swallows_example = trim_swallows false (text "ab") (text "c") (ground arith)

abbrev helper : PageHelper
helper = record {
  current = pos 1;
  max_page = 3;
  contents_per_page = 10;
  page_links =
      record { page = pos 1; active = true } ∷ record { page = pos 2; active = false } ∷ [];
}

new_page_helper-links_example :
    (has_page (pos 2) helper.page_links ≡ 1)
    × All (λ l. l.active ≡ (l.page ==ℤ pos 1)) helper.page_links
unfolding new_page_helper links max_pages ◌-ℤ◌ ◌+ℤ◌
new_page_helper-links_example = new_page_helper-links (pos 1) 21 10 1 helper (pos 2) refl
