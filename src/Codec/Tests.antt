-- ===== src/Codec/Tests.antt =====
-- Queries and cases on concrete numbers.
use popcon_sc.Prelude.{◌≡◌, refl, [], ◌∷◌, pos, negsuc, text, arith, true, false}
use popcon_sc.Codec.Decimal.{format_int, format_digits, parse_int, parse_int-format_int}
use popcon_sc.Codec.Fields.{split, join}
use popcon_sc.Codec.Queries.{format_query, parse_query, get_cases, set_cases, get_cases-set_cases}

query_text : format_query (pos 12) (pos 345) ≡ text "12:345"
unfolding format_query format_int format_digits
query_text = refl

not_a_query : parse_query (text "1:2:3") ≡ (negsuc 0, negsuc 0)
unfolding parse_query split
not_a_query = refl

too_great : parse_int (text "9223372036854775808") ≡ (pos 9223372036854775807, false)
unfolding parse_int
too_great = refl

parse_int-format_int_example : parse_int (format_int (negsuc 41)) ≡ (negsuc 41, true)
parse_int-format_int_example = parse_int-format_int (negsuc 41) (omega arith)

get_cases-set_cases_example : get_cases (set_cases (pos 0 ∷ pos 7 ∷ [])) ≡ pos 0 ∷ pos 7 ∷ []
get_cases-set_cases_example = get_cases-set_cases (pos 0) (pos 7 ∷ []) (omega arith)

-- The empty list of cases is read back as the case 0.
no_cases : get_cases (set_cases []) ≡ pos 0 ∷ []
unfolding get_cases set_cases join split parse_int
no_cases = refl
