-- ===== src/Codec/Queries.antt =====
-- lib/redis/judge_queue.go `JudgeQueueQuery`, and `ContestProblemScoreSetCasesString` of
-- lib/database/contest_problem.go.
use popcon_sc.Prelude.{
  ◌≡◌, ◌≢◌, refl, ap, ◌∙◌, List, [], ◌∷◌, ◌++◌, map, ℤ, negsuc, IsInt64, arith, Text, text, All,
  All-map,
}
use popcon_sc.Codec.Decimal.{format_int, parse_int, parse_int-format_int, format_int-bytes}
use popcon_sc.Codec.Fields.{split, join, split-join}

-- `Format` and `NewJudgeQueueQuery`.
unfoldable pub format_query : ℤ → ℤ → Text
format_query cid sid = format_int cid ++ (text ":" ++ format_int sid)

two_fields : List Text → ℤ × ℤ
two_fields (a ∷ (b ∷ [])) = ((parse_int a).0, (parse_int b).0)
two_fields _ = (negsuc 0, negsuc 0)

-- `Parse`.
unfoldable pub parse_query : Text → ℤ × ℤ
unfolding two_fields
parse_query s = two_fields (split b':' s)

-- `Get`: the numbers of the cases; a field that is no number counts as what `ParseInt` returns
-- beside its error.
unfoldable pub get_cases : Text → List ℤ
get_cases s = map (λ field. (parse_int field).0) (split b',' s)

-- `Set`.
unfoldable pub set_cases : List ℤ → Text
set_cases cases = join b',' (map format_int cases)

-- A query for the judge queue is read back as the contest and the submission that it was made for.
pub parse_query-format_query :
    (cid sid : ℤ) → IsInt64 cid → IsInt64 sid → parse_query (format_query cid sid) ≡ (cid, sid)
unfolding parse_query format_query join
parse_query-format_query cid sid h k =
    ap two_fields
      (split-join b':' (format_int cid) (format_int sid ∷ []) (no_colon cid, (no_colon sid, tt)))
    ∙ ground (arith, parse_int-format_int cid h, parse_int-format_int sid k)
  where
    no_colon : (z : ℤ) → All (λ c. c ≢ b':') (format_int z)
    no_colon z =
        All-map (λ c. (c ≢ b':') × (c ≢ b',')) (λ c. c ≢ b':') (format_int z) (λ c h. h.0)
          (format_int-bytes z)

no_comma : (cases : List ℤ) → All (All (λ c. c ≢ b',')) (map format_int cases)
no_comma [] = tt
no_comma (z ∷ cases) = (
  All-map (λ c. (c ≢ b':') × (c ≢ b',')) (λ c. c ≢ b',') (format_int z) (λ c h. h.1)
      (format_int-bytes z),
  no_comma cases,
)

read_back :
    (cases : List ℤ)
    → All IsInt64 cases
    → map (λ field. (parse_int field).0) (map format_int cases) ≡ cases
read_back [] h = refl
read_back (z ∷ cases) h = cc (parse_int-format_int z h.0, read_back cases h.1)

-- A list of cases with one case at least is read back as it was set.
pub get_cases-set_cases :
    (z : ℤ) (cases : List ℤ)
    → All IsInt64 (z ∷ cases)
    → get_cases (set_cases (z ∷ cases)) ≡ z ∷ cases
unfolding get_cases set_cases
get_cases-set_cases z cases h =
    ap (map (λ field. (parse_int field).0))
      (split-join b',' (format_int z) (map format_int cases) (no_comma (z ∷ cases)))
    ∙ read_back (z ∷ cases) h
