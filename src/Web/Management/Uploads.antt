-- ===== src/Web/Management/Uploads.antt =====
-- ppweb/contest_each.go: files that belong to a problem, and many tests at once.
use popcon_sc.Prelude.{
  ℕ, ◌+◌, ◌==◌, leb, Bool, true, false, not, ◌&&◌, ◌||◌, Option, none, some, List, [], ◌∷◌, ℤ, pos,
  leb_ℤ, ltb_ℤ, Text, text, text_eq, if◌then◌else◌,
}
use popcon_sc.Codec.Decimal.{parse_int}
use popcon_sc.Web.Handler.{
  contest_problem_find2, contest_problem_update_related_file, update_test_case,
  parse_multipart_form, open_upload, status_bad_request, status_not_found,
}
use popcon_sc.Web.Reply.{
  management_related_files, management_testcases, managements_testcases,
  management_testcase_upload_all, management_related_files_page, status, redirect, page, Handler,
  give, reply, ◌>>=◌, ◌>>◌, ask, guard, expect, expect_nil, failed, bad_request,
  unless_unknown_problem, Form, wrap_form_str, Method, get, post, other_method,
}
use popcon_sc.Codec.Fields.{split}
use popcon_sc.Web.Contest.{ContestEachPreparedData}
use popcon_sc.Web.Contest.Views.{related_files_per_problem}
use popcon_sc.Web.Management.TestCases.{receive_file}

-- "/management/related_files/{pidx}".
unfoldable pub related_files_page : ContestEachPreparedData → Text → Method → Form → Handler Unit
unfolding receive_file
related_files_page pdata pidx method form = do
  cp ←
      expect (unless_unknown_problem status_not_found)
        (← ask (contest_problem_find2 pdata.cid (parse_int pidx).0))
  elim method [
    | get ↦ reply (page (management_related_files_page cp))
    | post ↦ (do
      expect_nil bad_request (← ask parse_multipart_form)
      let (id, fine) = parse_int (wrap_form_str form (text "id"))
      guard (fine && not (ltb_ℤ id (pos 0) || leb_ℤ related_files_per_problem id))
          (status status_not_found)
      receive_file (pos 10_485_760)
      expect_nil failed (← ask (contest_problem_update_related_file pdata.cid cp.pidx id))
      reply (redirect (management_related_files pdata.cid (parse_int pidx).0)))
    | other_method ↦ reply (status status_bad_request)
  ]

-- The text behind the last byte `sep`, where there is one.
after_last : ℕ → Text → Option Text
after_last sep [] = none
after_last sep (c ∷ s) =
    let rest = after_last sep s in
    elim rest [ some t ↦ some t | none ↦ (if c == sep then some s else none) ]

-- The text before the last byte `sep`, where there is one.
before_last : ℕ → Text → Option Text
before_last sep [] = none
before_last sep (c ∷ s) =
    let rest = before_last sep s in
    elim rest [ some t ↦ some (c ∷ t) | none ↦ (if c == sep then some [] else none) ]

-- Drops the bytes `sep` at the end.
drop_last : ℕ → Text → Text
drop_last sep [] = []
drop_last sep (c ∷ s) =
    let rest = drop_last sep s in
    elim rest [ d ∷ t ↦ c ∷ (d ∷ t) | [] ↦ (if c == sep then [] else c ∷ []) ]

-- `filepath.Base`.
unfoldable pub file_base : Text → Text
unfolding drop_last after_last
file_base [] = text "."
file_base (c ∷ path) = elim (drop_last b'/' (c ∷ path)) [
  | [] ↦ text "/"
  | d ∷ s ↦ elim (after_last b'/' (d ∷ s)) [ none ↦ d ∷ s | some t ↦ t ]
]

-- `strings.TrimSuffix(base, filepath.Ext(base))`.
unfoldable pub without_ext : Text → Text
unfolding before_last
without_ext base = elim (before_last b'.' base) [ none ↦ base | some t ↦ t ]

-- `strings.ToLower`, as far as it makes letters of "input" and "output": A to Z, and the dotted
-- capital I of two bytes.
unfoldable pub to_lower : Text → Text
to_lower [] = []
to_lower (c ∷ []) = (if leb 65 c && leb c 90 then c + 32 else c) ∷ []
to_lower (c ∷ (d ∷ s)) =
    let rest = to_lower (d ∷ s) in
    let behind = to_lower s in
    if c == 196 && d == 176
    then b'i' ∷ behind
    else (if leb 65 c && leb c 90 then c + 32 else c) ∷ rest

-- `strings.TrimLeft(s, "0")`, and "0" where nothing is left.
drop_zeros : Text → Text
drop_zeros [] = text "0"
drop_zeros (c ∷ s) = let rest = drop_zeros s in if c == b'0' then rest else c ∷ s

-- Whether the mode is for the input or for the output, where it is one of them.
upload_mode : Text → Option Bool
upload_mode mode =
    if text_eq mode (text "in") || text_eq mode (text "input")
    then some true
    else (if text_eq mode (text "out") || text_eq mode (text "output") then some false else none)

two_parts : List Text → Option (ℤ × Bool)
unfolding drop_zeros to_lower upload_mode
two_parts (number ∷ (mode ∷ [])) =
    let (id, fine) = parse_int (drop_zeros number) in
    if fine
    then (elim (upload_mode (to_lower mode)) [ none ↦ none | some is_input ↦ some (id, is_input) ])
    else none
two_parts _ = none

-- The test that a file name such as "07_in.txt" names.
unfoldable pub upload_target : Text → Option (ℤ × Bool)
unfolding two_parts without_ext file_base
upload_target filename = two_parts (split b'_' (without_ext (file_base filename)))

unfoldable pub upload_one : ℤ → ℤ → Text → Option (ℤ × Bool) → Handler Unit
upload_one cid pid filename none = reply (status status_bad_request)
upload_one cid pid filename (some (id, is_input)) = do
  expect_nil bad_request (← ask (open_upload filename))
  expect_nil bad_request (← ask (update_test_case cid pid is_input id))

-- The loop over the files: the first one that fails ends it, and the ones before stay.
unfoldable pub upload_loop : ℤ → ℤ → List Text → Handler Unit
upload_loop cid pid [] = give tt
upload_loop cid pid (filename ∷ rest) = do
  upload_one cid pid filename (upload_target filename)
  upload_loop cid pid rest

-- "/management/testcases/{pidx}/upload_all"; `uploads` is the names of the files under "file[]".
unfoldable pub upload_all :
    ContestEachPreparedData → Text → Method → (uploads : Option (List Text)) → Handler Unit
upload_all pdata pidx method uploads = do
  cp ←
      expect (unless_unknown_problem status_not_found)
        (← ask (contest_problem_find2 pdata.cid (parse_int pidx).0))
  elim method [
    | get ↦ reply (page (management_testcase_upload_all cp))
    | post ↦ (do
      expect_nil bad_request (← ask parse_multipart_form)
      elim uploads [
        | none ↦ reply (redirect (managements_testcases pdata.cid (parse_int pidx).0))
        | some names ↦ upload_loop pdata.cid cp.pid names
      ]
      reply (redirect (management_testcases pdata.cid (parse_int pidx).0)))
    | other_method ↦ reply (status status_bad_request)
  ]
