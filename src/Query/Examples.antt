-- ===== src/Query/Examples.antt =====
-- Tests of the model of `getQueryParams` in hikyuu/httpd/HttpHandle.cpp, and its theorems at
-- concrete inputs.
use hku_rest.Prelude.{◌≤◌, ◌≡◌, ◌≢◌, refl, none, List, [], ◌∷◌, ◌++◌, arith, length}
use hku_rest.Prelude.Text.{Text, codes, text_eq, after}
use hku_rest.Query.Defs.{
  ok, err, fault, invalid_url, miss_parameter, parse_query, get_query_params, get_query_param,
  assign, lookup, found, max_query_params, max_url_length,
}
use hku_rest.Query.RoundTrip.{
  join, parse_query-join, get_query_params-join, get_query_param-join, assign_all, last_value,
}
use hku_rest.Query.Overread.{one_equals, parse_query-ne_fault, parse_query_overreads}
use hku_rest.Query.Bounds.{get_query_params_bounds}

-- Nothing to decode.
abbrev as_is : Text → Text
as_is t = t

abbrev pairs : List (Text × Text)
pairs = (codes "a", codes "1") ∷ (codes "b", codes "2") ∷ (codes "a", codes "3") ∷ []

parse_pairs :
    parse_query as_is (codes "a=1&b=2&a=3")
    ≡ ok ((codes "a", codes "3") ∷ (codes "b", codes "2") ∷ [])
unfolding parse_query assign text_eq
parse_pairs = refl

parse_bare_key : parse_query as_is (codes "a=1&flag") ≡ err invalid_url
unfolding parse_query assign text_eq
parse_bare_key = refl

parse_no_key : parse_query as_is (codes "=1&&a=2") ≡ ok ((codes "a", codes "2") ∷ [])
unfolding parse_query assign text_eq
parse_no_key = refl

-- The padding of a value in base 64 is such a second `=`.
parse_base64 : parse_query as_is (codes "token=YWI=") ≡ fault
unfolding parse_query assign text_eq
parse_base64 = refl

find_missing : get_query_param as_is (codes "/p?a=1&flag") (codes "a") ≡ err miss_parameter
unfolding get_query_param get_query_params assign lookup text_eq after
find_missing = refl

parse_query-join_example : parse_query as_is (join pairs) ≡ ok (assign_all as_is pairs [])
parse_query-join_example = parse_query-join as_is pairs (omega arith) (omega arith)

get_query_params-join_example :
    get_query_params as_is (codes "/p" ++ b'?' ∷ join pairs) ≡ ok (assign_all as_is pairs [])
get_query_params-join_example =
    get_query_params-join as_is (codes "/p") pairs (omega arith) (omega arith) (omega arith)
      (omega arith)

get_query_param-join_case :
    get_query_param as_is (codes "/p" ++ b'?' ∷ join pairs) (codes "a")
    ≡ found (last_value as_is (codes "a") pairs none)
get_query_param-join_case =
    get_query_param-join as_is (codes "/p") (codes "a") pairs (omega arith) (omega arith)
      (omega arith) (omega arith)

parse_query-ne_fault_case : parse_query as_is (codes "a=1&b") ≢ fault
unfolding one_equals
parse_query-ne_fault_case = parse_query-ne_fault as_is (codes "a=1&b") refl

parse_query_overreads_example : parse_query as_is (codes "token=YWI=") ≡ fault
parse_query_overreads_example =
    parse_query_overreads as_is (codes "token") (codes "YWI") [] (omega arith) (omega arith) tt
      (omega arith) (omega arith)

get_query_params_bounds_case :
    (length {A = Text × Text} ((codes "a", codes "1") ∷ []) ≤ max_query_params)
    × (length (codes "/p?a=1") ≤ max_url_length)
unfolding get_query_params assign after
get_query_params_bounds_case =
    get_query_params_bounds as_is (codes "/p?a=1") ((codes "a", codes "1") ∷ []) refl
