-- ===== src/HttpApi/Requests.antt =====
-- What the handlers read of a request: `bearerToken`, `intQuery` and `limitQuery` of
-- services/api/internal/httpapi.
use learning_garden_server.Prelude.{
  ℕ, ◌≤◌, ◌≡◌, refl, ap, ◌∙◌, true, not, Option, none, some, [], Text, codes, is_empty,
  if◌then◌else◌, arith,
}
use learning_garden_server.Prelude.Int.{ℤ, pos, negsuc, ltb_ℤ, leb_ℤ}
use learning_garden_server.Prelude.Map.{Map, lookup}
use learning_garden_server.Strings.{trim_space, has_prefix, trim_prefix}
use learning_garden_server.Strconv.{parse_int}

-- The headers, the cookie `synapse_refresh`, the query and the path's parameter that a handler
-- reads. A missing header reads as the empty text.
pub record Request : Type 0 where
  pub authorization : Text
  pub refresh_cookie : Option Text
  pub query : Map Text
  pub param : Text

-- `bearerToken`
unfoldable pub bearer_token : Text → Text
unfolding trim_space has_prefix trim_prefix
bearer_token value =
    if not (has_prefix value (codes "Bearer "))
    then []
    else trim_space (trim_prefix value (codes "Bearer "))

-- `r.URL.Query().Get(key)`
abbrev query_at : Option Text → Text
query_at none = []
query_at (some v) = v

abbrev pub query_text : Text → Request → Text
query_text key r = trim_space (query_at (lookup key r.query))

-- `strconv.Atoi` failed
abbrev or_zero : Option ℤ → ℤ
or_zero none = pos 0
or_zero (some n) = n

unfoldable pub int_query : Text → Request → ℤ
unfolding trim_space lookup parse_int
int_query key r =
    let value = query_text key r in if is_empty value then pos 0 else or_zero (parse_int value)

abbrev pub default_list_limit : ℤ
default_list_limit = pos 20

abbrev pub max_list_limit : ℤ
max_list_limit = pos 100

abbrev bounded : ℤ → ℤ
bounded limit =
    if leb_ℤ limit (pos 0)
    then default_list_limit
    else if ltb_ℤ max_list_limit limit
    then max_list_limit
    else limit

unfoldable pub limit_query : Request → ℤ
unfolding int_query
limit_query r = bounded (int_query (codes "limit") r)

bounded_between :
    (n : ℤ) → (leb_ℤ (pos 1) (bounded n) ≡ true) × (leb_ℤ (bounded n) (pos 100) ≡ true)
bounded_between (pos n) = ground arith
bounded_between (negsuc n) = ground arith

bounded_fixed : (n : ℕ) → 1 ≤ n → n ≤ 100 → bounded (pos n) ≡ pos n
bounded_fixed n h k = ground arith

-- The limit is between 1 and 100, whatever the query says.
pub limit_query-between :
    (r : Request)
    → (leb_ℤ (pos 1) (limit_query r) ≡ true) × (leb_ℤ (limit_query r) (pos 100) ≡ true)
unfolding limit_query
limit_query-between r = bounded_between (int_query (codes "limit") r)

-- A number between 1 and 100 in the query is the limit.
pub limit_query-fixed :
    (r : Request) (n : ℕ)
    → int_query (codes "limit") r ≡ pos n
    → 1 ≤ n
    → n ≤ 100
    → limit_query r ≡ pos n
unfolding limit_query
limit_query-fixed r n e h k = ap bounded e ∙ bounded_fixed n h k

bearer_token_tests :
    (bearer_token (codes "Bearer  abc ") ≡ codes "abc")
    × (bearer_token (codes "Bearer ") ≡ [])
    × (bearer_token (codes "bearer abc") ≡ [])
unfolding bearer_token
bearer_token_tests = (refl, refl, refl)
