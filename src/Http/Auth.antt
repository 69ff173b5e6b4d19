-- ===== src/Http/Auth.antt =====
-- internal/http/middleware.go: `managementAuthMiddleware`.
use pg_analytics_service.Prelude.{
  ◌≡◌, Bool, List, [], ◌∷◌, drop, if◌then◌else◌, Text, codes, ◌=ₜ◌, ◌≢◌,
}
use pg_analytics_service.Strings.{trim_space, to_lower, has_prefix}

-- `r.Header.Get`: the value of a header, or the empty string.
abbrev pub Headers : Type 0
Headers = Text → Text

unfoldable pub header_names : List Text
header_names = codes "X-Management-Key" ∷ codes "Authorization" ∷ []

-- The key in a header's value: what follows `Bearer `, or the whole.
unfoldable pub strip_bearer : Text → Text
strip_bearer value =
    if has_prefix (to_lower value) (codes "bearer ") then trim_space (drop 7 value) else value

-- The loop over the headers: the first that is not empty counts.
unfoldable pub provided_key : Headers → List Text → Text
provided_key headers [] = []
provided_key headers (name ∷ names) =
    let value = trim_space (headers name) in
    if value =ₜ [] then provided_key headers names else strip_bearer value

-- Whether the request goes on to the handler. `subtle.ConstantTimeCompare` is equality here: its
-- timing is not modelled.
unfoldable pub is_authorized : Text → Headers → Bool
unfolding provided_key strip_bearer
is_authorized api_key headers = provided_key headers header_names =ₜ api_key

module _ (api_key : Text) (headers : Headers) where
  -- What the first and the second header say, without the spaces around it.
  abbrev pub own_header : Text
  own_header = trim_space (headers (codes "X-Management-Key"))

  abbrev pub authorization : Text
  authorization = trim_space (headers (codes "Authorization"))

  -- Who may pass, header by header.
  pub data MayPass : Type 0 where
    by_own_header : own_header ≢ [] → strip_bearer own_header ≡ api_key → MayPass
    by_authorization :
        own_header ≡ [] → authorization ≢ [] → strip_bearer authorization ≡ api_key → MayPass
    no_key : own_header ≡ [] → authorization ≡ [] → api_key ≡ [] → MayPass
