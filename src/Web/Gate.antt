-- ===== src/Web/Gate.antt =====
-- bluewave/web.py: the middleware before the API docs, and the filter of the access log. How FastAPI
-- splits an Authorization header is a parameter.
use blue_waving.Base.{
  ℕ, ◌≡◌, refl, Bool, true, not, ◌&&◌, Option, none, some, List, [], ◌∷◌, if◌then◌else◌, any, Text,
  codes, text_eq,
}
use blue_waving.Auth.{is_in, get_or_empty}
use blue_waving.ColumnTypes.{lower}

abbrev pub docs_paths : List Text
docs_paths = codes "/docs" ∷ codes "/openapi.json" ∷ []

-- `gate_docs`: the status that it answers with, or none to go on to the docs.
unfoldable pub gate_docs : (Text → Text × Text) → Text → Option Text → Option ℕ
unfolding lower get_or_empty
gate_docs scheme_param path authorization =
    let (scheme, param) = scheme_param (get_or_empty authorization) in
    if any (text_eq path) docs_paths && not (text_eq (lower scheme) (codes "basic"))
    then some 401
    else none

abbrev pub loopback : List Text
loopback = codes "127.0.0.1:" ∷ codes "[::1]:" ∷ codes "localhost:" ∷ []

-- `_DropLoopbackHealthz.filter`: whether the line is kept.
unfoldable pub keeps_line : Text → Bool
unfolding is_in
keeps_line msg =
    if not (is_in (codes "GET /healthz") msg) then true else not (any (λ s. is_in s msg) loopback)

-- The gate does not look at the credentials: a header with any others gets the same answer.
pub gate_docs-scheme :
    (scheme_param : Text → Text × Text) (path a b : Text)
    → (scheme_param a).0 ≡ (scheme_param b).0
    → gate_docs scheme_param path (some a) ≡ gate_docs scheme_param path (some b)
unfolding gate_docs get_or_empty
gate_docs-scheme scheme_param path a b h = rw h refl
