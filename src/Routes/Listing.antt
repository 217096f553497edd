-- ===== src/Routes/Listing.antt =====
-- bluewave/routes.py: get_runs, get_run and _bootstrap_audit_table. In which order the
-- server gives runs that started at the same time is a parameter; strings for dates are left out.
use blue_waving.Schema.Tables.{query, bootstrap, bootstrap_on, Server, Table}
use blue_waving.Base.{
  ℕ, zero, suc, ◌+◌, ◌*◌, String, ◌≡◌, sym, ap, ◌∙◌, inl, inr, Bool, true, false, ◌&&◌, Option,
  none, some, List, [], ◌∷◌, ◌++◌, arith, leb, ◌==◌, if◌then◌else◌, Bool-cases, take, take-nil,
  drop, Text, Result, ok, err, ◌>>=◌,
}
use blue_waving.Exceptions.{database_error}
use blue_waving.Config.{MultiFernet, ConfigFile, load}
use blue_waving.Runs.{RunRow}
use blue_waving.Schema.{BootstrapResult, SchemaCheck, Diff, query_failed, checked}
use blue_waving.Schema.Laws.{Usable, bootstrap_and_validate-Usable}
use blue_waving.Web.{HttpError, http_exception, raised}
use blue_waving.Routes.{configured}

-- The table of runs, if MySQL is reached.
unfoldable pub connected : {A : Type 0} → Bool → A → Result HttpError A
connected connects a = if connects then ok a else err (raised database_error)

-- `ORDER BY started_at DESC LIMIT … OFFSET …`
unfoldable pub page : (List RunRow → List RunRow) → ℕ → ℕ → List RunRow → List RunRow
page by_start limit offset runs = take limit (drop offset (by_start runs))

unfoldable pub in_limits : ℕ → Result HttpError (Unit {0})
in_limits limit = if leb 1 limit && leb limit 200 then ok tt else err (http_exception 422)

unfoldable pub get_runs :
    Result HttpError Text
    → MultiFernet
    → ConfigFile
    → Bool
    → (List RunRow → List RunRow)
    → ℕ
    → ℕ
    → List RunRow
    → Result HttpError (List RunRow)
unfolding in_limits configured connected page
get_runs gate mf file connects by_start limit offset runs = do
  user ← gate
  u ← in_limits limit
  cfg ← configured (load mf file)
  connected connects (page by_start limit offset runs)

-- `WHERE id = %s`, the first row
unfoldable pub find_run : ℕ → List RunRow → Option RunRow
find_run id [] = none
find_run id (r ∷ rs) = let rest = find_run id rs in if r.id == id then some r else rest

unfoldable pub or_not_found : Option RunRow → Result HttpError RunRow
or_not_found none = err (http_exception 404)
or_not_found (some r) = ok r

unfoldable pub get_run :
    Result HttpError Text
    → MultiFernet
    → ConfigFile
    → Bool
    → ℕ
    → List RunRow
    → Result HttpError RunRow
unfolding configured connected find_run or_not_found
get_run gate mf file connects id runs = do
  user ← gate
  cfg ← configured (load mf file)
  found ← connected connects (find_run id runs)
  or_not_found found

pub record BootstrapReply : Type 0 where
  pub is_ready : Bool
  pub kind : String
  pub diffs : List Diff

unfoldable pub diffs_of : Option SchemaCheck → List Diff
diffs_of none = []
diffs_of (some query_failed) = []
diffs_of (some (checked ds)) = ds

abbrev pub or_unknown : Option String → String
or_unknown none = "unknown"
or_unknown (some kind) = kind

unfoldable pub reply_of : BootstrapResult → BootstrapReply
unfolding diffs_of
reply_of r =
    if r.is_bootstrapped then record { is_ready = true; kind = "ready"; diffs = [] } else record {
      is_ready = false;
      kind = or_unknown r.error_kind;
      diffs = diffs_of r.schema_check;
    }

-- Where connecting raises, the reply says so.
unfoldable pub bootstrap_audit_table : Server → List Table → BootstrapReply × List Table
unfolding reply_of
bootstrap_audit_table server ts =
    if server.connects
    then (reply_of (bootstrap_on server ts).0, (bootstrap_on server ts).1)
    else (record { is_ready = false; kind = "connection_error"; diffs = [] }, ts)

-- The first pages of the list, put together.
abbrev pub first_pages : (List RunRow → List RunRow) → ℕ → ℕ → List RunRow → List RunRow
first_pages by_start limit zero runs = []
first_pages by_start limit (suc k) runs =
    first_pages by_start limit k runs ++ page by_start limit (k * limit) runs

take-more : {A : Type 0} (n m : ℕ) (xs : List A) → take n xs ++ take m (drop n xs) ≡ take (n + m) xs
take-more zero m xs = let e : m ≡ 0 + m = omega arith in ap (λ k. take k xs) e
take-more (suc n) m [] = take-nil m ∙ sym (take-nil (suc n + m))
take-more (suc n) m (x ∷ xs) =
    let e : suc (n + m) ≡ suc n + m = omega arith in
    ap (λ r. x ∷ r) (take-more n m xs) ∙ ap (λ k. take k (x ∷ xs)) e

pub first_pages-eq-take :
    (by_start : List RunRow → List RunRow) (limit k : ℕ) (runs : List RunRow)
    → first_pages by_start limit k runs ≡ take (k * limit) (by_start runs)
unfolding page
first_pages-eq-take by_start limit zero runs =
    (let e : 0 ≡ 0 * limit = omega arith in ap (λ n. take n (by_start runs)) e)
first_pages-eq-take by_start limit (suc k) runs =
    let e : k * limit + limit ≡ suc k * limit = omega arith in
    rw (first_pages-eq-take by_start limit k runs)
      (take-more (k * limit) limit (by_start runs) ∙ ap (λ n. take n (by_start runs)) e)

ready : (r : BootstrapResult) → (reply_of r).is_ready ≡ true → r.is_bootstrapped ≡ true
unfolding reply_of
ready r h = elim (Bool-cases r.is_bootstrapped) [ inl fine ↦ fine | inr bad ↦ cc (rw bad at h) ]

pub bootstrap_audit_table-Usable :
    (server : Server) (ts : List Table)
    → (bootstrap_audit_table server ts).0.is_ready ≡ true
    → (server.connects ≡ true)
      × Usable (bootstrap server ts).0 (query server (bootstrap server ts).1)
unfolding bootstrap_audit_table bootstrap
bootstrap_audit_table-Usable server ts h = elim (Bool-cases server.connects) [
  | inr away ↦ cc (rw away at h)
  | inl reached ↦ (
    reached,
    bootstrap_and_validate-Usable _ _
        (unfold bootstrap_on in ready (bootstrap_on server ts).0 (rw reached at h)),
  )
]
