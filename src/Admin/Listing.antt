-- ===== src/Admin/Listing.antt =====
-- plugins/admin/admin.go: the list of users.
use go_dev_auth.Prelude.{
  ℕ, zero, suc, ◌^◌, ◌≤◌, ◌<◌, ◌≡◌, refl, ap, subst, String, Bool, true, false, not, ◌&&◌, Option,
  none, some, List, [], ◌∷◌, ◌++◌, map, arith, ltb, length, take, str_eq, if◌then◌else◌, ℤ, pos,
  negsuc, Bool-cases, inl, inr,
}
use go_dev_auth.Prelude.Result.{Result, ok, err}
use go_dev_auth.Prelude.Text.{codes}
use go_dev_auth.Prelude.Decimal.{parse_int}
use go_dev_auth.Storage.Error.{unknown_field}
use go_dev_auth.Storage.Value.{text, one, Operator, op_contains, op_starts_with, op_ends_with}
use go_dev_auth.Storage.Filter.{Record, Where, w, connector_default}
use go_dev_auth.Storage.Schema.{Table, field_by_name}
use go_dev_auth.Storage.Contract.{select}
use go_dev_auth.Memory.Operations.{FindOptions, page, limited, filterable}
use go_dev_auth.Session.{User, user_from_map}
use go_dev_auth.Admin.{AdminError, search_too_long, invalid_filter_field, storage_failed}

-- `atoi`
unfoldable pub atoi_or : String → ℤ → ℤ
unfolding parse_int
atoi_or s default =
    if str_eq s "" then default else elim (parse_int s) [ none ↦ default | some n ↦ n ]

-- `clampInt`, between bounds that are not negative.
unfoldable pub clamp_int : ℤ → ℕ → ℕ → ℕ
clamp_int (negsuc n) lo hi = lo
clamp_int (pos n) lo hi = if ltb n lo then lo else if ltb hi n then hi else n

abbrev pub max_list_limit : ℕ
max_list_limit = 500

abbrev pub max_search_length : ℕ
max_search_length = 128

-- The query of a request; "" where a parameter is absent.
pub record Query : Type 0 where
  pub limit : String
  pub offset : String
  pub sort_by : String
  pub sort_direction : String
  pub search_value : String
  pub search_field : String
  pub search_operator : String
  pub filter_value : String
  pub filter_field : String

-- Whether the schema of the users has a column.
unfoldable pub has_column : Option Table → String → Bool
unfolding field_by_name
has_column none name = false
has_column (some t) name = elim (field_by_name name t.fields) [ none ↦ false | some f ↦ true ]

search_operator : String → Operator
search_operator s =
    if str_eq s "starts_with"
    then op_starts_with
    else if str_eq s "ends_with"
    then op_ends_with
    else op_contains

unfoldable pub search_clause : Query → List Where
unfolding search_operator
search_clause q =
    if str_eq q.search_value ""
    then []
    else (record {
      name = if str_eq q.search_field "name" then "name" else "email";
      operator = search_operator q.search_operator;
      value = one (text q.search_value);
      connector = connector_default;
    })
      ∷ []

filters : Query → Bool
filters q = not (str_eq q.filter_value "") && not (str_eq q.filter_field "")

unfoldable pub list_where : Query → List Where
unfolding search_clause filters
list_where q =
    search_clause q ++ (if filters q then w q.filter_field (text q.filter_value) ∷ [] else [])

unfoldable pub list_options : Option Table → Query → FindOptions
unfolding atoi_or clamp_int has_column
list_options t q = record {
  limit = clamp_int (atoi_or q.limit (pos 100)) 1 max_list_limit;
  offset = clamp_int (atoi_or q.offset (pos 0)) 0 (2 ^ 31);
  sort_by = some (record {
    name = if has_column t q.sort_by then q.sort_by else "createdAt";
    descending = str_eq (if str_eq q.sort_direction "" then "desc" else q.sort_direction) "desc";
  });
}

-- `handleListUsers`, behind its `requireAdmin`: a page of users, and how many there are.
unfoldable pub list_users : Option Table → Query → List Record → Result AdminError (List User × ℕ)
unfolding has_column list_where list_options filterable page select user_from_map filters
list_users t q users =
    if ltb max_search_length (length (codes q.search_value))
    then err search_too_long
    else if filters q && not (has_column t q.filter_field)
    then err invalid_filter_field
    else if not (filterable t (list_where q))
    then err (storage_failed unknown_field)
    else ok (
      map user_from_map (page (list_options t q) (select (list_where q) users)),
      length (select (list_where q) users),
    )

length-take_le : (n : ℕ) (rs : List Record) → length (take n rs) ≤ n
length-take_le zero rs = omega arith
length-take_le (suc n) [] = omega arith
length-take_le (suc n) (r ∷ rs) = omega (arith, length-take_le n rs)

length-limited : (n : ℕ) (rs : List Record) → 0 < n → length (limited n rs) ≤ n
unfolding limited
length-limited n rs h = elim (Bool-cases (ltb n (length rs))) [
  | inl e ↦ ground (arith, e, length-take_le n rs)
  | inr e ↦ ground (arith, e)
]

clamp_int-bounds :
    (v : ℤ) (lo hi : ℕ) → lo ≤ hi → (lo ≤ clamp_int v lo hi) × (clamp_int v lo hi ≤ hi)
unfolding clamp_int
clamp_int-bounds (negsuc n) lo hi h = (omega arith, h)
clamp_int-bounds (pos n) lo hi h = (ground arith, ground arith)

length-map_users : (rs : List Record) → length (map user_from_map rs) ≡ length rs
length-map_users [] = refl
length-map_users (r ∷ rs) = ap suc (length-map_users rs)

length-page : (o : FindOptions) (rs : List Record) → 0 < o.limit → length (page o rs) ≤ o.limit
unfolding page
length-page o rs h = length-limited o.limit _ h

ok_inj :
    {a b : List User} {m n : ℕ}
    → ◌≡◌ {A = Result AdminError (List User × ℕ)} (ok (a, m)) (ok (b, n))
    → a ≡ b
ok_inj e = cc

-- Whatever the query says, an answer lists 500 users at most.
pub list_users-length :
    (t : Option Table) (q : Query) (users : List Record) (out : List User) (total : ℕ)
    → list_users t q users ≡ ok (out, total)
    → length out ≤ max_list_limit
unfolding list_users list_options
list_users-length t q users out total h =
    elim (Bool-cases (ltb max_search_length (length (codes q.search_value)))) [
      | inl e ↦ absurd (cc (rw (list_users, e) at h))
      | inr e ↦ elim (Bool-cases (filters q && not (has_column t q.filter_field))) [
        | inl f ↦ absurd (cc (rw (list_users, e, f) at h))
        | inr f ↦ elim (Bool-cases (filterable t (list_where q))) [
          | inr g ↦ absurd (cc (rw (list_users, e, f, g) at h))
          | inl g ↦
              let rs = select (list_where q) users in
              let same : map user_from_map (page (list_options t q) rs) ≡ out =
                ok_inj (rw (list_users, e, f, g) at h) in
              let (low, high) = clamp_int-bounds (atoi_or q.limit (pos 100)) 1 500 (omega arith) in
              let few = length-page (list_options t q) rs (omega (arith, low)) in
              subst (λ l. length l ≤ 500) same
                (omega (arith, length-map_users (page (list_options t q) rs), few, high))
        ]
      ]
    ]
