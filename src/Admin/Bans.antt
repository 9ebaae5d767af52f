-- ===== src/Admin/Bans.antt =====
-- plugins/admin/admin.go: a ban keeps its user out.
use go_dev_auth.Prelude.{
  ℕ, ◌≡◌, ◌≢◌, refl, ap, sym, subst, ◌∙◌, String, true, false, not, Option, none, some, List, [],
  ◌∷◌, ◌++◌, arith, str_eq, eq_iff, if◌then◌else◌, Bool-cases, Option-cases, inl, inr, All, ℤ,
}
use mathlib.Core.Option.{some_inj}
use go_dev_auth.Prelude.Assoc.{lookup, insert, merge, lookup-insert}
use go_dev_auth.Prelude.Result.{ok, Result-cases}
use go_dev_auth.Storage.Value.{Value, null, text, boolean, time, str, equal}
use go_dev_auth.Storage.Filter.{Record, Where, field, matches, match_one}
use go_dev_auth.Storage.Filter.Laws.{matches-w_text}
use go_dev_auth.Storage.Schema.{Table}
use go_dev_auth.Storage.Contract.{first, update_first}
use go_dev_auth.Memory.Operations.{filterable, writable}
use go_dev_auth.Memory.Refines.{refused}
use go_dev_auth.Memory.Updates.{update_spec}
use go_dev_auth.Session.{
  User, Session, Plugin, Config, user_from_map, user_fields, is_core, extra_of,
  get_session_from_token, revoke_user_sessions,
}
use go_dev_auth.Session.Lifetime.{IsAccepted, get_session_from_token-IsResolved}
use go_dev_auth.Admin.{
  Options, by_id, update_user, is_banned, ban_lifted, ban_flag, is_flag, ban_over, check_session,
  plugin,
}
use go_dev_auth.Admin.Handlers.{
  Instance, State, Outcome, ban_of, ban_expiry, write, ban_user, revoked,
}

lookup-extra_of :
    (k : String) (core : List String) (r : Record)
    → is_core k core ≡ false
    → lookup k (extra_of core r) ≡ lookup k r
unfolding lookup extra_of
lookup-extra_of k core [] h = refl
lookup-extra_of k core ((j, v) ∷ r) h = elim (Bool-cases (str_eq j k)) [
  | inl e ↦
      let same : is_core j core ≡ false = ap (λ x. is_core x core) ((eq_iff j k).0 e) ∙ h in
      rw (same, e) refl
  | inr e ↦ ground (arith, e, lookup-extra_of k core r h)
]

-- The first record that matches is updated where it stands.
first-update_first :
    (cs : List Where) (u : Record) (rs : List Record) (r : Record)
    → ((q : Record) → matches (merge u q) cs ≡ matches q cs)
    → first cs rs ≡ some r
    → first cs (update_first cs u rs) ≡ some (merge u r)
unfolding first update_first
first-update_first cs u [] r same h = cc
first-update_first cs u (q ∷ rs) r same h = elim (Bool-cases (matches q cs)) [
  | inl e ↦
      let one : q ≡ r = some_inj.0 (rw e at h) in rw (e, same q, e) (ap (λ x. some (merge u x)) one)
  | inr e ↦ rw (e, e) (first-update_first cs u rs r same (rw e at h))
]

-- The update that a ban writes.
abbrev written : Options → ℕ → String → Option ℤ → Record
written opts now reason seconds = insert "updatedAt" (time now) (ban_of opts now reason seconds)

-- A key among those written last.
lookup_of_two :
    (k a b : String) (x y : Value) (r : Record)
    → lookup k (insert a x (insert b y r))
      ≡ (if str_eq a k then some x else if str_eq b k then some y else lookup k r)
lookup_of_two k a b x y r =
    ground (arith, lookup-insert a k x (insert b y r), lookup-insert b k y r)

lookup_of_four :
    (k a b c d : String) (x y z v : Value) (r : Record)
    → lookup k (insert a x (insert b y (insert c z (insert d v r)))) ≡ (
        if str_eq a k
        then some x
        else if str_eq b k
        then some y
        else if str_eq c k
        then some z
        else if str_eq d k
        then some v
        else lookup k r)
lookup_of_four k a b c d x y z v r =
    ground (arith, lookup_of_two k a b x y (insert c z (insert d v r)), lookup_of_two k c d z v r)

lookup_of_three :
    (k a b c : String) (x y z : Value) (r : Record)
    → lookup k (insert a x (insert b y (insert c z r))) ≡ (
        if str_eq a k
        then some x
        else if str_eq b k
        then some y
        else if str_eq c k
        then some z
        else lookup k r)
lookup_of_three k a b c x y z r =
    ground (arith, lookup_of_two k a b x y (insert c z r), lookup-insert c k z r)

lookup-written :
    (opts : Options) (now : ℕ) (reason : String) (seconds : Option ℤ) (r : Record)
    → (lookup "banned" (merge (written opts now reason seconds) r) ≡ some (boolean true))
      × (lookup "banExpires" (merge (written opts now reason seconds) r)
          ≡ elim (ban_expiry opts now seconds) [
            | none ↦ lookup "banExpires" r
            | some t ↦ some (time t)
          ])
      × (lookup "id" (merge (written opts now reason seconds) r) ≡ lookup "id" r)
unfolding ban_of merge insert
lookup-written opts now reason seconds r =
    let why = text (if str_eq reason "" then opts.default_ban_reason else reason) in
    elim (Option-cases (ban_expiry opts now seconds)) [
      | inl e ↦
          let at = λ (k : String).
            lookup_of_three k "updatedAt" "banReason" "banned" (time now) why (boolean true) r in
          rw e (at "banned", at "banExpires", at "id")
      | inr (t, e) ↦
          let at = λ (k : String).
            lookup_of_four k "updatedAt" "banExpires" "banReason" "banned" (time now) (time t) why
              (boolean true) r in
          rw e (at "banned", at "banExpires", at "id")
    ]

-- When a ban written over a record ends: at its own end, or, without one, at the end that the record has had.
unfoldable pub ban_end : Options → ℕ → Option ℤ → Record → Option Value
unfolding ban_expiry lookup
ban_end opts now seconds r = elim (ban_expiry opts now seconds) [
  | none ↦ lookup "banExpires" r
  | some t ↦ some (time t)
]

is_banned-written :
    (opts : Options) (now later : ℕ) (reason : String) (seconds : Option ℤ) (r : Record)
    → is_banned (user_from_map (merge (written opts now reason seconds) r)) later
      ≡ not (ban_over (ban_end opts now seconds r) later)
unfolding is_banned ban_lifted ban_flag is_flag user_from_map ban_end is_core
is_banned-written opts now later reason seconds r =
    let (b, x, _) = lookup-written opts now reason seconds r in
    rw
      (
        lookup-extra_of "banned" user_fields (merge (written opts now reason seconds) r) refl ∙ b,
        lookup-extra_of "banExpires" user_fields (merge (written opts now reason seconds) r) refl
            ∙ x,
      )
      refl

update-ok :
    (t : Option Table) (cs : List Where) (u : Record) (rs : List Record) (rec : Record)
    → (update_spec t cs u rs).0 ≡ ok rec
    → (r : Record) × (first cs rs ≡ some r) × ((update_spec t cs u rs).1 ≡ update_first cs u rs)
unfolding update_spec
update-ok t cs u rs rec h = elim (Bool-cases (filterable t cs)) [
  | inr e ↦ absurd (cc (rw (update_spec, e) at h))
  | inl e ↦ elim (Bool-cases (writable t u)) [
    | inr f ↦ absurd (cc (rw (update_spec, e, f) at h))
    | inl f ↦ elim (Option-cases (first cs rs)) [
      | inl n ↦ absurd (cc (rw (update_spec, e, f, n) at h))
      | inr (r, g) ↦ elim (Bool-cases (refused t (merge u r) (some r) rs)) [
        | inl x ↦ absurd (cc (rw (update_spec, e, f, g, x) at h))
        | inr x ↦ (r, g, rw (update_spec, e, f, g, x) refl)
      ]
    ]
  ]
]

-- What a ban that is answered without an error has done.
ban_user-ok :
    (i : Instance) (now : ℕ) (id reason : String) (seconds : Option ℤ) (admin : Session × User)
    (st : State) (out : Outcome)
    → (ban_user i now id reason seconds admin st).0 ≡ ok out
    → (r : Record) × (first (by_id id) st.users ≡ some r)
      × ((ban_user i now id reason seconds admin st).1.users
          ≡ update_first (by_id id) (written i.options now reason seconds) st.users)
      × ((ban_user i now id reason seconds admin st).1.sessions
          ≡ revoke_user_sessions id st.sessions)
unfolding ban_user write update_user revoked
ban_user-ok i now id reason seconds (s, admin) st out h =
    let u = written i.options now reason seconds in
    elim (Bool-cases (str_eq id admin.id)) [
      | inl e ↦ absurd (cc (rw (ban_user, e) at h))
      | inr e ↦ elim (Result-cases (update_spec i.users (by_id id) u st.users).0) [
        | inr (x, f) ↦ absurd (cc (rw (ban_user, e, f) at h))
        | inl (rec, f) ↦
            let (r, g, left) = update-ok i.users (by_id id) u st.users rec f in
            (r, g, rw (ban_user, e, f) left, rw (ban_user, e, f) refl)
      ]
    ]

by_id-kept :
    (opts : Options) (now : ℕ) (reason : String) (seconds : Option ℤ) (id : String) (q : Record)
    → matches (merge (written opts now reason seconds) q) (by_id id) ≡ matches q (by_id id)
unfolding matches match_one field
by_id-kept opts now reason seconds id q =
    ap (λ v. equal (elim v [ none ↦ null | some u ↦ u ]) (text id))
      (lookup-written opts now reason seconds q).2

-- A user who is found by an id has it.
id-found :
    (id : String) (users : List Record) (u : Record)
    → first (by_id id) users ≡ some u
    → (user_from_map u).id ≡ id
unfolding first user_from_map str field
id-found id [] u h = cc
id-found id (q ∷ users) u h = elim (Bool-cases (matches q (by_id id))) [
  | inr e ↦ id-found id users u (rw e at h)
  | inl e ↦
      let same : q ≡ u = some_inj.0 (rw e at h) in
      let held = (matches-w_text u "id" id).0 (subst (λ x. matches x (by_id id) ≡ true) same e) in
      ap (λ o. str (elim o [ none ↦ null | some v ↦ v ])) held
]

refuses :
    (opts : Options) (later : ℕ) (before after : List Plugin) (s : Session) (user : User)
    → All (IsAccepted s user) (before ++ plugin opts later ∷ after)
    → is_banned user later ≡ false
unfolding check_session
refuses opts later [] after s user (here, rest) = elim (Bool-cases (is_banned user later)) [
  | inr e ↦ e
  | inl e ↦
      let passed : check_session opts later s user ≡ none = here (check_session opts later) refl in
      absurd (cc (rw (check_session, e) at passed))
]
refuses opts later (p ∷ before) after s user (_, rest) = refuses opts later before after s user rest

-- Once a ban is answered without an error, and until it ends, no token resolves to a session of the user,
-- whatever sessions there are or will be, where the plugin is one of those configured. A ban
-- without an end of its own ends when the one that the record had before ends.
pub ban_user-IsOut :
    (i : Instance) (now later : ℕ) (id reason : String) (seconds : Option ℤ)
    (admin : Session × User) (st : State) (out : Outcome) (r : Record) (config : Config)
    (before after : List Plugin) (token : String) (sessions : List Record) (s : Session)
    (user : User)
    → (ban_user i now id reason seconds admin st).0 ≡ ok out
    → first (by_id id) st.users ≡ some r
    → ban_over (ban_end i.options now seconds r) later ≡ false
    → config.plugins ≡ before ++ plugin i.options later ∷ after
    → (get_session_from_token config
        (ban_user i now id reason seconds admin st).1.users
        token
        later
        sessions).0
      ≡ ok (s, user)
    → user.id ≢ id
ban_user-IsOut i now later id reason seconds admin st out r config before after token sessions s
      user h found over plugins resolved same =
    let (r', found', left, _) = ban_user-ok i now id reason seconds admin st out h in
    let one : r' ≡ r = some_inj.0 (sym found' ∙ found) in
    let users' = (ban_user i now id reason seconds admin st).1.users in
    let banned =
      ap (first (by_id id)) left
      ∙ first-update_first (by_id id) (written i.options now reason seconds) st.users r
          (by_id-kept i.options now reason seconds id) found in
    let (old, _, _, _, (u, stored, is_user), accepted) =
      get_session_from_token-IsResolved config users' token later sessions s user resolved in
    let owner = sym (id-found _ users' u stored) ∙ ap (λ x. x.id) (sym is_user) ∙ same in
    let kept : u ≡ merge (written i.options now reason seconds) r =
      some_inj.0 (sym stored ∙ ap (λ x. first (by_id x) users') owner ∙ banned) in
    let free =
      refuses i.options later before after s user
        (subst (All (IsAccepted s user)) plugins accepted) in
    let contrary : true ≡ false =
      ap not (sym over)
      ∙ sym (is_banned-written i.options now later reason seconds r)
      ∙ ap (λ x. is_banned (user_from_map x) later) (sym kept)
      ∙ ap (λ x. is_banned x later) (sym is_user)
      ∙ free in
    absurd (cc contrary)
