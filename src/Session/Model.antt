-- ===== src/Session/Model.antt =====
-- Users and sessions survive the way into a record and back.
use go_dev_auth.Prelude.{
  ◌≡◌, refl, ap, sym, ◌∙◌, String, false, none, List, [], ◌∷◌, ◌++◌, append_assoc, append-nil,
  arith, eq_iff,
}
use go_dev_auth.Prelude.Assoc.{lookup, insert, merge}
use go_dev_auth.Storage.Value.{Value, str}
use go_dev_auth.Storage.Filter.{Record}
use go_dev_auth.Token.{time_val}
use go_dev_auth.Session.{
  is_core, extra_of, bool_val, User, Session, user_fields, session_fields, user_to_map,
  user_from_map, session_to_map, session_from_map,
}

-- The keys are distinct, as they are in a map, and none of them is a field of the model.
abbrev pub IsExtra : List String → Record → Type 0
IsExtra core [] = Unit
IsExtra core ((k, v) ∷ rec) = (is_core k core ≡ false) × (lookup k rec ≡ none) × IsExtra core rec

insert-new :
    (k : String) (v : Value) (m : Record) → lookup k m ≡ none → insert k v m ≡ m ++ (k, v) ∷ []
unfolding lookup insert
insert-new k v [] h = refl
insert-new k v ((j, u) ∷ m) h = ground (arith, insert-new k v m)

lookup-append : (k : String) (m n : Record) → lookup k m ≡ none → lookup k (m ++ n) ≡ lookup k n
unfolding lookup
lookup-append k [] n h = refl
lookup-append k ((j, u) ∷ m) n h = ground (arith, lookup-append k m n)

-- No key of the second record is a key of the first.
abbrev IsApart : Record → Record → Type 0
IsApart m [] = Unit
IsApart m ((k, v) ∷ n) = (lookup k m ≡ none) × (lookup k n ≡ none) × IsApart m n

IsApart-snoc :
    (m n : Record) (k : String) (v : Value)
    → lookup k n ≡ none
    → IsApart m n
    → IsApart (m ++ (k, v) ∷ []) n
unfolding lookup
IsApart-snoc m [] k v h apart = tt
IsApart-snoc m ((j, u) ∷ n) k v h (new, distinct, apart) = (
  lookup-append j m ((k, v) ∷ []) new ∙ ground (arith, eq_iff j k, eq_iff k j),
  distinct,
  IsApart-snoc m n k v (ground arith) apart,
)

merge-append : (n m : Record) → IsApart m n → merge n m ≡ m ++ n
unfolding merge
merge-append [] m apart = sym (append-nil m)
merge-append ((k, v) ∷ n) m (new, distinct, apart) =
    ap (merge n) (insert-new k v m new)
    ∙ merge-append n (m ++ (k, v) ∷ []) (IsApart-snoc m n k v distinct apart)
    ∙ append_assoc m ((k, v) ∷ []) n

extra_of-IsExtra : (core : List String) (n : Record) → IsExtra core n → extra_of core n ≡ n
unfolding extra_of
extra_of-IsExtra core [] h = refl
extra_of-IsExtra core ((k, v) ∷ n) (new, distinct, h) = ground (arith, extra_of-IsExtra core n h)

-- The fields of a model have the keys that its `switch` names.
abbrev IsModel : List String → Record → Type 0
IsModel core m = (k : String) → is_core k core ≡ false → lookup k m ≡ none

IsExtra-IsApart :
    (core : List String) (m n : Record) → IsModel core m → IsExtra core n → IsApart m n
IsExtra-IsApart core m [] model h = tt
IsExtra-IsApart core m ((k, v) ∷ n) model (new, distinct, h) =
    (model k new, distinct, IsExtra-IsApart core m n model h)

-- The fields of a user, before its extra ones.
abbrev user_core : User → Record
user_core u = user_to_map (record u { extra = [] })

abbrev session_core : Session → Record
session_core s = session_to_map (record s { extra = [] })

user_core-IsModel : (u : User) → IsModel user_fields (user_core u)
unfolding user_to_map merge lookup is_core
user_core-IsModel u k h = ground arith

session_core-IsModel : (s : Session) → IsModel session_fields (session_core s)
unfolding session_to_map merge lookup is_core
session_core-IsModel s k h = ground arith

user_to_map-append :
    (u : User) → IsExtra user_fields u.extra → user_to_map u ≡ user_core u ++ u.extra
unfolding user_to_map merge
user_to_map-append u h =
    merge-append u.extra (user_core u)
      (IsExtra-IsApart user_fields (user_core u) u.extra (user_core-IsModel u) h)

session_to_map-append :
    (s : Session) → IsExtra session_fields s.extra → session_to_map s ≡ session_core s ++ s.extra
unfolding session_to_map merge
session_to_map-append s h =
    merge-append s.extra (session_core s)
      (IsExtra-IsApart session_fields (session_core s) s.extra (session_core-IsModel s) h)

user_of-append :
    (u : User)
    → user_from_map (user_core u ++ u.extra) ≡ record u { extra = extra_of user_fields u.extra }
unfolding user_from_map user_to_map merge lookup extra_of is_core str time_val bool_val
user_of-append u = refl

session_of-append :
    (s : Session)
    → session_from_map (session_core s ++ s.extra)
      ≡ record s { extra = extra_of session_fields s.extra }
unfolding session_from_map session_to_map merge lookup extra_of is_core str time_val
session_of-append s = refl

-- A user and a session that are written to a record and read back are the same, their extra fields
-- included, if these have distinct keys and none of them is the key of a field of the model.
pub from_map-to_map :
    (u : User) (s : Session)
    → IsExtra user_fields u.extra
    → IsExtra session_fields s.extra
    → (user_from_map (user_to_map u) ≡ u) × (session_from_map (session_to_map s) ≡ s)
from_map-to_map u s hu hs = (
  ap user_from_map (user_to_map-append u hu)
      ∙ user_of-append u
      ∙ ap (λ x. record u { extra = x }) (extra_of-IsExtra user_fields u.extra hu),
  ap session_from_map (session_to_map-append s hs)
      ∙ session_of-append s
      ∙ ap (λ x. record s { extra = x }) (extra_of-IsExtra session_fields s.extra hs),
)
