-- ===== src/Profiles/Tables/Query.antt =====
-- The queries of profiles/repository.py, as functions of the tables. A query joins the tables row
-- by row, as its SELECT does.
use ez_open_pn.Prelude.{
  Bool, true, false, ◌&&◌, ◌||◌, Option, none, some, List, [], ◌∷◌, ◌++◌, map, Bytes, bytes_eq,
  bytes_le, select, ltb, ◌==◌, if◌then◌else◌,
}
use ez_open_pn.Errors.{Result, ok, err, ◌>>=◌, multiple_results_found, profile_not_found}
use ez_open_pn.Models.{
  ProfileState, pending, active, disabled, error, Profile, LookupKind, subscription, hysteria_auth,
  ProfileLookup, Database,
}
use ez_open_pn.Profiles.Types.{ProfileRecord}

abbrev pub state_eq : ProfileState → ProfileState → Bool
state_eq pending pending = true
state_eq active active = true
state_eq disabled disabled = true
state_eq error error = true
state_eq _ _ = false

abbrev pub kind_eq : LookupKind → LookupKind → Bool
kind_eq subscription subscription = true
kind_eq hysteria_auth hysteria_auth = true
kind_eq _ _ = false

-- `_LEGAL_TRANSITIONS`.
abbrev pub legal_transition : ProfileState → ProfileState → Bool
legal_transition pending active = true
legal_transition pending error = true
legal_transition error pending = true
legal_transition error disabled = true
legal_transition active disabled = true
legal_transition active error = true
legal_transition disabled active = true
legal_transition disabled error = true
legal_transition _ _ = false

-- `_record`.
abbrev pub record_of : Profile → Bytes → ProfileRecord
record_of profile digest = record {
  profile_id = profile.id;
  name = profile.name;
  state = profile.state;
  runtime_id = profile.runtime_id;
  wrapped_profile_key = profile.wrapped_profile_key;
  user_id_ciphertext = profile.user_id_ciphertext;
  hysteria_secret_ciphertext = profile.hysteria_secret_ciphertext;
  subscription_token_ciphertext = profile.subscription_token_ciphertext;
  subscription_lookup_digest = digest;
  created_at = profile.created_at;
  updated_at = profile.updated_at;
  disabled_at = profile.disabled_at;
  last_error_code = profile.last_error_code;
}

-- The digests of a kind that are joined to a profile.
unfoldable pub digests : LookupKind → Bytes → List ProfileLookup → List Bytes
digests kind id [] = []
digests kind id (l ∷ ls) =
    if bytes_eq l.profile_id id && kind_eq l.kind kind
    then l.lookup_digest ∷ digests kind id ls
    else digests kind id ls

-- SELECT profile, lookup_digest … JOIN … WHERE kind = 'subscription'.
unfoldable pub joined : List ProfileLookup → List Profile → List (Profile × Bytes)
unfolding digests
joined ls [] = []
joined ls (p ∷ ps) = map (λ d. (p, d)) (digests subscription p.id ls) ++ joined ls ps

-- `one_or_none`.
unfoldable pub one_or_none : {A : Type 0} → List A → Result (Option A)
one_or_none [] = ok none
one_or_none (x ∷ []) = ok (some x)
one_or_none (x ∷ y ∷ rest) = err multiple_results_found

-- The one row of a profile, or `ProfileNotFound`.
abbrev found : {A : Type 0} → Option A → Result A
found none = err profile_not_found
found (some row) = ok row

unfoldable pub row_of : Bytes → Database → Result (Profile × Bytes)
unfolding joined one_or_none
row_of id db =
    one_or_none (select (λ r. bytes_eq r.0.id id) (joined db.profile_lookups db.profiles)) >>= found

-- UPDATE profiles SET … WHERE id = ….
unfoldable pub update_profile : Bytes → (Profile → Profile) → List Profile → List Profile
update_profile id f [] = []
update_profile id f (p ∷ ps) = (if bytes_eq p.id id then f p else p) ∷ update_profile id f ps

unfoldable pub get_row : Bytes → Database → Result (ProfileRecord × Database)
get_row id db = do row ← row_of id db; ok (record_of row.0 row.1, db)

-- ORDER BY created_at, id.
abbrev pub row_le : Profile × Bytes → Profile × Bytes → Bool
row_le a b =
    ltb a.0.created_at b.0.created_at
    || ((a.0.created_at == b.0.created_at) && bytes_le a.0.id b.0.id)

unfoldable pub insert_row : Profile × Bytes → List (Profile × Bytes) → List (Profile × Bytes)
insert_row r [] = r ∷ []
insert_row r (s ∷ rest) = if row_le r s then r ∷ s ∷ rest else s ∷ insert_row r rest

unfoldable pub order_rows : List (Profile × Bytes) → List (Profile × Bytes)
unfolding insert_row
order_rows [] = []
order_rows (r ∷ rest) = insert_row r (order_rows rest)

unfoldable pub list_rows : Database → List ProfileRecord
unfolding joined order_rows
list_rows db = map (λ r. record_of r.0 r.1) (order_rows (joined db.profile_lookups db.profiles))

-- The result of a lookup by digest: at most one row, compared once more in constant time.
abbrev matched : Bytes → Option (Profile × Bytes × Bytes) → Result (Option ProfileRecord)
matched digest none = ok none
matched digest (some (profile, compared, shown)) =
    if bytes_eq compared digest then ok (some (record_of profile shown)) else ok none

-- … WHERE kind = 'subscription' AND lookup_digest = digest.
unfoldable pub subscription_rows : Bytes → Database → List (Profile × Bytes × Bytes)
unfolding joined
subscription_rows digest db =
    map (λ r. (r.0, r.1, r.1))
      (select (λ r. bytes_eq r.1 digest) (joined db.profile_lookups db.profiles))

-- The hysteria-auth lookups of a profile, each beside its subscription lookups.
unfoldable pub lookup_pairs : Profile → List Bytes → List Bytes → List (Profile × Bytes × Bytes)
lookup_pairs p [] shown = []
lookup_pairs p (auth ∷ rest) shown = map (λ d. (p, auth, d)) shown ++ lookup_pairs p rest shown

-- SELECT profile, both digests … JOIN auth_lookup … JOIN subscription_lookup.
unfoldable pub joined_twice : List ProfileLookup → List Profile → List (Profile × Bytes × Bytes)
unfolding digests lookup_pairs
joined_twice ls [] = []
joined_twice ls (p ∷ ps) =
    lookup_pairs p (digests hysteria_auth p.id ls) (digests subscription p.id ls)
    ++ joined_twice ls ps

unfoldable pub hysteria_rows : Bytes → Database → List (Profile × Bytes × Bytes)
unfolding joined_twice
hysteria_rows digest db =
    select (λ r. bytes_eq r.1 digest) (joined_twice db.profile_lookups db.profiles)

unfoldable pub find_row :
    Bytes → List (Profile × Bytes × Bytes) → Database → Result (Option ProfileRecord × Database)
unfolding one_or_none
find_row digest rows db = do row ← one_or_none rows; result ← matched digest row; ok (result, db)
