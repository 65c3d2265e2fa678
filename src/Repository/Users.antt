-- ===== src/Repository/Users.antt =====
-- InMemoryUserRepository of backend/adapters/memory.py.
use phyai_saas_train_vla.Prelude.{
  String, Bool, false, Option, none, some, List, [], ◌∷◌, ◌==◌, text_eq, if◌then◌else◌,
}
use phyai_saas_train_vla.Dict
use phyai_saas_train_vla.Dict.{Dict, values}
use phyai_saas_train_vla.Common.Models.{User}

-- `field == text`, for a field that may be `None`
abbrev pub is_text : Option String → String → Bool
is_text none s = false
is_text (some t) s = t == s

abbrev pub first : (User → Bool) → List User → Option User
first p [] = none
first p (user ∷ users) = let rest = first p users in if p user then some user else rest

unfoldable pub get : Dict User → String → Option User
get users user_id = Dict.get users user_id

unfoldable pub get_by_email : Dict User → String → Option User
get_by_email users email = first (λ user. is_text user.email email) (values users)

unfoldable pub get_by_hf_user_id : Dict User → String → Option User
get_by_hf_user_id users hf_user_id =
    first (λ user. is_text user.hf_user_id hf_user_id) (values users)

unfoldable pub create : Dict User → User → Dict User
create users user = Dict.put users user.id user

unfoldable pub update : Dict User → User → Dict User
update users user = Dict.put users user.id user
