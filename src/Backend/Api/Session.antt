-- ===== src/Backend/Api/Session.antt =====
-- From an account to a session: registration, login, and the requests that follow.
use Prim.Native.String.{◌++◌}
use phyai_saas_train_vla.Prelude.{◌+◌, ◌≤◌, ◌≡◌, refl, String, some, none, ok}
use phyai_saas_train_vla.Dict
use phyai_saas_train_vla.Common.Models.{DateTime, User}
use phyai_saas_train_vla.Repository.Database.{Database}
use phyai_saas_train_vla.Backend.AuthService.{
  Bcrypt, ChecksOwnHash, CaptchaResult, register_with_email,
}
use phyai_saas_train_vla.Backend.AuthService.Accounts.{register-login}
use phyai_saas_train_vla.Backend.Security.{
  Jwt, IsJwt, microseconds_per_second, token_lifetime, bearer, create_access_token,
  get_current_user_id,
}
use phyai_saas_train_vla.Backend.Security.Tokens.{get_current_user_id-create_access_token}
use phyai_saas_train_vla.Backend.Api.{login, token_for}

module _ (jwt : Jwt) (documented : IsJwt jwt) (secret : String) (bcrypt : Bcrypt)
    (checks : ChecksOwnHash bcrypt) where
  -- After a registration that succeeds, under a new id, logging
  -- in with the same email and password is answered with a token and writes nothing; from then on
  -- until a second before twelve hours have passed, a request with this bearer token is the new
  -- user's. bcrypt and the JWT package keep to their documentation.
  pub register-session :
      (id salt email password : String) (created_at issued now : DateTime) (db : Database)
      → Dict.get db.users id ≡ none
      → (captcha : CaptchaResult) {user : User} {db' : Database}
      → register_with_email bcrypt id salt created_at email password (ok captcha) db
        ≡ (ok user, db')
      → issued ≤ now
      → now + microseconds_per_second ≤ issued + token_lifetime
      → (token : String) × (login jwt secret bcrypt issued email password db' ≡ (ok token, db'))
        × (get_current_user_id jwt now secret (some (bearer ++ token)) ≡ ok user.id)
  unfolding login token_for
  register-session id salt email password created_at issued now db fresh captcha {user} {db'} done
        started alive =
      (
        create_access_token jwt issued user.id secret,
        rw
            (register-login bcrypt id salt created_at email password (ok captcha) db checks fresh
              done)
            refl,
        get_current_user_id-create_access_token jwt documented issued now secret user.id started
            alive,
      )
