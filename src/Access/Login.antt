-- ===== src/Access/Login.antt =====
-- qndb/security/authorization/rbac.py: `authenticate` and the lockout of accounts. `verify` is the check of
-- a password against its hash, which libraries do. Tokens are not modelled.
pub mod Lockout
use quantum_database.Prelude.{
  ℕ, zero, suc, ◌+◌, String, Bool, true, false, Option, none, some, List, [], ◌∷◌, if◌then◌else◌,
  leb, Dict, lookup, insert, ◌==◌, string_key,
}
use quantum_database.Access.Models.{
  User, new_user, LockoutStatus, active, locked, disabled, is_locked, record_login,
}

-- A user with the hash of the password, if one is set
pub record Account : Type 0 where
  pub user : User
  pub password_hash : Option String

-- `_max_failed` and `_lockout_duration`
pub record LockoutConfig : Type 0 where
  pub max_failed : ℕ
  pub lockout_duration : ℕ

-- A user is returned; None is returned; AccountLockedException is raised.
pub data Answer : Type 0 where
  granted rejected locked_out : Answer

unfoldable pub maybe_lock : LockoutConfig → (now : ℕ) → User → User
maybe_lock c now u =
    if leb c.max_failed u.failed_logins
    then record u { status = locked; lockout_until = some (now + c.lockout_duration) }
    else u

abbrev bad_password : (String → String → Bool) → (password hash : Option String) → Bool
bad_password verify (some p) (some h) = if verify p h then false else true
bad_password verify _ _ = false

module _ (verify : (password hash : String) → Bool) (c : LockoutConfig) where
  -- `authenticate`, of a user who is known; the clock is read several times in one call, which `now` is for.
  unfoldable pub authenticate : (now : ℕ) → (password : Option String) → Account → Answer × Account
  unfolding is_locked record_login maybe_lock
  authenticate now password a =
      let (u, is_out) = is_locked now a.user in
      if is_out
      then (locked_out, record a { user = u })
      else if bad_password verify password a.password_hash
      then (rejected, record a { user = maybe_lock c now (record_login false now u) })
      else (granted, record a { user = record_login true now u })

  -- Attempts at an account, each with its time
  unfoldable pub attempts : List (ℕ × Option String) → Account → Account
  unfolding authenticate
  attempts [] a = a
  attempts ((now, password) ∷ more) a = attempts more (authenticate now password a).1

-- `unlock_account` and `disable_account`, of a user who is known
unfoldable pub unlock_account : Account → Account
unlock_account a = record a {
  user = record (a.user) { status = active; failed_logins = 0; lockout_until = none };
}

unfoldable pub disable_account : Account → Account
disable_account a = record a { user = record (a.user) { status = disabled } }

abbrev find_username : String → Dict String Account → Option Account
find_username username [] = none
find_username username ((i, a) ∷ users) =
    if a.user.username == username then some a else find_username username users

abbrev or_id : Option Account → Option Account → Option Account
or_id none b = b
or_id (some a) b = some a

unfoldable pub get_user_by_username : String → Dict String Account → Option Account
unfolding lookup
get_user_by_username username users = or_id (find_username username users) (lookup username users)
