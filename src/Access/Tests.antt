-- ===== src/Access/Tests.antt =====
-- Attempts to log in, row policies for a clerk, and an engine of two policies.

use quantum_database.Prelude.{
  ℕ, ◌≡◌, refl, String, Bool, true, false, List, [], ◌∷◌, none, some, filter, ◌==◌, string_key,
  arith, pos, lookup, ltb, nat_beq,
}
use quantum_database.Query.Result.{Result, ok, failed}
use quantum_database.Query.Rows.{Row, int}
use quantum_database.Access.Models.{User, new_user}
use quantum_database.Access.Login.{
  Account, LockoutConfig, granted, locked_out, authenticate, attempts,
}
use quantum_database.Access.Login.Lockout.{IsCounted, attempts-IsCounted, authenticate-locked_out}
use quantum_database.Access.RowSecurity.{RlsPolicy, filter_rows}
use quantum_database.Access.RowSecurity.Visibility.{may_see, filter_rows-may_see}
use quantum_database.Access.Attributes.{
  Operator, Operators, AbacPolicy, Context, eq, gt, allow, deny, all_of, evaluate_engine,
}
use quantum_database.Access.Attributes.Priority.{
  Change, add, remove, changes, Decides, evaluate_engine-changes,
}

abbrev clerk : User
clerk = record (new_user "u1" "clara") { roles = "clerk" ∷ [] }

abbrev rows : List (Row ℕ)
rows = (("id", int (pos 1)) ∷ []) ∷ (("id", int (pos 2)) ∷ []) ∷ []

-- A policy for the role "hr" alone
abbrev hr_policy : String → RlsPolicy ℕ
hr_policy kind = record {
  policy_id = "p";
  resource_id = "people";
  predicate = λ row user. true;
  applies_to = some ("hr" ∷ []);
  policy_type = kind;
}

filter_rows-may_see_example :
    filter_rows (hr_policy "permissive" ∷ []) clerk rows
    ≡ filter (may_see (hr_policy "permissive" ∷ []) clerk) rows
filter_rows-may_see_example = filter_rows-may_see (hr_policy "permissive" ∷ []) clerk rows refl

-- A permissive policy for another role shows a row to a clerk, whatever its predicate is.
unmeant_shown :
    filter_rows (record (hr_policy "permissive") { predicate = λ row user. false } ∷ []) clerk rows
    ≡ rows
unfolding filter_rows
unmeant_shown = refl

abbrev compare_numbers : Operator → ℕ → ℕ → Result Bool
compare_numbers eq m n = ok (nat_beq m n)
compare_numbers gt m n = ok (ltb n m)
compare_numbers _ m n = failed

instance abbrev number_operators : Operators ℕ
number_operators = record { apply = compare_numbers }

abbrev level_policy : AbacPolicy ℕ
level_policy = record {
  policy_id = "levels";
  effect = allow;
  combine = all_of;
  priority = pos 1;
  conditions = record { attribute = "level"; operator = gt; value = 3 } ∷ [];
}

abbrev banned_policy : AbacPolicy ℕ
banned_policy = record {
  policy_id = "banned";
  effect = deny;
  combine = all_of;
  priority = pos 9;
  conditions = record { attribute = "banned"; operator = eq; value = 1 } ∷ [];
}

abbrev user_context : Context ℕ
user_context = ("level", some 5) ∷ ("banned", some 1) ∷ []

abbrev set_up : List (Change ℕ)
set_up = add level_policy ∷ add banned_policy ∷ remove "old" ∷ []

denied : evaluate_engine user_context (changes set_up []) ≡ ok (some false)
unfolding evaluate_engine changes lookup
denied = refl

evaluate_engine-changes_example : Decides user_context false (changes set_up [])
evaluate_engine-changes_example = evaluate_engine-changes set_up user_context false denied

abbrev same_text : (password hash : String) → Bool
same_text password hash = password == hash

abbrev two_tries : LockoutConfig
two_tries = record { max_failed = 2; lockout_duration = 900 }

-- One attempt has failed.
abbrev clara : Account
clara = record { user = record clerk { failed_logins = 1 }; password_hash = some "secret" }

attempts-IsCounted_example :
    IsCounted two_tries
      (attempts same_text two_tries ((10, some "guess") ∷ (950, some "secret") ∷ []) clara)
attempts-IsCounted_example =
    attempts-IsCounted same_text two_tries ((10, some "guess") ∷ (950, some "secret") ∷ []) clara
      (omega arith) (omega arith)

authenticate-locked_out_example :
    authenticate same_text two_tries 600
      (some "secret")
      (authenticate same_text two_tries 10 (some "guess") clara).1
    ≡ (locked_out, (authenticate same_text two_tries 10 (some "guess") clara).1)
authenticate-locked_out_example =
    authenticate-locked_out same_text two_tries 10 600 "guess" "secret" (some "secret") clara refl
      refl refl (omega arith) (omega arith)

-- Without a password, the attempt is granted.
no_password : (authenticate same_text two_tries 10 none clara).0 ≡ granted
unfolding authenticate
no_password = refl
