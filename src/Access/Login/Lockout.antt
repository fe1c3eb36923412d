-- ===== src/Access/Login/Lockout.antt =====
-- Wrong passwords lock an account.
use quantum_database.Prelude.{
  ℕ, zero, suc, ◌+◌, ◌≤◌, ◌<◌, ◌≡◌, refl, sym, ap, subst, String, Bool, true, false, Option, some,
  List, [], ◌∷◌, if_ind, leb, arith,
}
use quantum_database.Access.Models.{
  User, LockoutStatus, active, locked, disabled, is_over, is_locked_as, is_locked, record_login,
}
use quantum_database.Access.Login.{
  Account, LockoutConfig, Answer, rejected, locked_out, maybe_lock, authenticate, attempts,
  bad_password,
}

-- An account that is active has fewer failed logins than the limit.
abbrev CountedAs : LockoutStatus → (max failed : ℕ) → Type 0
CountedAs active max failed = failed < max
CountedAs _ max failed = Unit

abbrev pub IsCounted : LockoutConfig → Account → Type 0
IsCounted c a = CountedAs a.user.status c.max_failed a.user.failed_logins

leb-true : (m n : ℕ) → m ≤ n → leb m n ≡ true
leb-true m n h = ground (arith, h)

is_over-false : (later n : ℕ) → later ≤ n → is_over later (some n) ≡ false
is_over-false later zero h = refl
is_over-false later (suc n) h = ground (arith, h)

-- After the question whether it is locked, an account is still counted, and active if it is not locked.
abbrev Asked : LockoutConfig → User × Bool → Type 0
Asked c (u, is_out) =
    CountedAs u.status c.max_failed u.failed_logins × (is_out ≡ false → u.status ≡ active)

is_locked_as-Asked :
    (c : LockoutConfig) (now : ℕ) (u : User) (st : LockoutStatus)
    → 1 ≤ c.max_failed
    → u.status ≡ st
    → CountedAs u.status c.max_failed u.failed_logins
    → Asked c (is_locked_as st now u)
is_locked_as-Asked c now u active pos e v = (v, λ _. e)
is_locked_as-Asked c now u disabled pos e v = (v, λ h. absurd (cc))
is_locked_as-Asked c now u locked pos e v =
    if_ind (Asked c) (is_over now u.lockout_until) (λ _. (pos, λ _. refl))
      (λ _. (v, λ h. absurd (cc)))

maybe_lock-CountedAs :
    (c : LockoutConfig) (now : ℕ) (u : User)
    → u.status ≡ active
    → CountedAs (maybe_lock c now u).status c.max_failed (maybe_lock c now u).failed_logins
unfolding maybe_lock
maybe_lock-CountedAs c now u s =
    if_ind {A = User} (λ w. CountedAs w.status c.max_failed w.failed_logins)
      (leb c.max_failed u.failed_logins) (λ _. tt) (λ h. rw s (ground (arith, h)))

module _ (verify : (password hash : String) → Bool) (c : LockoutConfig) where
  authenticate-IsCounted :
      (now : ℕ) (password : Option String) (a : Account)
      → 1 ≤ c.max_failed
      → IsCounted c a
      → IsCounted c (authenticate verify c now password a).1
  unfolding authenticate record_login is_locked
  authenticate-IsCounted now password a pos v =
      let r = is_locked now a.user in
      let (k, act) = is_locked_as-Asked c now a.user a.user.status pos refl v in
      if_ind {A = Answer × Account} (λ x. IsCounted c x.1) r.1 (λ _. k)
        λ free.
          if_ind {A = Answer × Account} (λ x. IsCounted c x.1)
            (bad_password verify password a.password_hash)
            (λ _. maybe_lock-CountedAs c now (record_login false now r.0) (act free)) (λ _. pos)

  -- Whatever is attempted at an account that is counted, and whenever, it stays counted: an active account
  -- has fewer failed logins than the limit.
  pub attempts-IsCounted :
      (tries : List (ℕ × Option String)) (a : Account)
      → 1 ≤ c.max_failed
      → IsCounted c a
      → IsCounted c (attempts verify c tries a)
  unfolding attempts
  attempts-IsCounted [] a pos v = v
  attempts-IsCounted ((now, password) ∷ more) a pos v =
      attempts-IsCounted more (authenticate verify c now password a).1 pos
        (authenticate-IsCounted now password a pos v)

  abbrev locked_until : ℕ → Account → Account
  locked_until n a = record a {
    user = record (a.user) {
      status = locked;
      lockout_until = some n;
      failed_logins = a.user.failed_logins + 1;
    };
  }

  authenticate-wrong :
      (now : ℕ) (wrong hash : String) (a : Account)
      → a.user.status ≡ active
      → a.password_hash ≡ some hash
      → verify wrong hash ≡ false
      → c.max_failed ≤ suc a.user.failed_logins
      → authenticate verify c now (some wrong) a
        ≡ (rejected, locked_until (now + c.lockout_duration) a)
  unfolding authenticate is_locked record_login maybe_lock
  authenticate-wrong now wrong hash a s p w m =
      rw (s, p, w, leb-true c.max_failed (a.user.failed_logins + 1) (omega (arith, m))) refl

  authenticate-while_locked :
      (later n : ℕ) (other : Option String) (a : Account)
      → later ≤ n
      → authenticate verify c later other (locked_until n a) ≡ (locked_out, locked_until n a)
  unfolding authenticate is_locked
  authenticate-while_locked later n other a t = rw (is_over-false later n t) refl

  -- A wrong password that reaches the limit locks the account: until the lockout is over, every attempt,
  -- with whatever password, is answered by the exception, and changes nothing.
  pub authenticate-locked_out :
      (now later : ℕ) (wrong hash : String) (other : Option String) (a : Account)
      → a.user.status ≡ active
      → a.password_hash ≡ some hash
      → verify wrong hash ≡ false
      → c.max_failed ≤ suc a.user.failed_logins
      → later ≤ now + c.lockout_duration
      → let b = (authenticate verify c now (some wrong) a).1 in
        authenticate verify c later other b ≡ (locked_out, b)
  authenticate-locked_out now later wrong hash other a s p w m t =
      subst (λ b. authenticate verify c later other b ≡ (locked_out, b))
        (sym (ap (λ x. x.1) (authenticate-wrong now wrong hash a s p w m)))
        (authenticate-while_locked later (now + c.lockout_duration) other a t)
