-- ===== src/Accounts/Binds.antt =====
-- What a registration leaves of the account that it hands out.
use netsystem.Base.{
  ℕ, ◌≤◌, ◌≡◌, ap, ◌∙◌, inl, inr, Bool, true, false, ◌||◌, Option, none, some, List, length,
  take_all, leb, ◌==◌, if_cases, arith, some_eq,
}
use netsystem.Accounts.{online, AccountList, account}
use netsystem.Accounts.Sound.{IsSound, InUse}
use netsystem.Accounts.Manager.{
  RegResult, invalid_uid, bind_uid_overflow, Login, Registered, register,
}
use netsystem.Accounts.Logins.{register-Good}

module _ (city_hash64 : List ℕ → ℕ) where
  -- a registration that hands out an account was given a short uid
  short_uid :
      (login : Login) (now : ℕ) (l : AccountList) {result : RegResult} {i : ℕ} {l' : AccountList}
      → register city_hash64 login now l ≡ some (result, some i, l')
      → length login.uid ≤ 35
  unfolding register
  short_uid login now l {result} {i} {l'} e =
      elim (if_cases (0 == length login.uid) (some (invalid_uid, none, l)) _ e) [
        | inl (_, is) ↦ absurd (no_account (ap pointer (some_eq is)))
        | inr (_, e1) ↦
            elim (if_cases
              (leb 36 (length login.uid) || leb 36 (length login.nick) || leb 40 (length login.pwd))
              (some (bind_uid_overflow, none, l)) _ e1) [
                | inl (_, is) ↦ absurd (no_account (ap pointer (some_eq is)))
                | inr (fits, _) ↦ first_false (length login.uid) _ _ fits
              ]
      ]
    where
      pointer : Registered → Option ℕ
      pointer (result, o, l) = o

      no_account : ◌≡◌ {A = Option ℕ} none (some i) → ⊥
      no_account e = cc

      first_false : (n : ℕ) (a b : Bool) → (leb 36 n || a || b) ≡ false → n ≤ 35
      first_false n a b e = ground arith

  -- In a sound state, a registration that hands out an account leaves it in use and ready, online since
  -- now, with the uid, the connection id and the inner uuid that were given.
  pub register_binds :
      (login : Login) (now : ℕ) (l : AccountList) {result : RegResult} {i : ℕ} {l' : AccountList}
      → register city_hash64 login now l ≡ some (result, some i, l')
      → IsSound l
      → InUse i l'
        × ((account i l').is_ready ≡ true)
        × ((account i l').onoff ≡ online)
        × ((account i l').onoff_time ≡ now)
        × ((account i l').uid ≡ login.uid)
        × ((account i l').connid ≡ login.connid)
        × ((account i l').inner_uuid ≡ login.inner_uuid)
  register_binds login now l e s =
      let (_, bound) = register-Good city_hash64 login now l e s in
      let (used, ready, on, time, uid, conn, inner) = bound in
      (used, ready, on, time, uid ∙ take_all 35 login.uid (short_uid login now l e), conn, inner)
