-- ===== src/Auth/Renew/Tests.antt =====
-- Tests of `refresh` in crates/application/src/auth.rs, and its theorems at concrete inputs.
use kokkeak_api.Auth.Sample.{service, fresh, out_of_alice, Open, is_open, close, claims_of}
use kokkeak_api.Auth.Types.{ok, Claims, refresh, SessionInfo, err, invalid_token, CreateSession}
use kokkeak_api.Prelude.{
  refl, ◌≡◌, Option, none, false, inl, inr, [], ◌∷◌, String, ℕ, Bool-cases, ◌≢◌, str_eq, true,
  eq_iff, sym, ◌∙◌, arith,
}
use kokkeak_api.Auth.Renew.{
  renew, continue, check_session, refresh_session, refresh_found, refresh_user, rotate, finish,
}
use kokkeak_api.Auth.Renew.Laws.{Refreshed, renew-eq-ok}
use kokkeak_api.Auth.Renew.Once.{renew_once}
use kokkeak_api.Auth.{issue_pair, issue_second, bearer}
use kokkeak_api.User.{can_authenticate}
use kokkeak_api.RateLimit.{with_params}

renewed : (renew service "old" fresh).0 ≡ ok out_of_alice
unfolding renew continue check_session refresh_session refresh_found refresh_user rotate finish
    issue_pair issue_second bearer can_authenticate with_params
renewed = refl

renew-eq-ok_example :
    (claims : Claims) × (service.jwt.verify "old" ≡ ok claims)
    × (claims.kind ≡ refresh)
    × (o : Option SessionInfo) × (service.sessions.get claims.sub claims.jti fresh.sessions ≡ ok o)
    × Refreshed service claims o fresh out_of_alice (renew service "old" fresh).1
renew-eq-ok_example = renew-eq-ok service "old" fresh out_of_alice renewed

is_open-close : (jti : String) (t : Open) → is_open jti (close jti t) ≡ false
is_open-close jti [] = refl
is_open-close jti (j ∷ t) = elim (Bool-cases (str_eq jti j)) [
  | inl e ↦ rw e (is_open-close jti t)
  | inr e ↦ rw (e, e, is_open-close jti t)
]

renew_once_example :
    let st' = (renew service "old" fresh).1 in
    ((renew service "old" st').0 ≡ err (invalid_token "session revoked"))
    × ((renew service "old" st').1.sessions ≡ st'.sessions)
    × ((renew service "old" st').1.issuer ≡ st'.issuer)
renew_once_example =
    renew_once service "old" (claims_of "old") fresh out_of_alice forgets disturbs_none
      (λ id roles scope j p h. differ p h) refl refl renewed
  where
    differ : (p : String × String) → ok ("new", "new") ≡ ok p → p.1 ≢ "old"
    differ p h e =
        let same : p.1 ≡ "new" = cc in
        let read : str_eq "new" "old" ≡ true = (eq_iff "new" "old").1 (sym same ∙ e) in ground arith

    forgets :
        (id : ℕ) (jti : String) (t : Open)
        → (service.sessions.revoke id jti t).0 ≡ ok tt
        → service.sessions.get id jti (service.sessions.revoke id jti t).1 ≡ ok none
    forgets id jti t _ = rw is_open-close

    disturbs_none :
        (id : ℕ) (jti : String) (c : CreateSession) (t : Open)
        → c.jti ≢ jti
        → service.sessions.get id jti (service.sessions.create c t).1
          ≡ service.sessions.get id jti t
    disturbs_none id jti c t h = ground (arith, eq_iff jti c.jti)
