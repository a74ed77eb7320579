-- ===== src/Auth/Rotation.antt =====
-- Refresh tokens serve once, and not at all after the sessions of the account are ended.
use hoyhel.Prelude.{
  ℕ, ◌≡◌, refl, ap, ◌∙◌, inl, inr, true, false, List, [], ◌∷◌, ◌++◌, some, ◌==◌, ltb, if◌then◌else◌,
  ==_refl, find_first, exists_row-true, update_many, find_first-update_where,
  find_first-append_some, Option-cases, arith,
}
use hoyhel.Schema.{Store, Env, User, RefreshToken}
use hoyhel.Service.{AppError, ok, err}
use hoyhel.Password.{Crypto}
use hoyhel.Bookings.{user_is}
use hoyhel.Moderation.{token_of, revoke, end_sessions}
use hoyhel.Auth.{
  has_token, token_row_is, create_refresh_token, new_refresh_token, refresh_tokens, logout_all,
}

-- A token whose row is revoked is refused, whenever it is presented, and nothing changes.
pub refresh_revoked :
    (c : Crypto) (env : Env) (token : ℕ) (s : Store) (t : RefreshToken)
    → find_first (has_token token) s.refresh_tokens ≡ some t
    → t.is_revoked ≡ true
    → (x : AppError) × (refresh_tokens c env token s ≡ (err x, s))
unfolding refresh_tokens
refresh_revoked c env token s t found revoked =
    elim (Option-cases (c.verify_refresh token env.now)) [
      | inl bad ↦ (AppError.auth "Invalid or expired refresh token", ground arith)
      | inr (u, good) ↦ (AppError.auth "Refresh token revoked or expired", ground arith)
    ]

-- The row of a token after it is marked and another row is added.
marked_row :
    (token : ℕ) (ts : List RefreshToken) (t new : RefreshToken)
    → find_first (has_token token) ts ≡ some t
    → find_first (has_token token) (update_many (token_row_is t.id) revoke ts ++ new ∷ [])
      ≡ some (revoke t)
marked_row token ts t new found =
    find_first-append_some (has_token token) (update_many (token_row_is t.id) revoke ts) (new ∷ [])
      (revoke t)
      (find_first-update_where (has_token token) (token_row_is t.id) revoke ts t (λ _. refl) found
        ∙ ap (λ b. some (if b then revoke t else t)) (==_refl t.id))

-- What a refresh that succeeds has done to the row of the token.
refresh_marks :
    (c : Crypto) (env : Env) (token : ℕ) (s : Store) (r : ℕ × ℕ)
    → (refresh_tokens c env token s).0 ≡ ok r
    → (t : RefreshToken) × (find_first
          (has_token token)
          (refresh_tokens c env token s).1.refresh_tokens
        ≡ some t)
      × (t.is_revoked ≡ true)
unfolding refresh_tokens create_refresh_token
refresh_marks c env token s r e = elim (Option-cases (c.verify_refresh token env.now)) [
  | inl bad ↦ absurd (ground arith)
  | inr (d, good) ↦ elim (Option-cases (find_first (has_token token) s.refresh_tokens)) [
    | inl missing ↦ absurd (ground arith)
    | inr (t, found) ↦ elim (Option-cases (find_first (user_is t.user_id) s.users)) [
      | inl stranger ↦ absurd (ground arith)
      | inr (u, known) ↦
          let kept =
            marked_row token s.refresh_tokens t
              (new_refresh_token env (env.uuid 3) u.id (c.sign_refresh u.id env.now)) found in
          (revoke t, ground arith, refl)
    ]
  ]
]

-- A refresh token serves once: after a refresh that succeeded, the same token is refused at any later
-- request, and that request changes nothing.
pub refresh_once :
    (c : Crypto) (env later : Env) (token : ℕ) (s : Store) (r : ℕ × ℕ)
    → (refresh_tokens c env token s).0 ≡ ok r
    → (x : AppError) × (refresh_tokens c later token (refresh_tokens c env token s).1
        ≡ (err x, (refresh_tokens c env token s).1))
refresh_once c env later token s r e =
    let (t, found, revoked) = refresh_marks c env token s r e in
    refresh_revoked c later token (refresh_tokens c env token s).1 t found revoked

-- Two signatures of one user within a second agree: when the token presented is the one that would be
-- issued, it is marked and no token is given, since the unique column refuses the new row.
pub refresh_collides :
    (c : Crypto) (env : Env) (token d : ℕ) (s : Store) (t : RefreshToken) (u : User)
    → c.verify_refresh token env.now ≡ some d
    → find_first (has_token token) s.refresh_tokens ≡ some t
    → t.is_revoked ≡ false
    → ltb t.expires_at env.now ≡ false
    → find_first (user_is t.user_id) s.users ≡ some u
    → u.is_active ≡ true
    → u.is_suspended ≡ false
    → c.sign_refresh u.id env.now ≡ token
    → refresh_tokens c env token s ≡ (
      err AppError.unique_violation,
      record s { refresh_tokens = update_many (token_row_is t.id) revoke s.refresh_tokens },
    )
unfolding refresh_tokens create_refresh_token
refresh_collides c env token d s t u good found live fresh known active free same =
    let marked =
      find_first-update_where (has_token token) (token_row_is t.id) revoke s.refresh_tokens t
        (λ _. refl) found in
    let taken =
      exists_row-true (has_token token) (update_many (token_row_is t.id) revoke s.refresh_tokens)
        (if token_row_is t.id t then revoke t else t) marked in
    ground arith

-- The tokens of an account are refused once its sessions are ended, as logging out everywhere, a
-- restriction and a new password end them.
pub ended_refused :
    (c : Crypto) (env : Env) (token user_id : ℕ) (s : Store) (t : RefreshToken)
    → find_first (has_token token) s.refresh_tokens ≡ some t
    → t.user_id ≡ user_id
    → (x : AppError) × (refresh_tokens c env token (logout_all user_id s)
        ≡ (err x, logout_all user_id s))
unfolding logout_all
ended_refused c env token user_id s t found owned =
    refresh_revoked c env token (end_sessions user_id s) (revoke t)
      (find_first-update_where (has_token token) (token_of user_id) revoke s.refresh_tokens t
          (λ _. refl) found
        ∙ ap (λ b. some (if b then revoke t else t))
            (ap (λ n. n == user_id) owned ∙ ==_refl user_id))
      refl
