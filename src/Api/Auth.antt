-- ===== src/Api/Auth.antt =====
-- adminAuthMiddleware of internal/lb/admin.go: who may call the admin API.
use go_load_balancer.Prelude.{
  ◌≡◌, ◌↔◌, ◌⊎◌, inl, inr, refl, ap, sym, ◌∙◌, true, false, [], ◌∷◌, ◌++◌, arith, Bool-cases,
  length,
}
use go_load_balancer.Text.{
  Str, str, eqs, eqs_iff, eqs_refl, is_empty, has_prefix, trim_prefix, has_prefix-append,
  has_prefix-split, drop-append,
}
use go_load_balancer.Config.{Config}
use go_load_balancer.Api.{authorized}

is_empty_iff : (s : Str) → (is_empty s ≡ true) ↔ (s ≡ [])
unfolding is_empty
is_empty_iff [] = (λ e. refl, λ e. refl)
is_empty_iff (c ∷ s) = (λ e. absurd (cc e), λ e. absurd (cc e))

trim_prefix-bearer : (token : Str) → trim_prefix (str "Bearer " ++ token) (str "Bearer ") ≡ token
unfolding trim_prefix
trim_prefix-bearer token =
    rw (has_prefix-append (str "Bearer ") token) (drop-append (str "Bearer ") token)

bearer_cases :
    (a : Str)
    → (trim_prefix a (str "Bearer ") ≡ a) ⊎ (a ≡ str "Bearer " ++ trim_prefix a (str "Bearer "))
unfolding trim_prefix
bearer_cases a = elim (Bool-cases (has_prefix a (str "Bearer "))) [
  | inl starts ↦ inr (
      has_prefix-split a (str "Bearer ") starts
      ∙ ap (λ s. str "Bearer " ++ s) (sym (rw starts refl)))
  | inr other ↦ inl (rw other refl)
]

token_not_bearer : (token : Str) → eqs token (str "Bearer " ++ token) ≡ false
token_not_bearer token = elim (Bool-cases (eqs token (str "Bearer " ++ token))) [
  | inl same ↦
      let longer = ap length ((eqs_iff token (str "Bearer " ++ token)).0 same) in
      absurd (omega (arith, longer))
  | inr other ↦ other
]

module _ (cfg : Config) (header : Str → Str) where
  authorized_only :
      authorized cfg header ≡ true
      → (cfg.admin_token ≡ []) ⊎ (header (str "Authorization") ≡ str "Bearer " ++ cfg.admin_token)
  unfolding authorized
  authorized_only h =
      let a = header (str "Authorization") in
      elim (Bool-cases (is_empty cfg.admin_token)) [
        | inl open_to_all ↦ inl ((is_empty_iff cfg.admin_token).0 open_to_all)
        | inr token ↦ elim (bearer_cases a) [
          | inl same ↦
              absurd (ground (arith, h, token, (eqs_iff (trim_prefix a (str "Bearer ")) a).1 same))
          | inr split ↦ inr (
              split
              ∙ ap (λ s. str "Bearer " ++ s)
                  ((eqs_iff (trim_prefix a (str "Bearer ")) cfg.admin_token).0
                    (ground (arith, h, token))))
        ]
      ]

  authorized_when :
      (cfg.admin_token ≡ []) ⊎ (header (str "Authorization") ≡ str "Bearer " ++ cfg.admin_token)
      → authorized cfg header ≡ true
  unfolding authorized is_empty
  authorized_when (inl none_set) = rw (none_set) refl
  authorized_when (inr bearer) =
      rw
        (
          bearer,
          trim_prefix-bearer cfg.admin_token,
          token_not_bearer cfg.admin_token,
          eqs_refl cfg.admin_token,
        )
        (ground arith)

-- A call goes on to its handler exactly if the configuration has no token, or the header is
-- "Bearer " and the token.
pub authorized_lem :
    (cfg : Config) (header : Str → Str)
    → (authorized cfg header ≡ true)
      ↔ ((cfg.admin_token ≡ []) ⊎ (header (str "Authorization") ≡ str "Bearer " ++ cfg.admin_token))
authorized_lem cfg header = (authorized_only cfg header, authorized_when cfg header)
