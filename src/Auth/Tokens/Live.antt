-- ===== src/Auth/Tokens/Live.antt =====
-- apps/api/src/modules/auth/token.service.ts: counting the tokens of a family that can still be used.
use muzael.Common.{
  ℕ, ◌+◌, ◌≡◌, ◌≤◌, refl, sym, ap, ◌∙◌, subst, Bool, true, false, not, ◌&&◌, some, List, [], ◌∷◌,
  map, arith, any, sum_by, ◌==◌, if◌then◌else◌, Bool-cases, inl, inr,
}
use muzael.Auth.Tokens.{RefreshToken, TokenStore, find_token, revoke_row, consume, is_spent}

abbrev pub is_live : ℕ → RefreshToken → ℕ
is_live family t = if t.family_id == family && not (is_spent t) then 1 else 0

-- The tokens of the family that a rotation would not take for reuse.
abbrev pub live : ℕ → TokenStore → ℕ
live family s = sum_by (is_live family) s.tokens

pub revoke-live :
    (p : RefreshToken → Bool) (now family : ℕ) (ts : List RefreshToken)
    → sum_by (is_live family) (map (revoke_row p now) ts) ≤ sum_by (is_live family) ts
revoke-live p now family [] = omega arith
revoke-live p now family (t ∷ ts) = ground (arith, revoke-live p now family ts)

pub revoke-knows :
    (p : RefreshToken → Bool) (now family : ℕ) (ts : List RefreshToken)
    → any (λ t. t.family_id == family) (map (revoke_row p now) ts)
      ≡ any (λ t. t.family_id == family) ts
revoke-knows p now family [] = refl
revoke-knows p now family (t ∷ ts) = ground (arith, revoke-knows p now family ts)

pub revoke_family-live :
    (now family : ℕ) (ts : List RefreshToken)
    → sum_by (is_live family) (map (revoke_row (λ t. t.family_id == family) now) ts) ≡ 0
revoke_family-live now family [] = refl
revoke_family-live now family (t ∷ ts) = ground (arith, revoke_family-live now family ts)

pub consume-live :
    (now hash family : ℕ) (t : RefreshToken) (ts : List RefreshToken)
    → find_token hash ts ≡ some t
    → is_spent t ≡ false
    → sum_by (is_live family) (consume now hash ts) + is_live family t ≡ sum_by (is_live family) ts
unfolding find_token consume
consume-live now hash family t [] f h = cc
consume-live now hash family t (x ∷ xs) f h = elim (Bool-cases (x.token_hash == hash)) [
  | inl here ↦
      let is_some : some x ≡ some t = ground arith in
      let is_t : x ≡ t = cc in
      let unspent : is_spent x ≡ false = ap is_spent is_t ∙ h in
      subst
        (λ y.
          sum_by (is_live family) (consume now hash (x ∷ xs)) + is_live family y
          ≡ sum_by (is_live family) (x ∷ xs))
        is_t (ground arith)
  | inr elsewhere ↦ ground (arith, consume-live now hash family t xs)
]

pub consume-knows :
    (now hash family : ℕ) (ts : List RefreshToken)
    → any (λ t. t.family_id == family) (consume now hash ts) ≡ any (λ t. t.family_id == family) ts
unfolding consume
consume-knows now hash family [] = refl
consume-knows now hash family (t ∷ ts) = ground (arith, consume-knows now hash family ts)

pub find_token-hash :
    (hash : ℕ) (ts : List RefreshToken) (t : RefreshToken)
    → find_token hash ts ≡ some t
    → t.token_hash ≡ hash
unfolding find_token
find_token-hash hash [] t h = cc
find_token-hash hash (x ∷ xs) t h = ground (arith, find_token-hash hash xs t)

pub found-knows :
    (hash : ℕ) (ts : List RefreshToken) (t : RefreshToken)
    → find_token hash ts ≡ some t
    → any (λ x. x.family_id == t.family_id) ts ≡ true
unfolding find_token
found-knows hash [] t h = cc
found-knows hash (x ∷ xs) t h = ground (arith, found-knows hash xs t)

pub no_live-spent :
    (hash family : ℕ) (ts : List RefreshToken) (t : RefreshToken)
    → sum_by (is_live family) ts ≡ 0
    → find_token hash ts ≡ some t
    → t.family_id ≡ family
    → is_spent t ≡ true
unfolding find_token
no_live-spent hash family [] t n h f = cc
no_live-spent hash family (x ∷ xs) t n h f = elim (Bool-cases (x.token_hash == hash)) [
  | inl here ↦
      let is_some : some x ≡ some t = ground arith in
      let is_t : x ≡ t = cc in
      let own : x.family_id ≡ family = ap (λ y. y.family_id) is_t ∙ f in
      let spent : is_spent x ≡ true = ground arith in ap is_spent (sym is_t) ∙ spent
  | inr elsewhere ↦
      let rest : sum_by (is_live family) xs ≡ 0 = omega arith in
      no_live-spent hash family xs t rest (ground arith) f
]
