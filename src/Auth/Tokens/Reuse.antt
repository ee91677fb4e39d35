-- ===== src/Auth/Tokens/Reuse.antt =====
-- apps/api/src/modules/auth/token.service.ts: what follows when a token is presented again.
use muzael.Common.{
  ℕ, ◌+◌, ◌≡◌, ◌≤◌, refl, sym, ap, ◌∙◌, subst, Bool, true, false, Option, none, some, arith, sum_by,
  ltb, ◌==◌, Bool-cases, inl, inr,
}
use muzael.Shared.Errors.{refresh_token_reused}
use muzael.Auth.Tokens.{
  RefreshToken, TokenStore, find_token, issue, revoke_where, revoke_family, consume, is_spent,
  renew, rotate_found, rotate, knows_family, Step, new_session, rotation, revocation,
  logout_everywhere, Steps, done, then_, is_active_account, refuse,
}
use muzael.Auth.Tokens.Live.{
  is_live, live, revoke-live, revoke-knows, revoke_family-live, consume-live, consume-knows,
  find_token-hash, found-knows, no_live-spent,
}

-- A call keeps what is known of a family, and no call adds a live token to a known one.
record Shrinks (family : ℕ) (s after : TokenStore) : Type 0 where
  known : knows_family family after ≡ true
  fewer : live family after ≤ live family s

same-Shrinks : (family : ℕ) (s : TokenStore) → knows_family family s ≡ true → Shrinks family s s
same-Shrinks family s k = record { known = k; fewer = omega arith }

revoke_where-Shrinks :
    (p : RefreshToken → Bool) (now family : ℕ) (s : TokenStore)
    → knows_family family s ≡ true
    → Shrinks family s (revoke_where p now s)
unfolding revoke_where
revoke_where-Shrinks p now family s k = record {
  known = revoke-knows p now family s.tokens ∙ k;
  fewer = revoke-live p now family s.tokens;
}

renew-Shrinks :
    (ttl_days now hash new_hash family : ℕ) (t : RefreshToken) (s : TokenStore)
    → find_token hash s.tokens ≡ some t
    → t.token_hash ≡ hash
    → is_spent t ≡ false
    → knows_family family s ≡ true
    → Shrinks family s (renew ttl_days now new_hash t s).store
unfolding renew issue
renew-Shrinks ttl_days now hash new_hash family t s f own h k =
    let consumed : sum_by (is_live family) (consume now t.token_hash s.tokens) + is_live family t
        ≡ live family s =
      ap (λ x. sum_by (is_live family) (consume now x s.tokens) + is_live family t) own
      ∙ consume-live now hash family t s.tokens f h in
    let kept = consume-knows now t.token_hash family s.tokens in
    record { known = ground (arith, kept); fewer = ground (arith, consumed) }

rotate_found-Shrinks :
    (ttl_days now hash new_hash family : ℕ) (s : TokenStore) (o : Option RefreshToken)
    → find_token hash s.tokens ≡ o
    → knows_family family s ≡ true
    → Shrinks family s (rotate_found ttl_days now new_hash s o).store
unfolding rotate_found
rotate_found-Shrinks ttl_days now hash new_hash family s none f k = same-Shrinks family s k
rotate_found-Shrinks ttl_days now hash new_hash family s (some t) f k =
    elim (Bool-cases (is_spent t)) [
      | inl spent ↦ rw spent (revoke_where-Shrinks (λ x. x.family_id == t.family_id) now family s k)
      | inr unspent ↦ elim (Bool-cases (ltb t.expires_at now)) [
        | inl late ↦ rw unspent (rw late (same-Shrinks family s k))
        | inr in_time ↦ elim (Bool-cases (is_active_account t.user_id s.accounts)) [
          | inl active ↦ rw unspent (
              rw in_time (
                rw active (
                  renew-Shrinks ttl_days now hash new_hash family t s f
                    (find_token-hash hash s.tokens t f) unspent k)))
          | inr inactive ↦ rw unspent (rw in_time (rw inactive (same-Shrinks family s k)))
        ]
      ]
    ]

Step-Shrinks :
    (ttl_days family : ℕ) (s after : TokenStore)
    → Step ttl_days s after
    → knows_family family s ≡ true
    → Shrinks family s after
unfolding rotate issue
Step-Shrinks ttl_days family s _ (new_session now hash user other s' fresh) k =
    elim (Bool-cases (other == family)) [
      | inl same ↦
          let is_family : other ≡ family = ground arith in
          let unknown : knows_family family s ≡ false =
            ap (λ x. knows_family x s) (sym is_family) ∙ fresh in
          absurd (ground arith)
      | inr differ ↦ record { known = ground (arith, k); fewer = ground arith }
    ]
Step-Shrinks ttl_days family s _ (rotation now hash new_hash s') k =
    rotate_found-Shrinks ttl_days now hash new_hash family s (find_token hash s.tokens) refl k
Step-Shrinks ttl_days family s _ (revocation now hash s') k =
    revoke_where-Shrinks (λ t. t.token_hash == hash) now family s k
Step-Shrinks ttl_days family s _ (logout_everywhere now user s') k =
    revoke_where-Shrinks (λ t. t.user_id == user) now family s k

Steps-Shrinks :
    (ttl_days family : ℕ) (s after : TokenStore)
    → Steps ttl_days s after
    → knows_family family s ≡ true
    → Shrinks family s after
Steps-Shrinks ttl_days family s _ (done s') k = same-Shrinks family s k
Steps-Shrinks ttl_days family s after (then_ s' t u step steps) k =
    let first = Step-Shrinks ttl_days family s t step k in
    let rest = Steps-Shrinks ttl_days family t after steps first.known in
    let less = first.fewer in
    let fewer = rest.fewer in record { known = rest.known; fewer = omega arith }

rotate-spent :
    (ttl_days now hash new_hash : ℕ) (s : TokenStore) (t : RefreshToken)
    → find_token hash s.tokens ≡ some t
    → is_spent t ≡ true
    → rotate ttl_days now hash new_hash s
      ≡ refuse refresh_token_reused (revoke_family now t.family_id s)
unfolding rotate rotate_found
rotate-spent ttl_days now hash new_hash s t f h = rw f (rw h refl)

-- Presenting a refresh token that was already consumed or revoked is refused, and whatever calls follow,
-- logins included, each later presentation of any token of its family is refused as well.
pub rotate-reused :
    (ttl_days now hash new_hash : ℕ) (s later : TokenStore) (t : RefreshToken)
    (then_now other_hash other_new : ℕ) (other : RefreshToken)
    → find_token hash s.tokens ≡ some t
    → is_spent t ≡ true
    → Steps ttl_days (rotate ttl_days now hash new_hash s).store later
    → find_token other_hash later.tokens ≡ some other
    → other.family_id ≡ t.family_id
    → ((rotate ttl_days now hash new_hash s).thrown ≡ some refresh_token_reused)
      × ((rotate ttl_days then_now other_hash other_new later).thrown ≡ some refresh_token_reused)
unfolding revoke_where
rotate-reused ttl_days now hash new_hash s later t then_now other_hash other_new other found spent
      steps found_other same =
    let refused = rotate-spent ttl_days now hash new_hash s t found spent in
    let after : TokenStore = revoke_family now t.family_id s in
    let store : (rotate ttl_days now hash new_hash s).store ≡ after = ap (λ r. r.store) refused in
    let from_after : Steps ttl_days after later = subst (λ x. Steps ttl_days x later) store steps in
    let none_left : live t.family_id after ≡ 0 = revoke_family-live now t.family_id s.tokens in
    let known : knows_family t.family_id after ≡ true =
      revoke-knows (λ x. x.family_id == t.family_id) now t.family_id s.tokens
      ∙ found-knows hash s.tokens t found in
    let shrinks = Steps-Shrinks ttl_days t.family_id after later from_after known in
    let fewer = shrinks.fewer in
    let still_none : live t.family_id later ≡ 0 = omega arith in
    let other_spent =
      no_live-spent other_hash t.family_id later.tokens other still_none found_other same in
    (
      ap (λ r. r.thrown) refused,
      ap (λ r. r.thrown)
          (rotate-spent ttl_days then_now other_hash other_new later other found_other other_spent),
    )
