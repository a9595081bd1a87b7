-- ===== src/Approval/Ownership.antt =====
-- Who may resolve and list approvals.
use angavu_intelligence_back.Common.{
  ◌≡◌, ◌⊎◌, refl, Bool, true, false, Option, none, some, List, [], ◌∷◌, String, str_eq, str_eq_iff,
  All, Bool-cases, inl, inr, ltb, arith, ◌∙◌, sym, subst, ap,
}
use angavu_intelligence_back.Approval.{
  Claims, ResolveApprovalRequest, PendingApproval, Resolution, resolved, listed,
}
use angavu_intelligence_back.Approval.Redis.{Redis, Stored, json, corrupt}
use angavu_intelligence_back.Approval.Handlers.{
  Moment, as_secs, is_admin, permitted, Gateway, settle, decide, resolve_approval, keep_own,
  collect, list_pending,
}

permitted-owner :
    (c : Claims) (owner : String)
    → permitted (some c) owner ≡ true
    → (c.org_id ≡ owner) ⊎ (is_admin c ≡ true)
permitted-owner c owner h = elim (Bool-cases (str_eq c.org_id owner)) [
  | inl e ↦ inl ((str_eq_iff c.org_id owner).0 e)
  | inr e ↦ inr (ground arith)
]

module _ (redis : Redis) where
  settle-owner :
      (now : Moment) (ip : Option String) (cs : Option Claims) (req : ResolveApprovalRequest)
      (g : Gateway redis) (pending : PendingApproval) (id : String) (r : Resolution)
      → (settle redis now ip cs req pending g).1 ≡ resolved id r
      → (permitted cs pending.user_id ≡ true) × (ltb pending.expires_at (as_secs now) ≡ false)
  unfolding settle
  settle-owner now ip cs req g pending id r done = ground arith

  -- A valid request for a stored approval.
  pub resolve-settle :
      (validate : ResolveApprovalRequest → Bool) (now : Moment) (ip : Option String)
      (cs : Option Claims) (req : ResolveApprovalRequest) (g : Gateway redis)
      (pending : PendingApproval)
      → validate req ≡ true
      → redis.get now.redis req.confirmation_id g.store ≡ some (json pending)
      → resolve_approval redis validate now ip cs req g ≡ settle redis now ip cs req pending g
  unfolding resolve_approval decide
  resolve-settle validate now ip cs req g pending valid found = rw (valid, found) refl

  resolve-valid :
      (validate : ResolveApprovalRequest → Bool) (now : Moment) (ip : Option String)
      (cs : Option Claims) (req : ResolveApprovalRequest) (g : Gateway redis) (id : String)
      (r : Resolution)
      → (resolve_approval redis validate now ip cs req g).1 ≡ resolved id r
      → validate req ≡ true
  unfolding resolve_approval
  resolve-valid validate now ip cs req g id r done = ground arith

  -- An approval is resolved for a caller with claims only if the caller owns the stored approval or
  -- is an administrator, the request is valid, and the approval has not expired by the whole seconds of
  -- the server's clock.
  pub resolve-owner :
      (validate : ResolveApprovalRequest → Bool) (now : Moment) (ip : Option String) (c : Claims)
      (req : ResolveApprovalRequest) (g : Gateway redis) (pending : PendingApproval) (id : String)
      (r : Resolution)
      → redis.get now.redis req.confirmation_id g.store ≡ some (json pending)
      → (resolve_approval redis validate now ip (some c) req g).1 ≡ resolved id r
      → ((c.org_id ≡ pending.user_id) ⊎ (is_admin c ≡ true))
        × (validate req ≡ true)
        × (ltb pending.expires_at (as_secs now) ≡ false)
  resolve-owner validate now ip c req g pending id r found done =
      let valid = resolve-valid validate now ip (some c) req g id r done in
      let same = resolve-settle validate now ip (some c) req g pending valid found in
      let (allowed, live) =
        settle-owner now ip (some c) req g pending id r (sym (ap (λ x. x.1) same) ∙ done) in
      (permitted-owner c pending.user_id allowed, valid, live)

  -- Without claims no ownership is checked: for a stored approval, the request is answered as for
  -- the owner's own claims.
  pub resolve_anonymous :
      (validate : ResolveApprovalRequest → Bool) (now : Moment) (ip : Option String)
      (req : ResolveApprovalRequest) (g : Gateway redis) (pending : PendingApproval)
      (owner : Claims)
      → redis.get now.redis req.confirmation_id g.store ≡ some (json pending)
      → owner.org_id ≡ pending.user_id
      → resolve_approval redis validate now ip none req g
        ≡ resolve_approval redis validate now ip (some owner) req g
  unfolding resolve_approval decide settle
  resolve_anonymous validate now ip req g pending owner found own =
      let same = (str_eq_iff owner.org_id pending.user_id).1 own in
      elim (Bool-cases (validate req)) [ inl v ↦ rw (v, found, same) refl | inr v ↦ rw v refl ]

  keep-own :
      (user_id : String) (found : Option Stored) (rest : List PendingApproval)
      → All (λ p. p.user_id ≡ user_id) rest
      → All (λ p. p.user_id ≡ user_id) (keep_own redis user_id found rest)
  unfolding keep_own
  keep-own user_id none rest all = all
  keep-own user_id (some corrupt) rest all = all
  keep-own user_id (some (json p)) rest all = elim (Bool-cases (str_eq p.user_id user_id)) [
    | inl e ↦ rw e ((str_eq_iff p.user_id user_id).0 e, all)
    | inr e ↦ rw e all
  ]

  collect-own :
      (now : Moment) (user_id : String) (keys : List String) (g : Gateway redis)
      → All (λ p. p.user_id ≡ user_id) (collect redis now user_id keys g)
  unfolding collect
  collect-own now user_id [] g = tt
  collect-own now user_id (key ∷ keys) g =
      keep-own user_id (redis.get now.redis key g.store) (collect redis now user_id keys g)
        (collect-own now user_id keys g)

  -- A list of pending approvals is given only to the user whom it is about or to an administrator,
  -- and holds approvals of that user only.
  pub list_pending-own :
      (now : Moment) (user_id : String) (c : Claims) (g : Gateway redis) (ps : List PendingApproval)
      → list_pending redis now user_id (some c) g ≡ listed ps
      → ((c.org_id ≡ user_id) ⊎ (is_admin c ≡ true)) × All (λ p. p.user_id ≡ user_id) ps
  unfolding list_pending
  list_pending-own now user_id c g ps h = elim (Bool-cases (permitted (some c) user_id)) [
    | inl e ↦ (
      permitted-owner c user_id e,
      subst (All (λ p. p.user_id ≡ user_id)) (ground arith)
          (collect-own now user_id (redis.scan now.redis g.store) g),
    )
    | inr e ↦ ground arith
  ]
