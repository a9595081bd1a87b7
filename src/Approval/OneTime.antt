-- ===== src/Approval/OneTime.antt =====
-- An approval is used once, by requests that run one after the other.
use angavu_intelligence_back.Common.{
  ap, sym, ◌∙◌, ◌≤◌, ◌≡◌, refl, Bool, true, Option, none, some, String, Bool-cases, inl, inr, arith,
}
use angavu_intelligence_back.Approval.{
  Claims, ResolveApprovalRequest, PendingApproval, Resolution, resolved, not_found,
}
use angavu_intelligence_back.Approval.Redis.{Redis, Stored, json, corrupt}
use angavu_intelligence_back.Approval.Handlers.{
  Moment, as_secs, permitted, Gateway, verdict, settle, decide, resolve_approval,
}

module _ (redis : Redis) where
  settle-store :
      (now : Moment) (ip : Option String) (cs : Option Claims) (req : ResolveApprovalRequest)
      (pending : PendingApproval) (g : Gateway redis) (id : String) (r : Resolution)
      → (settle redis now ip cs req pending g).1 ≡ resolved id r
      → (settle redis now ip cs req pending g).0.store ≡ redis.del req.confirmation_id g.store
  unfolding settle
  settle-store now ip cs req pending g id r done = ground arith

  decide-store :
      (now : Moment) (ip : Option String) (cs : Option Claims) (req : ResolveApprovalRequest)
      (found : Option Stored) (g : Gateway redis) (id : String) (r : Resolution)
      → (decide redis now ip cs req found g).1 ≡ resolved id r
      → (decide redis now ip cs req found g).0.store ≡ redis.del req.confirmation_id g.store
  unfolding decide
  decide-store now ip cs req none g id r done = ground arith
  decide-store now ip cs req (some corrupt) g id r done = ground arith
  decide-store now ip cs req (some (json p)) g id r done = settle-store now ip cs req p g id r done

module _ (redis : Redis) (validate : ResolveApprovalRequest → Bool) where
  resolved-store :
      (now : Moment) (ip : Option String) (cs : Option Claims) (req : ResolveApprovalRequest)
      (g : Gateway redis) (id : String) (r : Resolution)
      → (resolve_approval redis validate now ip cs req g).1 ≡ resolved id r
      → (resolve_approval redis validate now ip cs req g).0.store
        ≡ redis.del req.confirmation_id g.store
  unfolding resolve_approval
  resolved-store now ip cs req g id r done =
      let valid_lem : validate req ≡ true
          → resolve_approval redis validate now ip cs req g
            ≡ decide redis now ip cs req (redis.get now.redis req.confirmation_id g.store) g =
        λ v. rw v refl in
      elim (Bool-cases (validate req)) [
        | inl v ↦
            ap (λ x. x.0.store) (valid_lem v)
            ∙ decide-store redis now ip cs req (redis.get now.redis req.confirmation_id g.store) g
                id r (sym (ap (λ x. x.1) (valid_lem v)) ∙ done)
        | inr v ↦ ground arith
      ]

  not_found_lem :
      (later : Moment) (ip : Option String) (cs : Option Claims) (req : ResolveApprovalRequest)
      (g : Gateway redis)
      → validate req ≡ true
      → redis.get later.redis req.confirmation_id g.store ≡ none
      → resolve_approval redis validate later ip cs req g ≡ (g, not_found req.confirmation_id)
  unfolding resolve_approval decide
  not_found_lem later ip cs req g valid gone = rw (valid, gone) refl

  -- Once a request has resolved an approval, a later request for it, valid and from whomever, finds
  -- no approval, and leaves the state as it is.
  pub resolve_twice :
      (now later : Moment) (ip ip' : Option String) (cs cs' : Option Claims)
      (req req' : ResolveApprovalRequest) (g : Gateway redis) (id : String) (r : Resolution)
      → (resolve_approval redis validate now ip cs req g).1 ≡ resolved id r
      → req'.confirmation_id ≡ req.confirmation_id
      → validate req' ≡ true
      → let g' = (resolve_approval redis validate now ip cs req g).0 in
        resolve_approval redis validate later ip' cs' req' g' ≡ (g', not_found req'.confirmation_id)
  resolve_twice now later ip ip' cs cs' req req' g id r done same valid =
      let g' = (resolve_approval redis validate now ip cs req g).0 in
      let gone : redis.get later.redis req'.confirmation_id g'.store ≡ none =
        rw (resolved-store now ip cs req g id r done, same)
          (redis.get-del later.redis req.confirmation_id g.store) in
      not_found_lem later ip' cs' req' g' valid gone

module _ (redis : Redis) where
  -- The GET and the DEL of a request are two commands. Where two valid requests of permitted callers
  -- both read an approval before either deletes it, and it has not expired, both are resolved, one
  -- after the other, each with its own answer.
  pub both_resolved :
      (now : Moment) (ip ip' : Option String) (cs cs' : Option Claims)
      (req req' : ResolveApprovalRequest) (pending : PendingApproval) (g : Gateway redis)
      → permitted cs pending.user_id ≡ true
      → permitted cs' pending.user_id ≡ true
      → as_secs now ≤ pending.expires_at
      → let first = settle redis now ip cs req pending g in
        let second = settle redis now ip' cs' req' pending first.0 in
        (first.1 ≡ resolved req.confirmation_id (verdict req.approved))
        × (second.1 ≡ resolved req'.confirmation_id (verdict req'.approved))
  unfolding settle
  both_resolved now ip ip' cs cs' req req' pending g p p' h = ground arith
