-- ===== src/Approval/Handlers.antt =====
-- rust-api/src/gateway/human_approval.rs: `create_approval`, `resolve_approval` and `list_pending`.
-- The fresh id, the client's address, the checks that garde derives from the attributes and the text
-- `kes` of an amount are handed in. The key `approval:{id}` is named by the id alone. A
-- request is handed the time of its own clock and that of the clock of Redis, which may differ.
use angavu_intelligence_back.Common.{
  ℕ, ◌+◌, ◌/◌, Bool, true, false, not, ◌&&◌, ◌||◌, Option, none, some, List, [], ◌∷◌, ◌++◌, String,
  str_eq, ltb, any, if◌then◌else◌,
}
use angavu_intelligence_back.Approval.{
  Claims, CreateApprovalRequest, ResolveApprovalRequest, ApprovalActionType, from_str,
  timeout_seconds, PendingApproval, Resolution, approved, rejected, Response, created, resolved,
  listed, unauthorized, forbidden, bad_request, not_found, expired, AuditLogEntry, created_query,
  resolved_query,
}
use angavu_intelligence_back.Approval.Prompt.{build_confirmation_prompt}
use angavu_intelligence_back.Approval.Redis.{Redis, Stored, json, corrupt}

-- The nanoseconds since the epoch by `SystemTime::now`, and the milliseconds by the clock of Redis.
pub record Moment : Type 0 where
  pub server : ℕ
  pub redis : ℕ

-- `duration_since(UNIX_EPOCH)` and `as_secs`, which leaves out the part of a second.
abbrev pub as_secs : Moment → ℕ
as_secs now = now.server / 1000000000

abbrev pub is_admin : Claims → Bool
is_admin c = any (λ p. str_eq p "admin") c.permissions

-- The check of an owner. Without claims the handlers make no check.
abbrev pub permitted : Option Claims → String → Bool
permitted none owner = true
permitted (some c) owner = str_eq c.org_id owner || is_admin c

module _ (redis : Redis) where
  pub record Gateway : Type 0 where
    pub store : redis.State
    pub audit : List AuditLogEntry

abbrev pub verdict : Bool → Resolution
verdict true = approved
verdict false = rejected

module _ (redis : Redis) (kes : ℕ → String) where
  unfoldable pub pending_of :
      Moment → String → CreateApprovalRequest → ApprovalActionType → PendingApproval
  pending_of now id req action = record {
    confirmation_id = id;
    action_type = req.action_type;
    amount = req.amount;
    description = req.description;
    user_id = req.user_id;
    prompt = build_confirmation_prompt kes action req.amount req.description;
    created_at = as_secs now;
    expires_at = as_secs now + timeout_seconds action;
    metadata = req.metadata;
  }

  -- The rest of `create_approval`, once the action type is known.
  unfoldable pub store_pending :
      Moment
      → String
      → Option String
      → CreateApprovalRequest
      → ApprovalActionType
      → Gateway redis
      → Gateway redis × Response
  unfolding pending_of
  store_pending now id ip req action g =
      let entry : AuditLogEntry = record {
        org_id = req.user_id;
        endpoint = "/api/v1/approval/create";
        method = "POST";
        status_code = 201;
        ip_address = ip;
        query_hash = some (created_query req.action_type id);
      } in
      (
        record {
          store =
              redis.set_ex now.redis id (json (pending_of now id req action))
                (timeout_seconds action) g.store;
          audit = g.audit ++ entry ∷ [];
        },
        created id (build_confirmation_prompt kes action req.amount req.description)
            (timeout_seconds action),
      )

  unfoldable pub create_approval :
      (CreateApprovalRequest → Bool)
      → Moment
      → String
      → Option String
      → Option Claims
      → CreateApprovalRequest
      → Gateway redis
      → Gateway redis × Response
  unfolding store_pending
  create_approval validate now id ip claims req g =
      if not (permitted claims req.user_id)
      then (g, forbidden)
      else if not (validate req)
      then (g, bad_request)
      else elim (from_str req.action_type) [
        | none ↦ (g, bad_request)
        | some action ↦ store_pending now id ip req action g
      ]

module _ (redis : Redis) where
  -- The rest of `resolve_approval`, once the approval is read.
  unfoldable pub settle :
      Moment
      → Option String
      → Option Claims
      → ResolveApprovalRequest
      → PendingApproval
      → Gateway redis
      → Gateway redis × Response
  settle now ip claims req pending g =
      let id = req.confirmation_id in
      let entry : AuditLogEntry = record {
        org_id = pending.user_id;
        endpoint = "/api/v1/approval/resolve";
        method = "POST";
        status_code = 200;
        ip_address = ip;
        query_hash = some (resolved_query id req.approved);
      } in
      if not (permitted claims pending.user_id)
      then (g, forbidden)
      else if ltb pending.expires_at (as_secs now)
      then (record g { store = redis.del id g.store }, expired id)
      else (
        record g { store = redis.del id g.store; audit = g.audit ++ entry ∷ [] },
        resolved id (verdict req.approved),
      )

  -- What the GET found.
  unfoldable pub decide :
      Moment
      → Option String
      → Option Claims
      → ResolveApprovalRequest
      → Option Stored
      → Gateway redis
      → Gateway redis × Response
  unfolding settle
  decide now ip claims req none g = (g, not_found req.confirmation_id)
  decide now ip claims req (some corrupt) g = (g, bad_request)
  decide now ip claims req (some (json pending)) g = settle now ip claims req pending g

  unfoldable pub resolve_approval :
      (ResolveApprovalRequest → Bool)
      → Moment
      → Option String
      → Option Claims
      → ResolveApprovalRequest
      → Gateway redis
      → Gateway redis × Response
  unfolding decide
  resolve_approval validate now ip claims req g =
      if not (validate req)
      then (g, bad_request)
      else decide now ip claims req (redis.get now.redis req.confirmation_id g.store) g

  -- The approvals of `user_id` among the keys.
  unfoldable pub keep_own : String → Option Stored → List PendingApproval → List PendingApproval
  keep_own user_id (some (json p)) rest = if str_eq p.user_id user_id then p ∷ rest else rest
  keep_own user_id _ rest = rest

  unfoldable pub collect : Moment → String → List String → Gateway redis → List PendingApproval
  unfolding keep_own
  collect now user_id [] g = []
  collect now user_id (key ∷ keys) g =
      keep_own user_id (redis.get now.redis key g.store) (collect now user_id keys g)

  unfoldable pub list_pending : Moment → String → Option Claims → Gateway redis → Response
  unfolding collect
  list_pending now user_id none g = unauthorized
  list_pending now user_id (some c) g =
      if not (str_eq c.org_id user_id) && not (is_admin c)
      then forbidden
      else listed (collect now user_id (redis.scan now.redis g.store) g)
