-- ===== src/Approval/Tests.antt =====
-- Examples for approvals: a payment of a shop, approved by its owner.
use angavu_intelligence_back.Common.{
  ℕ, ◌+◌, ◌*◌, ◌≡◌, ◌⊎◌, refl, Bool, true, false, none, some, [], ◌∷◌, String, codes, ltb,
  if◌then◌else◌,
}
use angavu_intelligence_back.Approval.{
  Claims, CreateApprovalRequest, ResolveApprovalRequest, transaction, timeout_seconds,
  PendingApproval, approved, resolved, listed, expired, not_found,
}
use angavu_intelligence_back.Approval.Redis.{json}
use angavu_intelligence_back.Approval.Handlers.{
  Moment, as_secs, is_admin, verdict, Gateway, resolve_approval, list_pending, settle, decide,
  collect, keep_own,
}
use angavu_intelligence_back.Approval.Ownership.{resolve-owner}
use angavu_intelligence_back.Approval.OneTime.{resolve_twice}
use angavu_intelligence_back.Approval.Memory.{memory, lookup, live}

-- A time in tenths of a second, by both clocks.
abbrev tenths : ℕ → Moment
tenths n = record { server = n * 100000000; redis = n * 100 }

abbrev owner : Claims
owner = record { org_id = "duka"; permissions = [] }

abbrev request : CreateApprovalRequest
request = record {
  action_type = codes "Transaction";
  amount = some 700000;
  description = "stock";
  user_id = "duka";
  metadata = none;
}

abbrev yes : ResolveApprovalRequest
yes = record {
  confirmation_id = "c1";
  approved = true;
  user_comment = none;
  corrected_content = none;
}

abbrev no : ResolveApprovalRequest
no = record yes { approved = false }

abbrev valid_create : CreateApprovalRequest → Bool
valid_create r = true

abbrev valid_resolve : ResolveApprovalRequest → Bool
valid_resolve r = true

abbrev kes : ℕ → String
kes a = "KES"

abbrev payment : PendingApproval
payment = record {
  confirmation_id = "c1";
  action_type = codes "Transaction";
  amount = some 700000;
  description = "stock";
  user_id = "duka";
  prompt = "";
  created_at = 100;
  expires_at = 130;
  metadata = none;
}

abbrev empty : Gateway memory
empty = record { store = []; audit = [] }

abbrev waiting : Gateway memory
waiting = record {
  store = ("c1", record { expires = 130000; value = json payment }) ∷ [];
  audit = [];
}

found_payment : memory.get 110000 "c1" waiting.store ≡ some (json payment)
unfolding lookup live
found_payment = refl

approved_once :
    (resolve_approval memory valid_resolve (tenths 1100) none (some owner) yes waiting).1
    ≡ resolved "c1" approved
unfolding resolve_approval decide settle lookup live
approved_once = refl

resolve-owner_example :
    ((owner.org_id ≡ payment.user_id) ⊎ (is_admin owner ≡ true))
    × (valid_resolve yes ≡ true)
    × (ltb payment.expires_at (as_secs (tenths 1100)) ≡ false)
resolve-owner_example =
    resolve-owner memory valid_resolve (tenths 1100) none owner yes waiting payment "c1" approved
      found_payment approved_once

own_list : list_pending memory (tenths 1100) "duka" (some owner) waiting ≡ listed (payment ∷ [])
unfolding list_pending collect keep_own lookup live
own_list = refl

resolve_twice_example :
    let g' =
      (resolve_approval memory valid_resolve (tenths 1100) none (some owner) yes waiting).0 in
    resolve_approval memory valid_resolve (tenths 1110) none (some owner) no g'
    ≡ (g', not_found "c1")
resolve_twice_example =
    resolve_twice memory valid_resolve (tenths 1100) (tenths 1110) none none (some owner)
      (some owner) yes no waiting "c1" approved approved_once refl refl

last_second :
    (if ltb (tenths 1305).redis ((tenths 1009).redis + 1000 * timeout_seconds transaction)
      then (if ltb (as_secs (tenths 1009) + timeout_seconds transaction) (as_secs (tenths 1305))
          then expired "c1"
          else resolved "c1" (verdict false))
      else not_found "c1")
    ≡ resolved "c1" (verdict false)
unfolding timeout_seconds
last_second = refl
