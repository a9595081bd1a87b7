-- ===== src/Approval/Prompt.antt =====
-- rust-api/src/gateway/human_approval.rs: `build_confirmation_prompt`. `kes` is the text of an
-- amount, `format!("KES {:.0}", a)`; an amount is in cents.
use angavu_intelligence_back.Common.{ℕ, Option, none, some, String, ltb, if◌then◌else◌}
use Prim.Native.String.{◌++◌ as append}
use angavu_intelligence_back.Approval.{
  ApprovalActionType, transaction, loan_application, credit_decision, tax_filing, chama_withdrawal,
  group_contribution, large_expense, report_delivery,
}

amount_text : (ℕ → String) → Option ℕ → String
amount_text kes none = ""
amount_text kes (some a) = kes a

around : String → String → String → String → String → String
around s a t b u = append s (append a (append t (append b u)))

unfoldable pub build_confirmation_prompt :
    (ℕ → String) → ApprovalActionType → Option ℕ → String → String
unfolding amount_text around
build_confirmation_prompt kes transaction none d = append "Unakubali " (append d "?")
build_confirmation_prompt kes transaction (some a) d =
    if ltb 500000 a
    then around "Hii ni muamamala mkubwa wa " (kes a) ". " d ". Unakubali?"
    else append "Unakubali " (append d "?")
build_confirmation_prompt kes loan_application amount d =
    around "Unataka kuomba mkopo wa " (amount_text kes amount) ". " d ". Unakubali kuomba?"
build_confirmation_prompt kes credit_decision amount d =
    around "Kulingana na data ya biashara yako, unaweza kupata mkopo wa " (amount_text kes amount)
      ". " d ". Unataka kuendelea?"
build_confirmation_prompt kes tax_filing amount d =
    append "Unataka kuwasilisha ripoti ya kodi. " (append d ". Unakubali?")
build_confirmation_prompt kes chama_withdrawal amount d =
    around "Unataka kutoa " (amount_text kes amount) " kutoka chama. " d ". Unakubali?"
build_confirmation_prompt kes group_contribution amount d =
    around "Unataka kuchangia " (amount_text kes amount) " kwenye chama. " d ". Unakubali?"
build_confirmation_prompt kes large_expense amount d =
    around "Hii ni gharama kubwa ya " (amount_text kes amount) ". " d ". Unakubali?"
build_confirmation_prompt kes report_delivery amount d =
    append "Unataka kutuma ripoti. " (append d ". Unakubali kutuma?")
