-- ===== src/Host/Verifier/Tests.antt =====
-- Verifications of small measurements and receipts.
use agentic_ai_tee.Base.{◌≡◌, ◌↔◌, refl, true, some, [], ◌∷◌, codes, text_eq, pos, is_space}
use agentic_ai_tee.Base.Result.{ok}
use agentic_ai_tee.Host.Verifier.{
  Pcrs, Receipt, get_pcr, put_pcr, mismatch, find_mismatches, all_zero, verify_pcrs,
  verify_task_integrity, int_keys, parse_int, read_digits,
}
use agentic_ai_tee.Host.Verifier.Laws.{IsMeasured, verify_task_integrity_iff}

abbrev golden : Pcrs
golden = (pos 0, codes "ab12") ∷ []

abbrev receipt : Receipt
receipt = record {
  task_hash = some (codes "ff");
  pcrs = (codes "0", codes "ab12") ∷ (codes " 0_8", codes "00") ∷ [];
}

verify_task_integrity_iff_example :
    (verify_task_integrity golden (codes "ff") receipt ≡ ok true) ↔ (
      (receipt.task_hash ≡ some (codes "ff"))
      × (pcrs : Pcrs) × (int_keys [] receipt.pcrs ≡ ok pcrs)
      × IsMeasured golden pcrs)
verify_task_integrity_iff_example = verify_task_integrity_iff golden (codes "ff") receipt

receipt_verifies : verify_task_integrity golden (codes "ff") receipt ≡ ok true
unfolding verify_task_integrity verify_pcrs find_mismatches mismatch all_zero int_keys put_pcr
    get_pcr parse_int read_digits is_space text_eq
receipt_verifies = refl

-- No values at all are reported as debug mode.
no_values :
    (verify_pcrs golden []).error
    ≡ some (codes "All PCR values are zero — enclave is in debug mode")
unfolding verify_pcrs all_zero
no_values = refl
