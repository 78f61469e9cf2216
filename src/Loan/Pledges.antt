-- ===== src/Loan/Pledges.antt =====
-- What a guarantor's acceptance requires and does (`acceptGuarantee`, services/loan.service.ts).
use mduara_api.Loan.Types.{Loan}
