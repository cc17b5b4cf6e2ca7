-- ===== src/Examples/Texts.antt =====
-- The theorems on texts at concrete texts.
use forward.Prelude.{
  ◌≡◌, ◌↔◌, refl, true, false, none, [], ◌∷◌, ◌++◌, arith, codes, any, ◌==◌, count_if, retain, ◌<◌,
}
use forward.ErrCode.{ok}
use forward.Names.Assignment.{parse_single_assignment, parse_single_assignment_iff, statements}
use forward.Protocol.Request.{parse_request, redeem, redeem_line, parse_request-redeem}
use forward.RateLimit.{record_open, permit, permit_iff, is_same, is_recent}

parse_single_assignment_iff_example :
    (parse_single_assignment (codes "A=b") (codes "A") ≡ ok (codes "b")) ↔ (
      (statements (codes "A=b") ≡ (codes "A" ++ 61 ∷ codes "b") ∷ [])
      × (any (λ c. c == 0) (codes "b") ≡ false))
parse_single_assignment_iff_example =
    parse_single_assignment_iff (codes "A=b") (codes "A") (codes "b") refl

parse_request-redeem_example :
    parse_request (λ line. true) (redeem_line (codes "00ff") (codes "deploy"))
    ≡ ok (redeem (codes "00ff") (codes "deploy"))
parse_request-redeem_example =
    parse_request-redeem (λ line. true) (codes "00ff") (codes "deploy") refl (omega arith) refl refl

permit_iff_example :
    ((record_open (codes "u") 5 none []).1 ≡ permit)
    ↔ (count_if (is_same (codes "u") none) (retain (is_recent 5) []) < 3)
permit_iff_example = permit_iff (codes "u") 5 none []
