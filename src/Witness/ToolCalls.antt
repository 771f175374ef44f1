-- ===== src/Witness/ToolCalls.antt =====
-- Examples of the theorems on tool requests.
use peka_saas.Common.{◌+◌, ◌≤◌, ◌≡◌, ◌↔◌, refl, true, false, Any, arith}
use peka_saas.Common.Exec.{ok, is_ok}
use peka_saas.Common.Keyed.{IsKeyed}
use peka_saas.Common.Order.{earliest}
use peka_saas.Tools.Types.{OperationalToolRequest, is_allowed}
use peka_saas.Tools.Requests.{chosen, ordered, insert, precedes, create, claim, submit, result}
use peka_saas.Common.Exec.{begin}
use peka_saas.Tools.Requests.Lifecycle.{claims, results, Refines, key}
use peka_saas.Tools.Requests.Refinement.{Call-Refines}
use peka_saas.Tools.Requests.History.{Reach, here, next, submit_once}
use peka_saas.Tools.Requests.Handed.{handed_at_most}
use peka_saas.Tools.Requests.Handed
use peka_saas.Tools.Requests.Exchange.{IsAnswer, claim-submit-result}
use peka_saas.Tools.Requests.Routing.{Qualifies, IsRouted, create-IsRouted}
use peka_saas.Witness.ConnectorData.{connector}
use peka_saas.Witness.ToolData.{env, empty, asked, handed, answer, answered, shown}

Call-Refines_example : Refines asked.requests handed.requests × IsKeyed key handed.requests
Call-Refines_example = Call-Refines env asked handed (claims asked connector 50 300) (tt, tt)

-- The claim hands the request out.
abbrev one_claim : Reach env asked handed
one_claim = next here (claims asked connector 50 300)

one_claim_hands : Handed.handed 3 one_claim ≡ 1
unfolding claim earliest
one_claim_hands = refl

handed_at_most_example : Handed.attempts 3 asked.requests + Handed.handed 3 one_claim ≤ 3
handed_at_most_example = handed_at_most env asked handed 3 one_claim (tt, tt) (omega arith, tt)

accepted : is_ok (submit env connector 3 answer 400 (begin handed)).0 ≡ true
unfolding submit claim earliest
accepted = refl

submit_once_example :
    is_ok
      (submit env connector 3 answer 500 (begin (result 1 3 450 (begin answered)).1.committed)).0
    ≡ false
unfolding claim earliest
submit_once_example =
    submit_once env handed (result 1 3 450 (begin answered)).1.committed connector connector 3
      answer answer 400 500 (tt, tt) accepted (next here (results answered 1 3 450))

claim-submit-result_example :
    (q : OperationalToolRequest) × IsAnswer shown answer 400 q
    × ((submit env connector 3 answer 400 (begin handed)).0 ≡ ok q)
    × ((result 1 3 600 (begin answered)).0 ≡ ok q)
unfolding claim earliest
claim-submit-result_example =
    claim-submit-result env asked connector 50 300 shown answer 400 600 (tt, tt) refl refl
      (omega arith) (omega arith) refl

create-IsRouted_example :
    ((is_ok (create 1 2 "get_ticket" 8 3 200 (begin empty)).0 ≡ true) ↔ (
      (is_allowed "get_ticket" ≡ true) × Any (Qualifies 1 "get_ticket" 200 empty) empty.connectors))
    × ((r : OperationalToolRequest)
        → (create 1 2 "get_ticket" 8 3 200 (begin empty)).0 ≡ ok r
        → Any (IsRouted 1 "get_ticket" 200 empty r) empty.connectors)
create-IsRouted_example = create-IsRouted 1 "get_ticket" 200 empty 2 8 3

-- The connector is found.
created : is_ok (create 1 2 "get_ticket" 8 3 200 (begin empty)).0 ≡ true
unfolding create is_allowed chosen ordered insert precedes
created = refl
