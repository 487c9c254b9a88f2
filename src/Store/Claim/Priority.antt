-- ===== src/Store/Claim/Priority.antt =====
-- ORDER BY priority DESC, created_at, execution_id is a total order of the rows.
use brunost_judge.Prelude.{◌≡◌, true, false, arith}
use brunost_judge.Sql.Order.{IsTotalOrder, text_leb-IsTotalOrder}
use brunost_judge.Store.{Execution}
use brunost_judge.Store.Claim.{precedes}

precedes_total : (a b : Execution) → precedes a b ≡ false → precedes b a ≡ true
unfolding precedes
precedes_total a b h = ground (arith, text_leb-IsTotalOrder.total a.execution_id b.execution_id)

precedes_trans :
    (a b c : Execution) → precedes a b ≡ true → precedes b c ≡ true → precedes a c ≡ true
unfolding precedes
precedes_trans a b c h k =
    ground (arith, text_leb-IsTotalOrder.trans a.execution_id b.execution_id c.execution_id)

pub precedes-IsTotalOrder : IsTotalOrder precedes
precedes-IsTotalOrder = record { total = precedes_total; trans = precedes_trans }
