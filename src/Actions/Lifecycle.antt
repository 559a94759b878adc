-- ===== src/Actions/Lifecycle.antt =====
-- state_machine.go: the transition table of the action lifecycle.
pub mod Paths
use agentnexus.Base.{Bool, true, false, Option, none, some}
use agentnexus.Runtime.Types.{
  ActionStatus, requested, awaiting_approval, granted, dispatched, executing, succeeded, failed,
  result_unknown, reconciling, compensating, human_takeover,
}

-- One row of `allowedEdges` for each status; a status outside the table has no row.
from_requested : ActionStatus → Bool
from_requested awaiting_approval = true
from_requested granted = true
from_requested failed = true
from_requested human_takeover = true
from_requested _ = false

from_awaiting : ActionStatus → Bool
from_awaiting granted = true
from_awaiting failed = true
from_awaiting human_takeover = true
from_awaiting _ = false

from_granted : ActionStatus → Bool
from_granted dispatched = true
from_granted failed = true
from_granted human_takeover = true
from_granted _ = false

from_dispatched : ActionStatus → Bool
from_dispatched executing = true
from_dispatched succeeded = true
from_dispatched failed = true
from_dispatched result_unknown = true
from_dispatched compensating = true
from_dispatched human_takeover = true
from_dispatched _ = false

from_executing : ActionStatus → Bool
from_executing succeeded = true
from_executing failed = true
from_executing result_unknown = true
from_executing compensating = true
from_executing human_takeover = true
from_executing _ = false

from_unknown : ActionStatus → Bool
from_unknown reconciling = true
from_unknown compensating = true
from_unknown human_takeover = true
from_unknown _ = false

from_reconciling : ActionStatus → Bool
from_reconciling succeeded = true
from_reconciling failed = true
from_reconciling human_takeover = true
from_reconciling _ = false

from_resting : ActionStatus → Bool
from_resting compensating = true
from_resting human_takeover = true
from_resting _ = false

from_compensating : ActionStatus → Bool
from_compensating human_takeover = true
from_compensating _ = false

-- `canTransition(from, to)`
unfoldable pub can_transition : ActionStatus → ActionStatus → Bool
unfolding from_requested from_awaiting from_granted from_dispatched from_executing from_unknown
    from_reconciling from_resting from_compensating
can_transition requested to = from_requested to
can_transition awaiting_approval to = from_awaiting to
can_transition granted to = from_granted to
can_transition dispatched to = from_dispatched to
can_transition executing to = from_executing to
can_transition result_unknown to = from_unknown to
can_transition reconciling to = from_reconciling to
can_transition succeeded to = from_resting to
can_transition failed to = from_resting to
can_transition compensating to = from_compensating to
can_transition human_takeover to = false
can_transition (ActionStatus.other text) to = false

-- `compensable`
unfoldable pub compensable : ActionStatus → Bool
compensable dispatched = true
compensable executing = true
compensable succeeded = true
compensable failed = true
compensable result_unknown = true
compensable reconciling = true
compensable _ = false

-- `terminalReceiptStatus`
unfoldable pub terminal_receipt_status : ActionStatus → Option ActionStatus
terminal_receipt_status succeeded = some succeeded
terminal_receipt_status failed = some failed
terminal_receipt_status _ = none

-- `AwaitingReconciliation` of reconcile.go
unfoldable pub awaiting_reconciliation : ActionStatus → Bool
awaiting_reconciliation result_unknown = true
awaiting_reconciliation reconciling = true
awaiting_reconciliation _ = false
