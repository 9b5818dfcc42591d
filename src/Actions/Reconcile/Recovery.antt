-- ===== src/Actions/Reconcile/Recovery.antt =====
-- A crash after the rename and before the journal write.
use workspace_janitor.Core.Entry.{Entry}
use workspace_janitor.Core.Cleanup
