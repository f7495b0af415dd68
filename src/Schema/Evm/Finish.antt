-- ===== src/Schema/Evm/Finish.antt =====
-- evm-schema/src/lib.rs: the builders' `finish`.
use cherry_core.Arrow.Builders.{Builders}
use cherry_core.Schema.Evm.Blocks
use cherry_core.Schema.Evm.Transactions
use cherry_core.Schema.Evm.Logs
use cherry_core.Schema.Evm.Traces
