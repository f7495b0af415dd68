-- ===== src/Schema/Svm/Finish.antt =====
-- svm-schema/src/lib.rs: the builders' `finish`.
use cherry_core.Arrow.Builders.{Builders}
use cherry_core.Schema.Svm.Blocks
use cherry_core.Schema.Svm.Rewards
use cherry_core.Schema.Svm.TokenBalances
use cherry_core.Schema.Svm.Balances
use cherry_core.Schema.Svm.Logs
use cherry_core.Schema.Svm.Transactions
use cherry_core.Schema.Svm.Instructions
