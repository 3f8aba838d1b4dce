-- ===== src/Core/Chain.antt =====
-- core/blockchain.go: where two chains part.
pub mod Prefix
pub mod Rules
pub mod View
pub mod Retarget
pub mod Adopt
pub mod Reorg
pub mod Linked
pub mod Adopted
pub mod Outcome
pub mod Failed
pub mod Locator
pub mod Common
pub mod ForkChoice
pub mod Reachable
pub mod Tests
use dnas.Base.{ℕ, suc, if◌then◌else◌, List, [], ◌∷◌}
use dnas.Base.Str.{Str, str_eq}
use dnas.Core.Block.{Block}

-- `commonPrefix`: the loop over `i`, as a walk over both lists.
unfoldable pub common_prefix : List Block → List Block → ℕ
common_prefix [] bs = 0
common_prefix (a ∷ blocks) [] = 0
common_prefix (a ∷ blocks) (b ∷ bs) =
    let more = common_prefix blocks bs in if str_eq a.hash b.hash then suc more else 0
