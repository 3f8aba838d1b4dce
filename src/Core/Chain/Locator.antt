-- ===== src/Core/Chain/Locator.antt =====
-- core/blockchain.go: the locator of a chain, the fork that a peer finds in it, and header chains. The
-- loop over the heights runs on fuel, the chain's length, since each step is at least one.
use dnas.Base.{
  ℕ, zero, suc, ◌+◌, ◌-◌, ◌*◌, ltb, ◌==◌, if◌then◌else◌, not, Option, none, some, List, [], ◌∷◌,
  get_elem?, length,
}
use dnas.Base.Str.{Str, str_eq}
use dnas.Base.Result.{Result, ok, ◌>>◌, fail_if}
use dnas.Core.Env.{Env}
use dnas.Core.Block.{Block}
use dnas.Core.Chain.Reorg.{hash_or_none}
use dnas.Core.Header.{has_valid_pow}
use dnas.Core.Versionbits.{Header}

-- The loop of `Locator` at height `i`, with the hashes so far and their number.
unfoldable pub locator_loop : ℕ → List Block → ℕ → ℕ → ℕ → Option (List Str)
locator_loop fuel blocks zero step taken = some (hash_or_none (get_elem? blocks 0) ∷ [])
locator_loop zero blocks (suc i) step taken = none
locator_loop (suc fuel) blocks (suc i) step taken =
    let step' = if ltb 10 (taken + 1) then step * 2 else step in
    elim (locator_loop fuel blocks (suc i - step') step' (taken + 1)) [
      | none ↦ none
      | some rest ↦ some (hash_or_none (get_elem? blocks (suc i)) ∷ rest)
    ]

-- `Locator`
unfoldable pub locator : List Block → Option (List Str)
unfolding locator_loop
locator blocks = locator_loop (length blocks) blocks (length blocks - 1) 1 0

-- The map of `LocatorFork`: a later block of the same hash takes the place of an earlier one.
unfoldable pub height_of_hash : List Block → ℕ → Str → Option ℕ
height_of_hash [] i h = none
height_of_hash (b ∷ blocks) i h = elim (height_of_hash blocks (i + 1) h) [
  | none ↦ if str_eq b.hash h then some i else none
  | some height ↦ some height
]

-- `LocatorFork`
unfoldable pub locator_fork : List Block → List Str → ℕ
unfolding height_of_hash
locator_fork blocks [] = 0
locator_fork blocks (h ∷ hashes) = elim (height_of_hash blocks 0 h) [
  | none ↦ locator_fork blocks hashes
  | some height ↦ height
]

pub data HeaderError : Type 0 where
  header_index header_prev_hash header_pow : HeaderError

-- `ValidateHeaderChain`
unfoldable pub validate_header_chain : Env → List Header → Str → ℕ → Result HeaderError (Unit {0})
unfolding has_valid_pow
validate_header_chain env [] prev_hash prev_index = ok tt
validate_header_chain env (h ∷ headers) prev_hash prev_index = do
  fail_if (not (h.index == prev_index + 1)) HeaderError.header_index
  fail_if (not (str_eq h.prev_hash prev_hash)) HeaderError.header_prev_hash
  fail_if (not (has_valid_pow env h)) HeaderError.header_pow
  validate_header_chain env headers h.hash h.index
