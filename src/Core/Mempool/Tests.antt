-- ===== src/Core/Mempool/Tests.antt =====
-- core/mempool.go: the pool on concrete transactions.
use dnas.Base.{
  ℕ, zero, suc, ◌*◌, ◌/◌, ◌^◌, ◌≤◌, ltb, true, some, List, [], ◌∷◌, length, All, ◌≡◌, refl, arith,
}
use dnas.Base.Str.{Str, codes}
use dnas.Base.Map.{lookup}
use dnas.Base.Map.Nat.{lookup_nat}
use dnas.Base.Result.{ok, err}
use dnas.Core.Env.{Env}
use dnas.Core.Tx.{Transaction}
use dnas.Core.Tx.Codec.{size}
use dnas.Core.Tx.Shape.{is_name_key, check_auth_shape}
use dnas.Core.Tx.Sanity.{no_name_keys, check_name_shape, check_kind}
use dnas.Base.Str.{has_prefix}
use dnas.Core.Ledger.{get}
use dnas.Core.Params.{max_block_bytes, max_block_verify_ops}
use dnas.Core.Block.{block_verify_ops}
use dnas.Core.Chain.View.{View, account_at}
use dnas.Core.Mempool.{AccountSource, Mempool, new_mempool_with_limits, use_accounts}
use dnas.Core.Mempool.Books.{IsMempool}
use dnas.Core.Mempool.Package.{full_rate_too_low}
use dnas.Core.Mempool.Admit.{add_locked}
use dnas.Core.Mempool.Added.{Added, add_locked-Added}
use dnas.Core.Mempool.Runs.{IsContiguous, add_locked-IsContiguous}
use dnas.Core.Mempool.Reconcile.{reconcile}
use dnas.Core.Mempool.Reconciled.{IsSmall, reconcile-IsContiguous}
use dnas.Core.Mempool.Room.{Shrinks}
use dnas.Core.Mempool.Eligible.{is_eligible}
use dnas.Core.Mempool.Select.{select}
use dnas.Core.Mempool.Template.{InTurn, NamesOnce, total_size, select-IsTemplate}
use dnas.Core.Mempool.Steps.{
  Operation, add_tx, reconcile_at, chain_moves, run_operations, run_operations-IsMempool,
  initial-IsMempool, use_accounts-IsMempool, add_locked-IsMempool,
}
use dnas.Samples.{crypto, env, alice, bob, account, ledger, payment, block}

-- A hash that no two of the transactions share.
abbrev plain_env : Env
plain_env = record env { crypto = record crypto { sha256 = λ s. s } }

abbrev quotient : ℕ → ℕ → ℕ
quotient a b = a * 2 ^ 20 / b

abbrev source : AccountSource
source = record { account = λ a. get a ledger; spendable_balance = λ a. (get a ledger).balance }

abbrev empty_pool : Mempool
empty_pool = use_accounts source (some 1) (new_mempool_with_limits 4 1000 0)

abbrev pool : Mempool
pool = (add_locked plain_env quotient payment empty_pool).1

empty_pool-IsMempool : IsMempool plain_env empty_pool
empty_pool-IsMempool =
    use_accounts-IsMempool plain_env source (some 1) (new_mempool_with_limits 4 1000 0)
      (initial-IsMempool plain_env 4 1000 0)

pool-IsMempool : IsMempool plain_env pool
pool-IsMempool =
    add_locked-IsMempool plain_env quotient payment (omega arith) empty_pool empty_pool-IsMempool

pool_size :
    (length pool.txs ≡ 1) × (pool.accounts ≡ some source) × (pool.bytes ≡ size plain_env payment)
unfolding add_locked new_mempool_with_limits use_accounts
pool_size = (refl, refl, refl)

-- Alice's next payment.
abbrev second : Transaction
second = record payment { amount = 1000; nonce = 4 }

add_locked-Added_example :
    Added plain_env quotient second pool (add_locked plain_env quotient second pool)
add_locked-Added_example =
    add_locked-Added plain_env quotient second pool pool-IsMempool (omega arith)

abbrev confirmed : Str → ℕ
confirmed a = (get a ledger).nonce

no_gap : IsContiguous confirmed empty_pool.by_sender
unfolding new_mempool_with_limits use_accounts lookup lookup_nat
no_gap a n at = absurd cc

pool_no_gap : IsContiguous confirmed pool.by_sender
unfolding use_accounts
pool_no_gap =
    add_locked-IsContiguous plain_env quotient payment empty_pool source empty_pool-IsMempool refl
      (omega arith) no_gap

add_locked-IsContiguous_example :
    IsContiguous confirmed (add_locked plain_env quotient second pool).1.by_sender
add_locked-IsContiguous_example =
    add_locked-IsContiguous plain_env quotient second pool source pool-IsMempool pool_size.1
      (omega arith) pool_no_gap

-- The chain after Alice's payment, under the pool that still holds it.
abbrev later : AccountSource
later = record { account = λ a. account 4100 4; spendable_balance = λ a. 4100 }

abbrev moved_pool : Mempool
moved_pool = use_accounts later (some 2) pool

moved_pool-IsSmall : IsSmall moved_pool
unfolding use_accounts
moved_pool-IsSmall a n at = (pool_no_gap a n at).0

reconcile-IsContiguous_example :
    IsContiguous
      (λ a. (later.account a).nonce)
      (reconcile plain_env quotient 2 moved_pool).1.by_sender
    × IsMempool plain_env (reconcile plain_env quotient 2 moved_pool).1
    × Shrinks moved_pool (reconcile plain_env quotient 2 moved_pool).1
unfolding use_accounts
reconcile-IsContiguous_example =
    reconcile-IsContiguous plain_env quotient 2 moved_pool later
      (use_accounts-IsMempool plain_env later (some 2) pool pool-IsMempool) refl moved_pool-IsSmall

abbrev operations : List Operation
operations =
    chain_moves source (some 1)
    ∷ add_tx payment (omega arith)
    ∷ add_tx second (omega arith)
    ∷ reconcile_at 1
    ∷ []

run_operations-IsMempool_example :
    IsMempool plain_env
      (run_operations plain_env quotient operations (new_mempool_with_limits 4 1000 0))
run_operations-IsMempool_example = run_operations-IsMempool plain_env quotient 4 1000 0 operations

abbrev view : View
view = record { blocks = block ∷ []; state = ledger }

select-IsTemplate_example :
    (total_size plain_env (select plain_env quotient view 10 pool) ≤ max_block_bytes)
    × (block_verify_ops (select plain_env quotient view 10 pool) ≤ max_block_verify_ops)
    × (length (select plain_env quotient view 10 pool) ≤ 10)
    × InTurn (λ a. (account_at view a).nonce) (select plain_env quotient view 10 pool)
    × NamesOnce [] (select plain_env quotient view 10 pool)
    × All (λ tx. is_eligible plain_env view tx ≡ true) (select plain_env quotient view 10 pool)
select-IsTemplate_example = select-IsTemplate plain_env view quotient 10 pool

selects_both :
    select plain_env quotient view 10 (add_locked plain_env quotient second pool).1
    ≡ payment ∷ second ∷ []
unfolding select add_locked new_mempool_with_limits use_accounts is_name_key has_prefix no_name_keys
    check_name_shape check_auth_shape check_kind
selects_both = refl

-- A replacement with a long memo: the byte budget is not asked.
abbrev tight_pool : Mempool
tight_pool = record pool { max_bytes = 300 }

abbrev letters : ℕ → Str
letters zero = []
letters (suc n) = 120 ∷ letters n

abbrev long_payment : Transaction
long_payment = record payment { fee = 901; memo = letters 200 }

replaces_beyond_budget :
    ((add_locked plain_env quotient long_payment tight_pool).0 ≡ ok true)
    × (ltb tight_pool.max_bytes (add_locked plain_env quotient long_payment tight_pool).1.bytes
        ≡ true)
unfolding add_locked new_mempool_with_limits use_accounts
replaces_beyond_budget = (refl, refl)

-- Without a chain: the cheaper of two goes before the newcomer is refused.
abbrev cheap : Transaction
cheap = record payment { fee = 10; nonce = 0 }

abbrev dear : Transaction
dear = record payment { from = bob; to = alice; fee = 90_000; nonce = 0 }

abbrev newcomer : Transaction
newcomer = record payment { from = codes "carol"; fee = 2000; nonce = 0; memo = letters 200 }

abbrev two_pool : Mempool
two_pool =
    (add_locked plain_env quotient dear
      (add_locked plain_env quotient cheap (new_mempool_with_limits 4 400 0)).1).1

evicts_and_refuses :
    ((add_locked plain_env quotient newcomer two_pool).0 ≡ err full_rate_too_low)
    × (length two_pool.txs ≡ 2)
    × (length (add_locked plain_env quotient newcomer two_pool).1.txs ≡ 1)
unfolding add_locked new_mempool_with_limits
evicts_and_refuses = (refl, refl, refl)
