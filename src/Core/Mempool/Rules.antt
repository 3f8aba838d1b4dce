-- ===== src/Core/Mempool/Rules.antt =====
-- core/mempool.go: the rules of admission that read the pool and the chain.
use dnas.Base.{
  ℕ, zero, suc, ◌+◌, ◌-◌, ◌^◌, ltb, leb, ◌==◌, if◌then◌else◌, Bool, true, false, not, ◌&&◌, ◌||◌,
  Option, none, some, is_some, or_zero, [], ◌∷◌, length, add64, sub64, ⊤,
}
use dnas.Base.Str.{Str, str_eq}
use dnas.Base.Map.{lookup}
use dnas.Base.Map.Nat.{lookup_nat}
use dnas.Base.Result.{Result, ok, err, ◌>>◌, fail_if}
use dnas.Core.Env.{Env}
use dnas.Core.Tx.{Transaction, is_sponsored}
use dnas.Core.Tx.Codec.{size}
use dnas.Core.Tx.Shape.{Check}
use dnas.Core.Tx.Height.{check_tx_at_height}
use dnas.Core.Mempool.{AccountSource, Mempool, Queue, get_tx, max_per_sender, queue, tx_coin_cost}
use dnas.Core.Mempool.Package.{
  MempoolError, nonce_used, sender_full, nonce_gap, cannot_afford, sponsor_cannot_afford,
  package_limits, pending_credit, tx_at,
}

abbrev pub Admission : Type 0
Admission = Result MempoolError ⊤

-- The lowest nonce that the queue leaves free, from the confirmed one.
unfoldable pub next_nonce : ℕ → Queue → ℕ → ℕ
unfolding lookup_nat
next_nonce zero q next = next
next_nonce (suc fuel) q next =
    let later = next_nonce fuel q (add64 next 1) in
    if is_some (lookup_nat next q) then later else next

abbrev pub is_replaced : Option Str → Str → Bool
is_replaced none h = false
is_replaced (some x) h = str_eq h x

-- The costs of a queue; the loop stops where they exceed the balance.
unfoldable pub queued_cost : Mempool → Option Str → ℕ → Queue → ℕ → ℕ
unfolding tx_at tx_coin_cost str_eq
queued_cost m replacing spendable [] total = total
queued_cost m replacing spendable ((nonce, h) ∷ q) total =
    let with_it = add64 total (tx_coin_cost (tx_at h m)) in
    let skipped = queued_cost m replacing spendable q total in
    let rest = queued_cost m replacing spendable q with_it in
    if is_replaced replacing h then skipped else if ltb spendable with_it then with_it else rest

abbrev pub saturating : ℕ → ℕ → ℕ
saturating a b = if ltb (add64 a b) a then 2 ^ 64 - 1 else add64 a b

abbrev pub released : Transaction → Option Transaction → ℕ → ℕ
released tx none committed = committed
released tx (some old) committed =
    if is_sponsored old && str_eq old.fee_payer tx.fee_payer
    then sub64 committed old.fee
    else committed

abbrev pub replaced_tx : Option Str → Mempool → Option Transaction
replaced_tx none m = none
replaced_tx (some h) m = get_tx h m

-- `sponsorAffordableLocked`
unfoldable pub sponsor_affordable : AccountSource → Transaction → Option Str → Mempool → Admission
unfolding lookup get_tx str_eq
sponsor_affordable source tx replacing m =
    let committed = or_zero (lookup tx.fee_payer m.sponsored) in
    let total = add64 (released tx (replaced_tx replacing m) committed) tx.fee in
    fail_if (is_sponsored tx && ltb (source.spendable_balance tx.fee_payer) total)
      sponsor_cannot_afford

-- The rules on the nonce of a transaction that replaces none.
unfoldable pub check_slot : ℕ → Transaction → Option Str → Queue → Admission
unfolding next_nonce
check_slot confirmed tx (some h) q = ok tt
check_slot confirmed tx none q =
    fail_if (leb max_per_sender (length q)) sender_full
    >> fail_if (not (tx.nonce == next_nonce (length q) q confirmed)) nonce_gap

module _ (env : Env) where
  abbrev pub admissible_by : Option AccountSource → Transaction → Option Str → Mempool → Admission
  admissible_by none tx replacing m = ok tt
  admissible_by (some source) tx replacing m = do
    let q = queue tx.from m
    let confirmed = (source.account tx.from).nonce
    let spendable = saturating (source.spendable_balance tx.from) (pending_credit tx.from m)
    fail_if (ltb tx.nonce confirmed) nonce_used
    check_slot confirmed tx replacing q
    fail_if (ltb spendable (queued_cost m replacing spendable q (tx_coin_cost tx))) cannot_afford
    package_limits env tx m
    sponsor_affordable source tx replacing m

  -- `admissibleLocked`
  unfoldable pub admissible_locked : Transaction → Option Str → Mempool → Admission
  unfolding check_slot pending_credit queued_cost package_limits sponsor_affordable
  admissible_locked tx replacing m = admissible_by m.accounts tx replacing m

  abbrev pub fails_at : Check → Bool
  fails_at (ok _) = false
  fails_at (err _) = true

  abbrev pub unmineable_at : Transaction → Option ℕ → Bool
  unmineable_at tx none = false
  unmineable_at tx (some height) = fails_at (check_tx_at_height env tx (add64 height 1))

  -- `unmineableLocked`
  unfoldable pub unmineable : Transaction → Mempool → Bool
  unfolding check_tx_at_height
  unmineable tx m = unmineable_at tx m.chain_height

  -- `overBudgetLocked`
  unfoldable pub over_budget : ℕ → Mempool → Bool
  over_budget size m = leb m.max (length m.txs) || ltb m.max_bytes (m.bytes + size)
