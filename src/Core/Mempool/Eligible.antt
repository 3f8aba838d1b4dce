-- ===== src/Core/Mempool/Eligible.antt =====
-- core/mempool.go: the candidates of `Select`, grouped by sender.
use dnas.Base.{
  ℕ, ltb, if◌then◌else◌, Bool, true, false, not, ◌&&◌, Option, none, some, List, [], ◌∷◌, ◌++◌,
  add64, mul64,
}
use dnas.Base.Str.{Str, str_eq}
use dnas.Base.Map.{Map, lookup, put}
use dnas.Core.Env.{Env}
use dnas.Core.Tx.{NameOp, NameOpKind, Transaction}
use dnas.Core.Tx.Codec.{size, tx_hash}
use dnas.Core.Tx.Sanity.{check_tx_sanity}
use dnas.Core.Tx.Height.{check_tx_at_height}
use dnas.Core.Block.{verify_ops}
use dnas.Core.Chain.View.{View, tip_height_of, lookup_name, next_base_fee_of}
use dnas.Core.Ledger.Apply.Name.{held_at}
use dnas.Core.Mempool.Rates.{tx_rate}
use dnas.Core.Mempool.Rules.{fails_at}

pub record SelCandidate : Type 0 where
  pub tx : Transaction
  pub hash : Str
  pub size : ℕ
  pub ops : ℕ
  pub rate : ℕ

abbrev pub is_register : NameOpKind → Bool
is_register NameOpKind.register = true
is_register _ = false

abbrev pub name_mineable : View → Option NameOp → Str → ℕ → Bool
name_mineable view none from height = true
name_mineable view (some op) from height =
    let rec = lookup_name view op.name in
    if is_register op.op
    then not (held_at rec height)
    else held_at rec height && str_eq rec.owner from

-- `nameOpMineable`, true of what is no name operation.
unfoldable pub name_op_mineable : View → Transaction → ℕ → Bool
unfolding lookup_name held_at str_eq
name_op_mineable view tx height = name_mineable view tx.name tx.from height

abbrev pub best_rate : ℕ → Option ℕ → ℕ
best_rate own none = own
best_rate own (some r) = if ltb own r then r else own

abbrev pub candidates_or_empty : Option (List SelCandidate) → List SelCandidate
candidates_or_empty none = []
candidates_or_empty (some cs) = cs

unfoldable pub insert_by_nonce : SelCandidate → List SelCandidate → List SelCandidate
insert_by_nonce c [] = c ∷ []
insert_by_nonce c (d ∷ ds) =
    let rest = insert_by_nonce c ds in if ltb d.tx.nonce c.tx.nonce then d ∷ rest else c ∷ d ∷ ds

unfoldable pub sort_by_nonce : List SelCandidate → List SelCandidate
unfolding insert_by_nonce
sort_by_nonce [] = []
sort_by_nonce (c ∷ cs) = insert_by_nonce c (sort_by_nonce cs)

module _ (env : Env) where
  -- What can go into the block whatever else does.
  unfoldable pub is_eligible : View → Transaction → Bool
  unfolding size check_tx_sanity check_tx_at_height name_op_mineable next_base_fee_of tip_height_of
  is_eligible view tx =
      let height = add64 (tip_height_of view) 1 in
      not (ltb tx.fee (mul64 (next_base_fee_of view) (size env tx)))
      && not (fails_at env (check_tx_sanity env tx))
      && not (fails_at env (check_tx_at_height env tx height))
      && name_op_mineable view tx height

module _ (env : Env) (quotient : ℕ → ℕ → ℕ) where
  unfoldable pub candidate_of : Map ℕ → Transaction → SelCandidate
  unfolding lookup size tx_hash tx_rate verify_ops
  candidate_of effective tx =
      let hash = tx_hash env tx in
      record {
        tx = tx;
        hash = hash;
        size = size env tx;
        ops = verify_ops tx;
        rate = best_rate (tx_rate env quotient tx) (lookup hash effective);
      }

  unfoldable pub group :
      View → Map ℕ → Map Transaction → Map (List SelCandidate) → Map (List SelCandidate)
  unfolding is_eligible candidate_of put lookup
  group view effective [] found = found
  group view effective ((h, tx) ∷ txs) found =
      let c = candidate_of effective tx in
      group view effective txs (
        if is_eligible env view tx
        then put tx.from (candidates_or_empty (lookup tx.from found) ++ (c ∷ [])) found
        else found)
