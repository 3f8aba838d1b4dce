-- ===== src/Node/TxRelay.antt =====
-- node/txrelay.go: `txRequests`, the bodies of transactions that were asked for. Times are nanoseconds;
-- `now.Sub(at)` is negative when the clock went back, so the test compares sums. The mutex is left out,
-- each operation is one step.
pub mod Requests
use dnas.Base.{
  ℕ, ◌+◌, ◌*◌, ◌^◌, ltb, leb, if◌then◌else◌, Bool, true, false, Option, none, some, is_some, List,
  [], ◌∷◌, ◌++◌, length,
}
use dnas.Base.Str.{Str, str_eq}
use dnas.Base.Map.{Map, lookup, put, delete}
use dnas.Node.Orphan.{remove_first}

abbrev pub tx_request_timeout : ℕ
tx_request_timeout = 30 * 10 ^ 9

abbrev pub max_tx_in_flight : ℕ
max_tx_in_flight = 8192

pub record TxRequests : Type 0 where
  pub at : Map ℕ
  pub ord : List Str

abbrev pub new_tx_requests : TxRequests
new_tx_requests = record { at = []; ord = [] }

-- Asked for less than the timeout ago.
unfoldable pub in_flight : ℕ → Option ℕ → Bool
in_flight now none = false
in_flight now (some at) = ltb now (at + tx_request_timeout)

unfoldable pub drop_oldest : List Str → Map ℕ → TxRequests
unfolding delete
drop_oldest [] at = record { at = at; ord = [] }
drop_oldest (oldest ∷ ord) at = record { at = delete oldest at; ord = ord }

-- A hash that is not in the table joins the queue, in the place of the oldest when the table is full.
unfoldable pub enqueue : Str → TxRequests → TxRequests
unfolding drop_oldest
enqueue h r =
    let kept = if leb max_tx_in_flight (length r.ord) then drop_oldest r.ord r.at else r in
    record kept { ord = kept.ord ++ (h ∷ []) }

unfoldable pub request : Str → ℕ → TxRequests → TxRequests
unfolding enqueue lookup put
request h now r =
    let queued = if is_some (lookup h r.at) then r else enqueue h r in
    record queued { at = put h now queued.at }

unfoldable pub claim : Str → ℕ → TxRequests → Bool × TxRequests
unfolding in_flight request lookup
claim h now r = if in_flight now (lookup h r.at) then (false, r) else (true, request h now r)

-- `done`; the loop over the queue is `remove_first`.
unfoldable pub done : Str → TxRequests → TxRequests
unfolding lookup delete
done h r =
    if is_some (lookup h r.at) then record { at = delete h r.at; ord = remove_first h r.ord } else r
