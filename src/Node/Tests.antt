-- ===== src/Node/Tests.antt =====
-- node: the set of seen hashes, the orphan pool, the table of requests and the ban scores on concrete
-- data.
use dnas.Base.{
  none, length, ◌<◌, ◌^◌, is_empty, arith, ◌+◌, ◌≤◌, ◌≡◌, refl, if◌then◌else◌, true, not, ◌&&◌,
  ◌||◌, ltb, is_some, [], ◌∷◌,
}
use dnas.Base.Str.{str_eq, codes}
use dnas.Base.Map.{lookup}
use dnas.Node.Seen.{new_seen_set, seen, len, has}
use dnas.Node.Seen.Bound.{IsSeenSet, new_seen_set-IsSeenSet, seen-IsSeenSet}
use dnas.Samples.{env, block}
use dnas.Node.Orphan.{
  OrphanPool, new_orphan_pool, add_orphan, block_bytes, holds, take_children, waiting,
}
use dnas.Node.Orphan.Filed.{IsUnder}
use dnas.Node.Orphan.Bound.{IsPool}
use dnas.Node.Orphan.Pool.{IsAnswered, add_orphan-IsPool, new_orphan_pool-IsPool}
use dnas.Node.Orphan.Children.{leaving_bytes, take_children-IsPool}
use dnas.Node.TxRelay.{
  TxRequests, claim, done, new_tx_requests, max_tx_in_flight, tx_request_timeout,
}
use dnas.Node.TxRelay.Requests.{
  IsTxRequests, new_tx_requests-IsTxRequests, claim-IsTxRequests, claim-claim, done-IsTxRequests,
}
use dnas.Node.Ban.{Banbook, new_banbook, score_of, add, banned, snapshot, restore}
use dnas.Node.Ban.Scores.{add_scores, restore-snapshot}

seen-IsSeenSet_example :
    (let after = (seen (codes "tx") (new_seen_set 2)).1 in
      IsSeenSet after
      × (len after ≤ 2)
      × ((seen (codes "tx") (new_seen_set 2)).0 ≡ has (codes "tx") (new_seen_set 2))
      × (has (codes "tx") after ≡ true))
unfolding new_seen_set
seen-IsSeenSet_example = seen-IsSeenSet (codes "tx") (new_seen_set 2) (new_seen_set-IsSeenSet 2)

abbrev book : Banbook
book = record { score = (codes "p", 80) ∷ (codes "q", 34) ∷ []; threshold = 100 }

small_score : score_of (codes "p") book + 20 < 2 ^ 63
unfolding score_of lookup str_eq
small_score = omega arith

add_scores_example :
    (score_of (codes "q") (add (codes "p") 20 book).1 ≡ (
      if str_eq (codes "p") (codes "q")
      then score_of (codes "q") book + 20
      else score_of (codes "q") book))
    × ((add (codes "p") 20 book).0 ≡ banned (codes "p") (add (codes "p") 20 book).1)
    × ((not (banned (codes "q") book) || banned (codes "q") (add (codes "p") 20 book).1) ≡ true)
add_scores_example = add_scores (codes "p") 20 book (codes "q") refl small_score

restore-snapshot_example :
    (score_of (codes "q") (restore (snapshot book) (new_banbook 100)) ≡ score_of (codes "q") book)
    × (banned (codes "q") (restore (snapshot book) (new_banbook 100)) ≡ banned (codes "q") book)
unfolding lookup str_eq
restore-snapshot_example = restore-snapshot book (refl, (refl, tt)) (codes "q")

abbrev pool : OrphanPool
pool = new_orphan_pool 2 100_000

abbrev pool_with : OrphanPool
pool_with = (add_orphan env block pool).1

add_orphan-IsPool_example :
    IsPool env pool_with
    × IsAnswered block pool (add_orphan env block pool)
    × ((add_orphan env block pool).0 ≡ (
        not (is_some (lookup block.hash pool.have))
        && not (ltb pool.max_bytes (block_bytes env block))))
    × (is_some (lookup block.hash pool_with.have)
        ≡ (is_some (lookup block.hash pool.have) || (add_orphan env block pool).0))
add_orphan-IsPool_example = add_orphan-IsPool env block pool (new_orphan_pool-IsPool env 2 100_000)

pool_with-IsPool : IsPool env pool_with
pool_with-IsPool = (add_orphan-IsPool env block pool (new_orphan_pool-IsPool env 2 100_000)).0

take_children-IsPool_example :
    (let taken = take_children block.prev_hash pool_with in
      IsPool env taken.1
      × IsUnder block.prev_hash taken.0
      × (is_empty (waiting (lookup block.prev_hash taken.1.by_prev)) ≡ true)
      × (is_some (lookup block.hash taken.1.have)
          ≡ (is_some (lookup block.hash pool_with.have) && not (holds block.hash taken.0)))
      × (taken.1.bytes + leaving_bytes env taken.0 ≡ pool_with.bytes))
take_children-IsPool_example =
    take_children-IsPool env block.prev_hash pool_with block.hash pool_with-IsPool

abbrev asked : TxRequests
asked = (claim (codes "tx") 5 new_tx_requests).1

claim-IsTxRequests_example : IsTxRequests asked × (length asked.at ≤ max_tx_in_flight)
claim-IsTxRequests_example =
    claim-IsTxRequests (codes "tx") 5 new_tx_requests new_tx_requests-IsTxRequests

claim-claim_example :
    (claim (codes "tx") 8 (claim (codes "tx") 5 new_tx_requests).1).0
    ≡ not (ltb 8 (5 + tx_request_timeout))
unfolding claim
claim-claim_example = claim-claim (codes "tx") 5 8 new_tx_requests refl

done-IsTxRequests_example :
    IsTxRequests (done (codes "tx") asked)
    × (lookup (codes "ty") (done (codes "tx") asked).at
        ≡ (if str_eq (codes "tx") (codes "ty") then none else lookup (codes "ty") asked.at))
    × ((claim (codes "tx") 9 (done (codes "tx") asked)).0 ≡ true)
done-IsTxRequests_example =
    done-IsTxRequests (codes "tx") (codes "ty") 9 asked
      (claim-IsTxRequests (codes "tx") 5 new_tx_requests new_tx_requests-IsTxRequests).0
