-- ===== src/Node/Ban/Scores.antt =====
-- node/ban.go: what each operation does to every key's score.
use dnas.Base.{
  ℕ, ◌+◌, ◌^◌, add64, ◌<◌, ◌≡◌, refl, if◌then◌else◌, true, false, not, ◌||◌, is_empty, is_some, [],
  ◌∷◌, arith,
}
use dnas.Base.Str.{Str, str_eq, str_eq_iff, str_eq_self}
use dnas.Base.Map.{Map, lookup, put, IsMap, lookup-put, lookup-put_self, lookup-delete}
use dnas.Node.Ban.{
  Banbook, new_banbook, score_of, add, banned, clear, snapshot, restore_scores, restore,
}

-- `add` raises the score of its key by the points and no other score, and its answer is the one that
-- `banned` gives afterwards; a key that was banned still is. (The key is not empty, and its score and
-- the points are not negative and do not overflow an int together.)
pub add_scores :
    (key : Str) (points : ℕ) (b : Banbook) (k : Str)
    → is_empty key ≡ false
    → score_of key b + points < 2 ^ 63
    → (score_of k (add key points b).1
        ≡ (if str_eq key k then score_of k b + points else score_of k b))
      × ((add key points b).0 ≡ banned key (add key points b).1)
      × ((not (banned k b) || banned k (add key points b).1) ≡ true)
unfolding add banned score_of
add_scores key points b k named small = (
  ground (arith, lookup-put key k (add64 (score_of key b) points) b.score, str_eq_iff key k),
  ground (arith, lookup-put_self key (add64 (score_of key b) points) b.score),
  ground (arith, lookup-put key k (add64 (score_of key b) points) b.score, str_eq_iff key k),
)

-- After `clear` its key has no score and is not banned, and every other score is kept. (The threshold is
-- positive, and no key stands twice in the book.)
pub clear_scores :
    (key : Str) (b : Banbook) (k : Str)
    → IsMap b.score
    → 0 < b.threshold
    → b.threshold < 2 ^ 63
    → (score_of k (clear key b).1 ≡ (if str_eq key k then 0 else score_of k b))
      × (banned key (clear key b).1 ≡ false)
unfolding clear banned score_of
clear_scores key b k m set int = (
  ground (arith, lookup-delete key k b.score m, str_eq_iff key k),
  ground (arith, lookup-delete key key b.score m, str_eq_self key),
)

restored :
    (scores score : Map ℕ) (k : Str)
    → IsMap scores
    → lookup k (restore_scores scores score)
      ≡ (if is_some (lookup k scores) then lookup k scores else lookup k score)
unfolding restore_scores lookup
restored [] score k m = refl
restored ((j, v) ∷ scores) score k m =
    ground
      (arith, restored scores (put j v score) k m.1, lookup-put j k v score, str_eq_iff j k, m.0)

-- Scores that are saved and restored into a new book are the scores, and the same keys are banned.
-- (No key stands twice in the book.)
pub restore-snapshot :
    (b : Banbook)
    → IsMap b.score
    → (k : Str)
    → (score_of k (restore (snapshot b) (new_banbook b.threshold)) ≡ score_of k b)
      × (banned k (restore (snapshot b) (new_banbook b.threshold)) ≡ banned k b)
unfolding restore snapshot new_banbook score_of banned
restore-snapshot b m k = ground (arith, restored b.score [] k m)
