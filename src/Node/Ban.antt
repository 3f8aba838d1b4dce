-- ===== src/Node/Ban.antt =====
-- node/ban.go: `banbook`, the scores of misbehaving peers. A score, a number of points and the threshold
-- are Go's int, of 64 bits: the numbers below 2 ^ 64, in two's complement.
pub mod Scores
use dnas.Base.{
  ℕ, ◌+◌, ◌^◌, add64, ltb, leb, if◌then◌else◌, Bool, true, false, is_empty, Option, is_some,
  or_zero, List, [], ◌∷◌,
}
use dnas.Base.Str.{Str}
use dnas.Base.Map.{Map, lookup, put, delete}

pub record Banbook : Type 0 where
  pub score : Map ℕ
  pub threshold : ℕ

unfoldable pub new_banbook : ℕ → Banbook
new_banbook threshold = record { score = []; threshold = threshold }

-- `b.score[key]`, 0 on a missing key.
unfoldable pub score_of : Str → Banbook → ℕ
unfolding lookup
score_of key b = or_zero (lookup key b.score)

-- `score >= threshold` of signed numbers.
abbrev at_threshold : ℕ → ℕ → Bool
at_threshold score threshold = leb (add64 threshold (2 ^ 63)) (add64 score (2 ^ 63))

-- Whether `key` is banned now, and the book.
unfoldable pub add : Str → ℕ → Banbook → Bool × Banbook
unfolding score_of put
add key points b = if is_empty key then (false, b) else (
  at_threshold (add64 (score_of key b) points) b.threshold,
  record b { score = put key (add64 (score_of key b) points) b.score },
)

unfoldable pub banned : Str → Banbook → Bool
unfolding score_of
banned key b = if is_empty key then false else at_threshold (score_of key b) b.threshold

unfoldable pub clear : Str → Banbook → Bool × Banbook
unfolding lookup delete
clear key b =
    if is_some (lookup key b.score)
    then (true, record b { score = delete key b.score })
    else (false, b)

-- `snapshot` copies the scores.
unfoldable pub snapshot : Banbook → Map ℕ
snapshot b = b.score

unfoldable pub restore_scores : Map ℕ → Map ℕ → Map ℕ
unfolding put
restore_scores [] score = score
restore_scores ((k, v) ∷ scores) score = restore_scores scores (put k v score)

unfoldable pub restore : Map ℕ → Banbook → Banbook
unfolding restore_scores
restore scores b = record b { score = restore_scores scores b.score }
