-- ===== src/Core/Valcache.antt =====
-- core/valcache.go: `ValidationCache`, the ids of the transactions whose authorization was checked.
-- A nil cache checks every time and keeps nothing.
use dnas.Base.{
  ℕ, leb, ◌==◌, if◌then◌else◌, Option, none, some, is_some, List, [], ◌∷◌, ◌++◌, length, ⊤,
}
use dnas.Base.Str.{Str}
use dnas.Base.Map.{Map, lookup, put, delete}
use dnas.Base.Result.{ok, err}
use dnas.Core.Env.{Env}
use dnas.Core.Tx.{Transaction}
use dnas.Core.Tx.Codec.{tx_hash}
use dnas.Core.Tx.Shape.{Check}
use dnas.Core.Tx.Auth.{verify_signature}

abbrev pub default_validation_cache_size : ℕ
default_validation_cache_size = 100_000

pub record ValidationCache : Type 0 where
  pub max : ℕ
  pub verified : Map ⊤
  pub order : List Str

unfoldable pub new_validation_cache : ℕ → ValidationCache
new_validation_cache max = record {
  max = if max == 0 then default_validation_cache_size else max;
  verified = [];
  order = [];
}

-- On an empty order Go would panic; a cache holds at least one id.
abbrev oldest_out : List Str → ValidationCache → ValidationCache
oldest_out [] c = c
oldest_out (oldest ∷ order) c = record c { verified = delete oldest c.verified; order = order }

unfoldable pub mark : Str → ValidationCache → ValidationCache
unfolding lookup put delete
mark h c =
    let kept = if leb c.max (length c.order) then oldest_out c.order c else c in
    if is_some (lookup h c.verified)
    then c
    else record kept { verified = put h tt kept.verified; order = kept.order ++ (h ∷ []) }

abbrev marked : Str → ValidationCache → Check → Check × Option ValidationCache
marked h c (ok _) = (ok tt, some (mark h c))
marked h c (err e) = (err e, some c)

-- `Verify`
unfoldable pub verify_cached :
    Env → Transaction → Option ValidationCache → Check × Option ValidationCache
unfolding lookup tx_hash verify_signature mark
verify_cached env tx none = (verify_signature env tx, none)
verify_cached env tx (some c) =
    if is_some (lookup (tx_hash env tx) c.verified)
    then (ok tt, some c)
    else marked (tx_hash env tx) c (verify_signature env tx)
