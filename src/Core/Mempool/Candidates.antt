-- ===== src/Core/Mempool/Candidates.antt =====
-- core/mempool.go: the candidates that `Select` groups, sorts and picks from.
use dnas.Base.{
  ℕ, ltb, ◌==◌, true, ◌&&◌, ◌||◌, Option, none, some, List, [], ◌∷◌, ◌++◌, All, All-append, ◌≡◌,
  refl, inl, inr, Bool-cases, ⊤, subst,
}
use dnas.Base.Str.{Str, str_eq, str_lt}
use dnas.Base.Map.{Map, lookup, put, lookup-put}
use dnas.Core.Env.{Env}
use dnas.Core.Tx.{Transaction}
use dnas.Core.Tx.Codec.{size}
use dnas.Core.Block.{verify_ops}
use dnas.Core.Chain.View.{View}
use dnas.Core.Mempool.Eligible.{
  SelCandidate, candidate_of, candidates_or_empty, group, insert_by_nonce, is_eligible,
  sort_by_nonce,
}
use dnas.Core.Mempool.Select.{
  Template, best_of, drop_past, is_ready, outbids, sim_of, sorted_runs, with_head,
}

-- A candidate carries its own size and cost, and may go into the block.
pub record IsSound (env : Env) (view : View) (c : SelCandidate) : Type 0 where
  pub sized : c.size ≡ size env c.tx
  pub costed : c.ops ≡ verify_ops c.tx
  pub eligible : is_eligible env view c.tx ≡ true

module _ (P : SelCandidate → Type 0) where
  insert_by_nonce-All :
      (c : SelCandidate) (cs : List SelCandidate) → P c → All P cs → All P (insert_by_nonce c cs)
  unfolding insert_by_nonce
  insert_by_nonce-All c [] p ps = (p, tt)
  insert_by_nonce-All c (d ∷ ds) p ps = elim (Bool-cases (ltb d.tx.nonce c.tx.nonce)) [
    | inl before ↦ rw before (ps.0, insert_by_nonce-All c ds p ps.1)
    | inr after ↦ rw after (p, ps)
  ]

  sort_by_nonce-All : (cs : List SelCandidate) → All P cs → All P (sort_by_nonce cs)
  unfolding sort_by_nonce
  sort_by_nonce-All [] ps = tt
  sort_by_nonce-All (c ∷ cs) ps =
      insert_by_nonce-All c (sort_by_nonce cs) ps.0 (sort_by_nonce-All cs ps.1)

  drop_past-All : (want : ℕ) (cs : List SelCandidate) → All P cs → All P (drop_past want cs)
  unfolding drop_past
  drop_past-All want [] ps = tt
  drop_past-All want (c ∷ cs) ps = elim (Bool-cases (ltb c.tx.nonce want)) [
    | inl past ↦ rw past (drop_past-All want cs ps.1)
    | inr due ↦ rw due ps
  ]

lookup-sorted_runs :
    (a : Str) (runs : Map (List SelCandidate))
    → sort_by_nonce (candidates_or_empty (lookup a runs))
      ≡ candidates_or_empty (lookup a (sorted_runs runs))
unfolding lookup sort_by_nonce
lookup-sorted_runs a [] = refl
lookup-sorted_runs a ((b, cs) ∷ runs) = elim (Bool-cases (str_eq b a)) [
  | inl same ↦ rw same refl
  | inr other ↦ rw other (lookup-sorted_runs a runs)
]

module _ (env : Env) (view : View) where
  abbrev pub Sound : SelCandidate → Type 0
  Sound c = IsSound env view c

  -- Every run holds sound candidates.
  abbrev pub SoundRuns : Map (List SelCandidate) → Type 0
  SoundRuns runs = (a : Str) → All Sound (candidates_or_empty (lookup a runs))

  candidate_of-IsSound :
      (quotient : ℕ → ℕ → ℕ) (effective : Map ℕ) (tx : Transaction)
      → is_eligible env view tx ≡ true
      → Sound (candidate_of env quotient effective tx)
  unfolding candidate_of
  candidate_of-IsSound quotient effective tx e = record {
    sized = refl;
    costed = refl;
    eligible = e;
  }

  put-SoundRuns :
      (k : Str) (cs : List SelCandidate) (runs : Map (List SelCandidate))
      → All Sound cs
      → SoundRuns runs
      → SoundRuns (put k cs runs)
  put-SoundRuns k cs runs new old a = elim (Bool-cases (str_eq k a)) [
    | inl same ↦ rw (lookup-put k a cs runs, same) new
    | inr other ↦ rw (lookup-put k a cs runs, other) (old a)
  ]

  pub group-SoundRuns :
      (quotient : ℕ → ℕ → ℕ) (effective : Map ℕ) (txs : Map Transaction)
      (found : Map (List SelCandidate))
      → SoundRuns found
      → SoundRuns (group env quotient view effective txs found)
  unfolding group
  group-SoundRuns quotient effective [] found sound = sound
  group-SoundRuns quotient effective ((h, tx) ∷ txs) found sound =
      let c = candidate_of env quotient effective tx in
      let before = candidates_or_empty (lookup tx.from found) in
      elim (Bool-cases (is_eligible env view tx)) [
        | inl e ↦ rw e (
            group-SoundRuns quotient effective txs (put tx.from (before ++ (c ∷ [])) found) (
              put-SoundRuns tx.from (before ++ (c ∷ [])) found
                (All-append Sound before (c ∷ []) (sound tx.from)
                  (candidate_of-IsSound quotient effective tx e, tt))
                sound))
        | inr e ↦ rw e (group-SoundRuns quotient effective txs found sound)
      ]

  pub sorted_runs-SoundRuns :
      (runs : Map (List SelCandidate)) → SoundRuns runs → SoundRuns (sorted_runs runs)
  sorted_runs-SoundRuns runs sound a =
      subst (All Sound) (lookup-sorted_runs a runs) (sort_by_nonce-All Sound _ (sound a))

  abbrev pub Best : Template → Option SelCandidate → Type 0
  Best t none = ⊤
  Best t (some c) = Sound c × (is_ready view c t ≡ true)

  outbids-Best :
      (t : Template) (c : SelCandidate) (best : Option SelCandidate)
      → Best t (some c)
      → Best t best
      → Best t (outbids c best)
  unfolding outbids
  outbids-Best t c none p b = p
  outbids-Best t c (some best) p b =
      elim (Bool-cases
        (ltb best.rate c.rate || ((c.rate == best.rate) && str_lt c.hash best.hash))) [
          | inl higher ↦ rw higher p
          | inr lower ↦ rw lower b
        ]

  with_head-Best :
      (t : Template) (cs : List SelCandidate) (best : Option SelCandidate)
      → All Sound cs
      → Best t best
      → Best t (with_head view t cs best)
  unfolding with_head
  with_head-Best t [] best sound b = b
  with_head-Best t (c ∷ cs) best sound b = elim (Bool-cases (is_ready view c t)) [
    | inl ready ↦ rw ready (outbids-Best t c best (sound.0, ready) b)
    | inr waits ↦ rw waits b
  ]

  pub best_of-Best :
      (runs : Map (List SelCandidate)) (t : Template) (senders : List Str)
      (best : Option SelCandidate)
      → SoundRuns runs
      → Best t best
      → Best t (best_of view runs t senders best)
  unfolding best_of
  best_of-Best runs t [] best sound b = b
  best_of-Best runs t (from ∷ senders) best sound b =
      let cs = candidates_or_empty (lookup from runs) in
      best_of-Best runs t senders _ sound (
        with_head-Best t (drop_past (sim_of view from t.cache).nonce cs) best
          (drop_past-All Sound (sim_of view from t.cache).nonce cs (sound from)) b)
