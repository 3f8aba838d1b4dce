-- ===== src/Core/Mempool/Nonces.antt =====
-- The nonces of a queue as a list without repetition, and its sorting.
use dnas.Base.{
  ℕ, leb, ◌==◌, Bool, true, false, ◌||◌, is_some, List, [], ◌∷◌, map, ◌≡◌, refl, ◌∙◌, ap, arith,
  inl, inr, Bool-cases, ⊤,
}
use dnas.Base.Map.Nat.{lookup_nat, IsNatMap}
use dnas.Core.Chain.Rules.{insert_sorted, sort_times}
use dnas.Core.Mempool.{Queue}

-- A set of nonces as a list.
abbrev pub is_member : ℕ → List ℕ → Bool
is_member j [] = false
is_member j (n ∷ ns) = (n == j) || is_member j ns

abbrev pub IsNodup : List ℕ → Type 0
IsNodup [] = ⊤
IsNodup (n ∷ ns) = (is_member n ns ≡ false) × IsNodup ns

is_member-insert_sorted :
    (j t : ℕ) (ns : List ℕ) → is_member j (insert_sorted t ns) ≡ (t == j) || is_member j ns
unfolding insert_sorted
is_member-insert_sorted j t [] = refl
is_member-insert_sorted j t (n ∷ ns) = ground (arith, is_member-insert_sorted j t ns)

pub is_member-sort_times : (j : ℕ) (ns : List ℕ) → is_member j (sort_times ns) ≡ is_member j ns
unfolding sort_times
is_member-sort_times j [] = refl
is_member-sort_times j (n ∷ ns) =
    ground (arith, is_member-insert_sorted j n (sort_times ns), is_member-sort_times j ns)

insert_sorted-IsNodup :
    (t : ℕ) (ns : List ℕ) → is_member t ns ≡ false → IsNodup ns → IsNodup (insert_sorted t ns)
unfolding insert_sorted
insert_sorted-IsNodup t [] fresh d = (refl, tt)
insert_sorted-IsNodup t (n ∷ ns) fresh d = elim (Bool-cases (leb t n)) [
  | inl first ↦ rw first (fresh, d)
  | inr later ↦ rw later (
    ground (arith, is_member-insert_sorted n t ns, d.0),
    insert_sorted-IsNodup t ns (ground arith) d.1,
  )
]

pub sort_times-IsNodup : (ns : List ℕ) → IsNodup ns → IsNodup (sort_times ns)
unfolding sort_times
sort_times-IsNodup [] d = tt
sort_times-IsNodup (n ∷ ns) d =
    insert_sorted-IsNodup n (sort_times ns) (is_member-sort_times n ns ∙ d.0)
      (sort_times-IsNodup ns d.1)

abbrev pub nonces_of : Queue → List ℕ
nonces_of q = map (λ e. e.0) q

pub is_member-nonces_of : (j : ℕ) (q : Queue) → is_member j (nonces_of q) ≡ is_some (lookup_nat j q)
unfolding lookup_nat
is_member-nonces_of j [] = refl
is_member-nonces_of j ((n, h) ∷ q) = ground (arith, is_member-nonces_of j q)

pub nonces_of-IsNodup : (q : Queue) → IsNatMap q → IsNodup (nonces_of q)
nonces_of-IsNodup [] is_map = tt
nonces_of-IsNodup ((n, h) ∷ q) is_map =
    (is_member-nonces_of n q ∙ ap is_some is_map.0, nonces_of-IsNodup q is_map.1)

pub ==→eq : (a b : ℕ) → (a == b) ≡ true → a ≡ b
==→eq a b h = ground arith
