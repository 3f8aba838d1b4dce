-- ===== src/Core/Chain/Common.antt =====
-- core/blockchain.go: the fork that a locator leads to is the highest block that it lists.
use dnas.Base.{
  ℕ, zero, suc, ◌+◌, ◌-◌, ◌*◌, ◌≤◌, ◌<◌, ltb, if◌then◌else◌, none, some, List, [], ◌∷◌, get_elem?,
  length, ◌≡◌, refl, sym, ◌∙◌, true, false, arith, inl, inr, Bool-cases, ltb→lt, Option-cases, ap,
  ⊤,
}
use dnas.Base.Str.{Str, str_eq, str_eq→eq, str_eq_self, str_eq_iff}
use dnas.Core.Block.{Block}
use dnas.Core.Tx.Auth.{contains}
use dnas.Core.Chain.Reorg.{hash_or_none}
use dnas.Core.Chain.Locator.{height_of_hash, locator, locator_fork, locator_loop}

-- The hash at a height.
abbrev pub hash_at : List Block → ℕ → Str
hash_at blocks i = hash_or_none (get_elem? blocks i)

-- A hash stands at one height only, in both chains: it commits to the index of its header.
abbrev pub IsAligned : List Block → List Block → Type 0
IsAligned blocks other =
    (i j : ℕ) → i < length blocks → j < length other → hash_at blocks i ≡ hash_at other j → i ≡ j

-- The hashes of a chain at heights that fall, from below this one.
abbrev Descends : List Block → ℕ → List Str → Type 0
Descends other bound [] = ⊤
Descends other bound (h ∷ hashes) =
    (j : ℕ) × (j < bound) × (j < length other) × (hash_at other j ≡ h) × Descends other j hashes

lower-Descends :
    (blocks : List Block) (a b : ℕ) (hashes : List Str)
    → a ≤ b
    → Descends blocks a hashes
    → Descends blocks b hashes
lower-Descends blocks a b [] le d = tt
lower-Descends blocks a b (h ∷ hashes) le (j, below, within, hash, rest) =
    (j, omega (arith, below, le), within, hash, rest)

-- What a locator lists.
record IsLocator (blocks : List Block) (i taken : ℕ) (hashes : List Str) : Type 0 where
  pub falls : Descends blocks (i + 1) hashes
  pub genesis : contains (hash_at blocks 0) hashes ≡ true
  pub dense : (k : ℕ) → k ≤ i → i + taken ≤ k + 10 → contains (hash_at blocks k) hashes ≡ true

-- Each step of the loop goes down by one at least, and by one as long as there are at most ten.
locator_loop-IsLocator :
    (fuel : ℕ) (blocks : List Block) (i step taken : ℕ)
    → i ≤ fuel
    → i < length blocks
    → 0 < step
    → (taken ≤ 10 → step ≡ 1)
    → (hashes : List Str) × (locator_loop fuel blocks i step taken ≡ some hashes)
      × IsLocator blocks i taken hashes
unfolding locator_loop contains
locator_loop-IsLocator fuel blocks zero step taken fits within some_step slow = (
  hash_at blocks 0 ∷ [],
  refl,
  record {
    falls = (0, omega arith, within, refl, tt);
    genesis = ground (arith, str_eq_self (hash_at blocks 0));
    dense = λ k low near.
        let first : k ≡ 0 = omega (arith, low) in
        rw first (ground (arith, str_eq_self (hash_at blocks 0)));
  },
)
locator_loop-IsLocator zero blocks (suc i) step taken fits within some_step slow =
    absurd (omega arith)
locator_loop-IsLocator (suc fuel) blocks (suc i) step taken fits within some_step slow =
    let step' = if ltb 10 (taken + 1) then step * 2 else step in
    let larger : 0 < step' = ground arith in
    let slow' : taken + 1 ≤ 10 → step' ≡ 1 = λ few. ground (arith, slow) in
    let (rest, ran, l) =
      locator_loop-IsLocator fuel blocks (suc i - step') step' (taken + 1) (omega (arith, larger))
        (omega (arith, larger)) larger slow' in
    (
      hash_at blocks (suc i) ∷ rest,
      rw (locator_loop, ran) refl,
      record {
        falls = (
          suc i,
          omega arith,
          within,
          refl,
          lower-Descends blocks _ (suc i) rest (omega (arith, larger)) l.falls,
        );
        genesis = ground (arith, l.genesis);
        dense = λ k low near. elim (Bool-cases (ltb k (suc i))) [
          | inl below ↦
              let one : step' ≡ 1 = slow' (ground (arith, below, near)) in
              ground
                (arith, l.dense k (omega (arith, one, ltb→lt _ _ below)) (omega (arith, one, near)))
          | inr top ↦
              let same : k ≡ suc i = ground (arith, top, low) in
              rw same (ground (arith, str_eq_self (hash_at blocks (suc i))))
        ];
      },
    )

some_height : {a b : ℕ} → some a ≡ some b → a ≡ b
some_height h = cc

no_height : {n : ℕ} → none ≡ some n → ⊥
no_height h = cc

height_of_hash-ok :
    (blocks : List Block) (i : ℕ) (h : Str) (n : ℕ)
    → height_of_hash blocks i h ≡ some n
    → (k : ℕ) × (n ≡ i + k) × (k < length blocks) × (hash_at blocks k ≡ h)
unfolding height_of_hash
height_of_hash-ok [] i h n found = absurd cc
height_of_hash-ok (b ∷ blocks) i h n found = elim (Option-cases (height_of_hash blocks (i + 1) h)) [
  | inl later ↦ elim (Bool-cases (str_eq b.hash h)) [
    | inl same ↦
        let here : some i ≡ some n = rw (later, height_of_hash, same) at found in
        (0, omega (arith, some_height here), omega arith, str_eq→eq b.hash h same)
    | inr other ↦ absurd (no_height (rw (later, height_of_hash, other) at found))
  ]
  | inr (m, later) ↦
      let there : some m ≡ some n = rw (later, height_of_hash) at found in
      let (k, at, within, hash) = height_of_hash-ok blocks (i + 1) h m later in
      (suc k, omega (arith, at, some_height there), omega (arith, within), hash)
]

some_missing : {n : ℕ} → some n ≡ none → ⊥
some_missing h = cc

missing_at :
    (b : Block) (blocks : List Block) (h : Str) (k : ℕ)
    → str_eq b.hash h ≡ false
    → ((i : ℕ) → i < length blocks → str_eq (hash_at blocks i) h ≡ false)
    → k < length (b ∷ blocks)
    → str_eq (hash_at (b ∷ blocks) k) h ≡ false
missing_at b blocks h zero other later within = other
missing_at b blocks h (suc k) other later within = later k (omega arith)

height_of_hash-missing :
    (blocks : List Block) (i : ℕ) (h : Str)
    → height_of_hash blocks i h ≡ none
    → (k : ℕ) → k < length blocks
    → str_eq (hash_at blocks k) h ≡ false
unfolding height_of_hash
height_of_hash-missing [] i h missing k within = absurd (omega arith)
height_of_hash-missing (b ∷ blocks) i h missing k within =
    elim (Option-cases (height_of_hash blocks (i + 1) h)) [
      | inr (m, later) ↦ absurd (some_missing (rw (later, height_of_hash) at missing))
      | inl later ↦ elim (Bool-cases (str_eq b.hash h)) [
        | inl same ↦ absurd (some_missing (rw (later, height_of_hash, same) at missing))
        | inr other ↦
            missing_at b blocks h k other (height_of_hash-missing blocks (i + 1) h later) within
      ]
    ]

-- A hash that is listed stands at a height below the bound.
Descends-contains :
    (other : List Block) (bound : ℕ) (hashes : List Str) (h : Str)
    → Descends other bound hashes
    → contains h hashes ≡ true
    → (j : ℕ) × (j < bound) × (j < length other) × (hash_at other j ≡ h)
unfolding contains
Descends-contains other bound [] h d listed = absurd cc
Descends-contains other bound (x ∷ hashes) h (j, below, within, hash, rest) listed =
    elim (Bool-cases (str_eq x h)) [
      | inl same ↦ (j, below, within, hash ∙ str_eq→eq x h same)
      | inr different ↦
          let (j', below', within', found) =
            Descends-contains other j hashes h rest (rw different at listed) in
          (j', omega (arith, below, below'), within', found)
    ]

unlisted :
    (x h : Str) (hashes : List Str)
    → str_eq h x ≡ false
    → contains h (x ∷ hashes) ≡ true
    → contains h hashes ≡ true
unfolding contains
unlisted x h hashes other listed = ground (arith, str_eq_iff x h, str_eq_iff h x)

-- Where a locator leads to, in a chain that knows one of its hashes.
record IsLead (blocks : List Block) (hashes : List Str) (fork : ℕ) : Type 0 where
  pub within : fork < length blocks
  pub listed : contains (hash_at blocks fork) hashes ≡ true
  pub highest : (k : ℕ) → k < length blocks → contains (hash_at blocks k) hashes ≡ true → k ≤ fork

locator_fork-IsLead :
    (blocks other : List Block) (bound : ℕ) (hashes : List Str)
    → IsAligned blocks other
    → Descends other bound hashes
    → (known : ℕ) → known < length blocks
    → contains (hash_at blocks known) hashes ≡ true
    → IsLead blocks hashes (locator_fork blocks hashes)
unfolding locator_fork contains
locator_fork-IsLead blocks other bound [] aligned d known in_blocks listed = absurd cc
locator_fork-IsLead blocks other bound (h ∷ hashes) aligned (j, below, within, hash, rest) known
      in_blocks listed =
    elim (Option-cases (height_of_hash blocks 0 h)) [
      | inl unknown ↦
          let missing = height_of_hash-missing blocks 0 h unknown in
          let l =
            locator_fork-IsLead blocks other j hashes aligned rest known in_blocks
              (unlisted h (hash_at blocks known) hashes (missing known in_blocks) listed) in
          rw (unknown, locator_fork)
            (record {
              within = l.within;
              listed = ground (arith, l.listed);
              highest = λ k low at.
                  l.highest k low (unlisted h (hash_at blocks k) hashes (missing k low) at);
            })
      | inr (n, found) ↦
          let (k, at, low, same) = height_of_hash-ok blocks 0 h n found in
          let here : n ≡ k = omega (arith, at) in
          let level : k ≡ j = aligned k j low within (same ∙ sym hash) in
          rw (found, locator_fork, here)
            (record {
              within = low;
              listed = rw same (ground (arith, str_eq_self h));
              highest = λ i in_range at.
                  let (j', below', within', hash') =
                    Descends-contains other (j + 1) (h ∷ hashes) (hash_at blocks i)
                      (j, omega arith, within, hash, rest) at in
                  omega (arith, aligned i j' in_range within' (sym hash'), below', level);
            })
    ]

-- What the fork and the locator are to each other. The fork is a height of both chains with the same
-- hash, which the locator lists; no higher block of the chain is listed; and the locator lists the last
-- eleven blocks of its own chain.
pub record IsFork (blocks other : List Block) (hashes : List Str) (fork : ℕ) : Type 0 where
  pub within : fork < length blocks
  pub listed : contains (hash_at blocks fork) hashes ≡ true
  pub shared : (fork < length other) × (hash_at other fork ≡ hash_at blocks fork)
  pub highest : (k : ℕ) → k < length blocks → contains (hash_at blocks k) hashes ≡ true → k ≤ fork
  pub recent :
      (k : ℕ) → k < length other → length other ≤ k + 11 → contains (hash_at other k) hashes ≡ true

-- Where two chains share their first hash, and a hash stands at one height only: the locator of the one
-- is built and lists its last eleven blocks, and the height that the other finds by it is that of the
-- most recent of its own blocks that the locator lists, where both chains have the same hash.
pub locator-locator_fork :
    (blocks other : List Block)
    → 0 < length blocks
    → 0 < length other
    → hash_at blocks 0 ≡ hash_at other 0
    → IsAligned blocks other
    → (hashes : List Str) × (locator other ≡ some hashes)
      × IsFork blocks other hashes (locator_fork blocks hashes)
unfolding locator
locator-locator_fork blocks other filled other_filled first aligned =
    let (hashes, built, l) =
      locator_loop-IsLocator (length other) other (length other - 1) 1 0 (omega arith) (omega arith)
        (omega arith) (λ few. refl) in
    let leads =
      locator_fork-IsLead blocks other (length other - 1 + 1) hashes aligned l.falls 0 filled
        (rw first l.genesis) in
    let fork = locator_fork blocks hashes in
    let (j, below, within, hash) =
      Descends-contains other (length other - 1 + 1) hashes (hash_at blocks fork) l.falls
        leads.listed in
    let level : fork ≡ j = aligned fork j leads.within within (sym hash) in
    (
      hashes,
      built,
      record {
        within = leads.within;
        listed = leads.listed;
        shared = (omega (arith, level, within), ap (hash_at other) level ∙ hash);
        highest = leads.highest;
        recent = λ k low near. l.dense k (omega (arith, low)) (omega (arith, near));
      },
    )
