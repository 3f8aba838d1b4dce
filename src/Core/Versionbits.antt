-- ===== src/Core/Versionbits.antt =====
-- core/versionbits.go: miner signaling and `evaluateDeployment`; core/block.go: headers. The walk over
-- the windows runs on fuel, two more than the tip's index, which is enough for a window of at least
-- one block. `none` is a loop out of fuel or a panic: an int has 64 bits, and a height from 2 ^ 63 on is
-- negative as an int, so that the guard of `signalsIn` lets it pass and the indexing panics.
pub mod Evidence
use dnas.Base.{
  ℕ, zero, suc, ◌+◌, ◌-◌, ◌*◌, ◌/◌, ◌%◌, ◌^◌, ltb, leb, ◌==◌, if◌then◌else◌, Bool, true, false, not,
  ◌&&◌, ◌||◌, Option, none, some, List, [], ◌∷◌, get_elem?, length, is_empty, add64, sub64, mul64,
}
use dnas.Base.Str.{Str, codes, str_eq}
use dnas.Core.Block.{Block}
use dnas.Core.Tx.Auth.{contains}

pub record Header : Type 0 where
  pub version : ℕ
  pub index : ℕ
  pub timestamp : ℕ
  pub prev_hash : Str
  pub merkle_root : Str
  pub state_root : Str
  pub base_fee : ℕ
  pub bits : ℕ
  pub nonce : ℕ
  pub hash : Str
  pub filter_root : Str
  pub history_root : Str

-- `Block.Header`
unfoldable pub header : Block → Header
header b = record {
  version = b.version;
  index = b.index;
  timestamp = b.timestamp;
  prev_hash = b.prev_hash;
  merkle_root = b.merkle_root;
  state_root = b.state_root;
  base_fee = b.base_fee;
  bits = b.bits;
  nonce = b.nonce;
  hash = b.hash;
  filter_root = b.filter_root;
  history_root = b.history_root;
}

pub data DeploymentState : Type 0 where
  defined started locked_in active failed : DeploymentState

pub record Deployment : Type 0 where
  pub name : Str
  pub bit : ℕ
  pub start : ℕ
  pub timeout : ℕ
  pub window : ℕ
  pub threshold : ℕ

abbrev pub max_deployment_bit : ℕ
max_deployment_bit = 28

-- core/upgrade.go: `knownUpgrades`
abbrev pub known_upgrades : List Str
known_upgrades =
    codes "dustlimit"
    ∷ codes "multioutput"
    ∷ codes "vault"
    ∷ codes "feesponsor"
    ∷ codes "checkedaddresses"
    ∷ codes "uniquecoinbase"
    ∷ codes "assetops"
    ∷ codes "filtercommit"
    ∷ codes "historyroot"
    ∷ codes "nonfungible"
    ∷ codes "nameservice"
    ∷ codes "script"
    ∷ []

-- `Deployment.Validate`, whether it returns no error.
unfoldable pub validate : Deployment → Bool
unfolding contains
validate d =
    not (is_empty d.name)
    && contains d.name known_upgrades
    && not (ltb max_deployment_bit d.bit)
    && not (d.window == 0)
    && not (d.threshold == 0 || ltb d.window d.threshold)
    && not (ltb d.timeout (add64 d.start d.window))

-- `Header.Signals`: the top three bits of the 32 are 001, and the bit is set.
unfoldable pub signals : ℕ → Header → Bool
signals bit h =
    if ltb max_deployment_bit bit
    then false
    else (h.version / 2 ^ 29 % 8 == 1) && (h.version / 2 ^ bit % 2 == 1)

abbrev voted : ℕ → Option Header → ℕ
unfolding signals
voted bit none = 0
voted bit (some h) = if signals bit h then 1 else 0

-- What the header at height `h` adds.
unfoldable pub vote_at : List Header → ℕ → ℕ → Option ℕ
unfolding voted
vote_at headers bit h = if leb (2 ^ 63) h then none else some (voted bit (get_elem? headers h))

abbrev pub plus_votes : Option ℕ → Option ℕ → Option ℕ
plus_votes none votes = none
plus_votes (some n) none = none
plus_votes (some n) (some votes) = some (n + votes)

-- The loop of `signalsIn` for the rounds left, at height `h`.
unfoldable pub signals_loop : List Header → ℕ → ℕ → ℕ → Option ℕ
unfolding vote_at
signals_loop headers bit zero h = some 0
signals_loop headers bit (suc n) h =
    plus_votes (vote_at headers bit h) (signals_loop headers bit n (h + 1))

unfoldable pub signals_in : List Header → Deployment → ℕ → Option ℕ
unfolding signals_loop
signals_in headers d from = signals_loop headers d.bit (add64 from d.window - from) from

pub record DeploymentStatus : Type 0 where
  pub state : DeploymentState
  pub since : ℕ
  pub activation : ℕ
  pub window_start : ℕ
  pub signals : ℕ
  pub elapsed : ℕ

unfoldable pub status_defined : DeploymentStatus
status_defined = record {
  state = DeploymentState.defined;
  since = 0;
  activation = 0;
  window_start = 0;
  signals = 0;
  elapsed = 0;
}

abbrev pub then_some : {A B : Type 0} → Option A → (A → Option B) → Option B
then_some none k = none
then_some (some a) k = k a

-- What the votes of the window before make of a deployment that has started.
abbrev pub decided : Deployment → ℕ → ℕ → DeploymentStatus → DeploymentStatus
decided d win votes st =
    if leb d.threshold votes
    then record st {
      state = DeploymentState.locked_in;
      since = win;
      activation = add64 win d.window;
    }
    else if ltb d.timeout win
    then record st { state = DeploymentState.failed; since = win }
    else st

-- What a window that starts at `win` makes of the state.
unfoldable pub next_state :
    List Header → Deployment → ℕ → DeploymentState → DeploymentStatus → Option DeploymentStatus
unfolding signals_in
next_state headers d win DeploymentState.started st =
    then_some (signals_in headers d (sub64 win d.window)) (λ votes. some (decided d win votes st))
next_state headers d win DeploymentState.locked_in st =
    some (record st { state = DeploymentState.active; since = win; activation = win })
next_state headers d win DeploymentState.defined st = some st
next_state headers d win DeploymentState.active st = some st
next_state headers d win DeploymentState.failed st = some st

-- The body of the loop for window `k`.
unfoldable pub enter_window :
    List Header → Deployment → ℕ → ℕ → DeploymentStatus → Option DeploymentStatus
unfolding next_state
enter_window headers d k win st =
    if k == 0
    then some (record st { state = DeploymentState.started; since = win; window_start = win })
    else next_state headers d win st.state (record st { window_start = win })

unfoldable pub windows_loop :
    ℕ → List Header → Deployment → ℕ → ℕ → DeploymentStatus → Option DeploymentStatus
unfolding enter_window
windows_loop zero headers d tip k st = none
windows_loop (suc n) headers d tip k st =
    let win = add64 d.start (mul64 k d.window) in
    let rest =
      then_some (enter_window headers d k win st)
        (λ st'. windows_loop n headers d tip (k + 1) st') in
    if ltb tip win then some st else rest

unfoldable pub is_defined : DeploymentState → Bool
is_defined DeploymentState.defined = true
is_defined DeploymentState.started = false
is_defined DeploymentState.locked_in = false
is_defined DeploymentState.active = false
is_defined DeploymentState.failed = false

-- The counters of the window in progress.
unfoldable pub in_progress :
    List Header → Deployment → ℕ → Option DeploymentStatus → Option DeploymentStatus
unfolding signals_in is_defined
in_progress headers d tip none = none
in_progress headers d tip (some st) =
    let counted = then_some (signals_in headers d st.window_start) (λ votes.
      some (record st { elapsed = add64 (sub64 tip st.window_start) 1; signals = votes })) in
    if is_defined st.state then some st else counted

unfoldable pub last_index : ℕ → List Header → ℕ
last_index i [] = i
last_index i (h ∷ hs) = last_index h.index hs

-- `evaluateDeployment`
unfoldable pub evaluate_deployment : List Header → Deployment → Option DeploymentStatus
unfolding status_defined windows_loop in_progress last_index
evaluate_deployment [] d = some status_defined
evaluate_deployment (h ∷ hs) d =
    let headers = h ∷ hs in
    let tip = last_index 0 headers in
    in_progress headers d tip (windows_loop (tip + 2) headers d tip 0 status_defined)
