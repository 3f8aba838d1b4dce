-- ===== src/Core/Versionbits/Evidence.antt =====
-- core/versionbits.go: `evaluateDeployment` returns, and what it reports is backed by votes.
use native.Mathlib.Nat.{mul-le-mul_right, le-mul_of_pos_right}
use dnas.Base.{
  ℕ, zero, suc, ◌+◌, ◌-◌, ◌*◌, ◌^◌, ◌≤◌, ◌<◌, ◌≡◌, refl, ap, subst, ◌∙◌, ltb, leb, ◌==◌, true, some,
  List, [], ◌∷◌, add64, sub64, mul64, arith, inl, inr, Bool-cases, false, or_zero, sym, leb,
}
use dnas.Core.Versionbits.{
  decided, signals_loop, vote_at, Header, DeploymentState, Deployment, DeploymentStatus, validate,
  signals_in, status_defined, next_state, enter_window, windows_loop, in_progress, is_defined,
  last_index, evaluate_deployment,
}

signals_loop-some :
    (headers : List Header) (bit n h : ℕ)
    → h + n ≤ 2 ^ 63
    → (votes : ℕ) × (signals_loop headers bit n h ≡ some votes)
unfolding signals_loop vote_at
signals_loop-some headers bit zero h room = (0, refl)
signals_loop-some headers bit (suc n) h room =
    let (votes, ran) = signals_loop-some headers bit n (h + 1) (omega (arith, room)) in
    let low : leb (2 ^ 63) h ≡ false = ground (arith, room) in rw (low, ran) (_, refl)

decided-window_start :
    (d : Deployment) (win n : ℕ) (st : DeploymentStatus)
    → (decided d win n st).window_start ≡ st.window_start
decided-window_start d win n st = elim (Bool-cases (leb d.threshold n)) [
  | inl enough ↦ rw enough refl
  | inr few ↦ elim (Bool-cases (ltb d.timeout win)) [
    | inl late ↦ rw (few, late) refl
    | inr early ↦ rw (few, early) refl
  ]
]

module _ (headers : List Header) (d : Deployment) where
  -- The votes of the window from this height; a window that panics has none.
  abbrev pub votes : ℕ → ℕ
  votes from = or_zero (signals_in headers d from)

  signals_in-votes :
      (from : ℕ) → from + d.window ≤ 2 ^ 63 → signals_in headers d from ≡ some (votes from)
  unfolding signals_in
  signals_in-votes from room =
      let (n, ran) =
        signals_loop-some headers d.bit (add64 from d.window - from) from (omega (arith, room)) in
      ran ∙ ap (λ o. some (or_zero o)) (sym ran)

  -- What a state says of the votes before it.
  abbrev pub BackedState : DeploymentState → DeploymentStatus → Type 0
  BackedState DeploymentState.defined st = st.activation ≡ 0
  BackedState DeploymentState.started st = st.activation ≡ 0
  BackedState DeploymentState.failed st = st.activation ≡ 0
  BackedState DeploymentState.locked_in st =
      (st.activation ≡ st.since + d.window)
      × (d.start + d.window ≤ st.since)
      × (d.threshold ≤ votes (st.since - d.window))
  BackedState DeploymentState.active st =
      (st.activation ≡ st.since)
      × (d.start + d.window + d.window ≤ st.since)
      × (d.threshold ≤ votes (st.since - d.window - d.window))

  abbrev pub Backed : DeploymentStatus → Type 0
  Backed st = BackedState st.state st

  -- Before the window that starts at `win`, a lock-in is one window old.
  abbrev Before : ℕ → DeploymentState → DeploymentStatus → Type 0
  Before win DeploymentState.locked_in st =
      BackedState DeploymentState.locked_in st × (st.since + d.window ≡ win)
  Before win DeploymentState.defined st = BackedState DeploymentState.defined st
  Before win DeploymentState.started st = BackedState DeploymentState.started st
  Before win DeploymentState.failed st = BackedState DeploymentState.failed st
  Before win DeploymentState.active st = BackedState DeploymentState.active st

  Before-Backed :
      (win : ℕ) (s : DeploymentState) (st : DeploymentStatus) → Before win s st → BackedState s st
  Before-Backed win DeploymentState.locked_in st b = b.0
  Before-Backed win DeploymentState.defined st b = b
  Before-Backed win DeploymentState.started st b = b
  Before-Backed win DeploymentState.failed st b = b
  Before-Backed win DeploymentState.active st b = b

  next_state-started :
      (win : ℕ) (st : DeploymentStatus)
      → st.state ≡ DeploymentState.started
      → d.start + d.window ≤ win
      → win + d.window < 2 ^ 63
      → st.activation ≡ 0
      → (next : DeploymentStatus) × (next_state headers d win DeploymentState.started st
          ≡ some next)
        × Before (win + d.window) next.state next
        × (next.window_start ≡ st.window_start)
  unfolding next_state
  next_state-started win st e low room b =
      let from : sub64 win d.window ≡ win - d.window = omega arith in
      let n = votes (win - d.window) in
      let ran : signals_in headers d (sub64 win d.window) ≡ some n =
        ap (signals_in headers d) from ∙ signals_in-votes (win - d.window) (omega arith) in
      (
        decided d win n st,
        rw ran refl,
        elim (Bool-cases (leb d.threshold n)) [
          | inl enough ↦ rw enough ((omega arith, low, ground arith), refl)
          | inr few ↦ elim (Bool-cases (ltb d.timeout win)) [
            | inl late ↦ rw (few, late) b
            | inr early ↦ rw (few, early, e) b
          ]
        ],
        decided-window_start d win n st,
      )

  next_state-Before :
      (win : ℕ) (s : DeploymentState) (st : DeploymentStatus)
      → st.state ≡ s
      → d.start + d.window ≤ win
      → win + d.window < 2 ^ 63
      → Before win s st
      → (next : DeploymentStatus) × (next_state headers d win s st ≡ some next)
        × Before (win + d.window) next.state next
        × (next.window_start ≡ st.window_start)
  unfolding next_state
  next_state-Before win DeploymentState.started st e low room b =
      next_state-started win st e low room b
  next_state-Before win DeploymentState.locked_in st e low room ((act, old, met), at) = (
    _,
    refl,
    (
      refl,
      omega (arith, old, at),
      (let back : st.since - d.window ≡ win - d.window - d.window = omega (arith, at) in
          let same = ap votes back in omega (arith, met, same)),
    ),
    refl,
  )
  next_state-Before win DeploymentState.defined st e low room b = (st, refl, rw e b, refl)
  next_state-Before win DeploymentState.active st e low room b = (st, refl, rw e b, refl)
  next_state-Before win DeploymentState.failed st e low room b = (st, refl, rw e b, refl)

  moved :
      (win : ℕ) (s : DeploymentState) (st : DeploymentStatus)
      → Before win s st
      → Before win s (record st { window_start = win })
  moved win DeploymentState.locked_in st b = b
  moved win DeploymentState.defined st b = b
  moved win DeploymentState.started st b = b
  moved win DeploymentState.failed st b = b
  moved win DeploymentState.active st b = b

  -- Window `k`, if the tip is in it or after it.
  enter_window-Before :
      (k win : ℕ) (st : DeploymentStatus)
      → (k ≡ 0 → st.activation ≡ 0)
      → (0 < k → d.start + d.window ≤ win)
      → win + d.window < 2 ^ 63
      → Before win st.state st
      → (next : DeploymentStatus) × (enter_window headers d k win st ≡ some next)
        × Before (win + d.window) next.state next
        × (next.window_start ≡ win)
  unfolding enter_window
  enter_window-Before k win st begin low room b = elim (Bool-cases (k == 0)) [
    | inl first ↦ rw first (_, refl, begin (ground arith), refl)
    | inr later ↦ rw later (
        next_state-Before win st.state (record st { window_start = win }) refl (low (ground arith))
          room (moved win st.state st b))
  ]

  windows_loop-Backed :
      (n k tip : ℕ) (st : DeploymentStatus)
      → 1 ≤ d.window
      → tip + d.window < 2 ^ 63
      → d.start + k * d.window < 2 ^ 64
      → tip + 2 ≤ k + n
      → k ≤ tip + 1
      → (k ≡ 0 → st.activation ≡ 0)
      → Before (d.start + k * d.window) st.state st
      → st.window_start ≤ tip
      → (st' : DeploymentStatus) × (windows_loop n headers d tip k st ≡ some st')
        × Backed st'
        × (st'.window_start ≤ tip)
  unfolding windows_loop
  windows_loop-Backed zero k tip st long room here fuel few begin b at = absurd (omega arith)
  windows_loop-Backed (suc n) k tip st long room here fuel few begin b at =
      let win = d.start + k * d.window in
      let same : add64 d.start (mul64 k d.window) ≡ win = omega arith in
      elim (Bool-cases (ltb tip win)) [
        | inl past ↦ rw (same, past) (st, refl, Before-Backed win st.state st b, at)
        | inr reached ↦
            let low : win ≤ tip = ground arith in
            let next : win + d.window ≡ d.start + (k + 1) * d.window = omega arith in
            let (entered, ran, before, started_at) =
              enter_window-Before k win st begin
                (λ some_windows.
                  omega (arith, mul-le-mul_right {m = 1} {n = k} d.window some_windows))
                (omega arith) b in
            rw (same, reached, ran)
              (windows_loop-Backed n (k + 1) tip entered long room (omega arith) (omega arith)
                (omega (arith, le-mul_of_pos_right {m = d.window} k (omega arith)))
                (λ z. absurd (omega arith))
                (subst (λ w. Before w entered.state entered) next before)
                (omega (arith, started_at, low)))
      ]

  counted :
      (n m : ℕ) (s : DeploymentState) (st : DeploymentStatus)
      → BackedState s st
      → BackedState s (record st { signals = n; elapsed = m })
  counted n m DeploymentState.locked_in st b = b
  counted n m DeploymentState.defined st b = b
  counted n m DeploymentState.started st b = b
  counted n m DeploymentState.failed st b = b
  counted n m DeploymentState.active st b = b

  in_progress-Backed :
      (tip : ℕ) (st : DeploymentStatus)
      → Backed st
      → st.window_start + d.window ≤ 2 ^ 63
      → (st' : DeploymentStatus) × (in_progress headers d tip (some st) ≡ some st') × Backed st'
  unfolding in_progress
  in_progress-Backed tip st b room = elim (Bool-cases (is_defined st.state)) [
    | inl before ↦ rw before (st, refl, b)
    | inr later ↦
        rw (later, signals_in-votes st.window_start room) (_, refl, counted _ _ st.state st b)
  ]

validate-window : (d : Deployment) → validate d ≡ true → 1 ≤ d.window
unfolding validate
validate-window d h = ground arith

-- `evaluateDeployment` returns on every list of headers, and its answer is backed by votes: a
-- deployment that is locked in met its threshold in the window just before it locked in, and
-- activates one window after that; one that is active activated one window after such a lock-in; any
-- other has no activation height. (The deployment passes `Validate`, its start is below 2 ^ 64, and the
-- index of the tip plus a window is below 2 ^ 63.)
pub evaluate_deployment-Backed :
    (headers : List Header) (d : Deployment)
    → validate d ≡ true
    → d.start < 2 ^ 64
    → last_index 0 headers + d.window < 2 ^ 63
    → (st : DeploymentStatus) × (evaluate_deployment headers d ≡ some st) × Backed headers d st
unfolding evaluate_deployment status_defined
evaluate_deployment-Backed [] d valid start room = (status_defined, refl, refl)
evaluate_deployment-Backed (h ∷ hs) d valid start room =
    let headers = h ∷ hs in
    let tip = last_index 0 headers in
    let (st, done, backed, at) =
      windows_loop-Backed headers d (tip + 2) 0 tip status_defined (validate-window d valid) room
        (omega arith) (omega arith) (omega arith) (λ _. refl) refl (omega arith) in
    let (st', shown, backed') =
      in_progress-Backed headers d tip st backed (omega (arith, at, room)) in
    (st', ap (in_progress headers d tip) done ∙ shown, backed')
