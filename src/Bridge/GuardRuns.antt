-- ===== src/Bridge/GuardRuns.antt =====
-- The guard's rate limit over any sequence of calls.
use noc_iq_be.Prelude.{
  ℕ, ◌≤◌, ◌<◌, String, ◌≡◌, refl, ◌∙◌, Bool, true, false, ◌&&◌, List, [], ◌∷◌, ◌++◌, arith, str_eq,
  eq_iff, if◌then◌else◌, length, filter, count, count-append,
}
use noc_iq_be.Prelude.Dict.{lookup, insert, lookup-insert}
use noc_iq_be.Bridge.Guard.{
  Params, GuardSettings, GuardCheckResult, RateTracker, user_of, within, stamps, check_rate_limit,
  pre_check,
}

-- The calls come in the order of their times, from `lo` to `hi`.
abbrev pub Ordered : ℕ → List (Params × ℕ) → ℕ → Type 0
Ordered lo [] hi = lo ≤ hi
Ordered lo ((params, now) ∷ calls) hi = (lo ≤ now) × Ordered now calls hi

module _ (settings : GuardSettings) (user : String) where
  -- The times of the user's calls that pass, in order.
  abbrev note : Params → ℕ → Bool → List ℕ → List ℕ
  note params now passed times =
      if passed && str_eq (user_of params) user then times ++ now ∷ [] else times

  pub passed_times : List (Params × ℕ) → RateTracker → List ℕ → List ℕ
  passed_times [] tracker times = times
  passed_times ((params, now) ∷ calls) tracker times =
      let (r, tracker') = pre_check settings params now tracker in
      passed_times calls tracker' (note params now r.passed times)

  count-filter-within :
      (now later : ℕ) (ts : List ℕ)
      → now ≤ later
      → count (within settings later) (filter (within settings now) ts)
        ≡ count (within settings later) ts
  count-filter-within now later [] h = refl
  count-filter-within now later (t ∷ ts) h = ground (arith, count-filter-within now later ts h)

  count-le_length : (p : ℕ → Bool) (ts : List ℕ) → count p ts ≤ length ts
  count-le_length p [] = omega arith
  count-le_length p (t ∷ ts) = ground (arith, count-le_length p ts)

  stamps-insert :
      (k : String) (ts : List ℕ) (tracker : RateTracker)
      → stamps settings user (insert k ts tracker)
        ≡ (if str_eq k user then ts else stamps settings user tracker)
  unfolding stamps
  stamps-insert k ts tracker = ground (arith, lookup-insert k user ts tracker)

  -- What a step of the guard does to the times that count at any later moment: it adds the time of a
  -- call of the user that passes, which it lets pass only below the limit.
  abbrev Adds : Params → ℕ → ℕ → RateTracker → GuardCheckResult × RateTracker → Type 0
  Adds params now later tracker (r, tracker') =
      (count (within settings later) (stamps settings user tracker')
        ≡ count (within settings later) (note params now r.passed (stamps settings user tracker)))
      × (r.passed && str_eq (user_of params) user ≡ true
          → count (within settings later) (stamps settings user tracker)
            < settings.contract_call_rate_limit)

  check_rate_limit-Adds :
      (params : Params) (now later : ℕ) (tracker : RateTracker)
      → now ≤ later
      → Adds params now later tracker (check_rate_limit settings params now tracker)
  unfolding check_rate_limit
  check_rate_limit-Adds params now later tracker h =
      let ts = stamps settings user tracker in
      let recent = filter (within settings now) (stamps settings (user_of params) tracker) in
      ground (
        arith,
        eq_iff (user_of params) user,
        stamps-insert (user_of params) recent tracker,
        stamps-insert (user_of params) (recent ++ now ∷ [])
            (insert (user_of params) recent tracker),
        count-append (within settings later) recent (now ∷ []),
        count-append (within settings later) ts (now ∷ []),
        count-filter-within now later ts h,
        count-le_length (within settings later) recent,
      )

  refused-Adds :
      (params : Params) (now later : ℕ) (tracker : RateTracker) (r : GuardCheckResult)
      → r.passed ≡ false
      → Adds params now later tracker (r, tracker)
  refused-Adds params now later tracker r h = ground arith

  pre_check-Adds :
      (params : Params) (now later : ℕ) (tracker : RateTracker)
      → now ≤ later
      → Adds params now later tracker (pre_check settings params now tracker)
  unfolding pre_check
  pre_check-Adds params now later tracker h =
      ground (arith, check_rate_limit-Adds params now later tracker h)

  note-count :
      (params : Params) (now later : ℕ) (passed : Bool) (xs ys : List ℕ)
      → count (within settings later) xs ≡ count (within settings later) ys
      → count (within settings later) (note params now passed xs)
        ≡ count (within settings later) (note params now passed ys)
  note-count params now later passed xs ys h = ground (
    arith,
    count-append (within settings later) xs (now ∷ []),
    count-append (within settings later) ys (now ∷ []),
  )

  note-le :
      (params : Params) (now later : ℕ) (passed : Bool) (xs : List ℕ)
      → count (within settings later) xs ≤ settings.contract_call_rate_limit
      → (passed && str_eq (user_of params) user ≡ true
          → count (within settings later) xs < settings.contract_call_rate_limit)
      → count (within settings later) (note params now passed xs)
        ≤ settings.contract_call_rate_limit
  note-le params now later passed xs h k =
      ground (arith, count-append (within settings later) xs (now ∷ []))

  passed_times_limited :
      (calls : List (Params × ℕ)) (tracker : RateTracker) (times : List ℕ) (lo hi : ℕ)
      → Ordered lo calls hi
      → ((later : ℕ)
          → lo ≤ later
          → (count (within settings later) (stamps settings user tracker)
              ≡ count (within settings later) times)
            × (count (within settings later) times ≤ settings.contract_call_rate_limit))
      → count (within settings hi) (passed_times calls tracker times)
        ≤ settings.contract_call_rate_limit
  unfolding passed_times
  passed_times_limited [] tracker times lo hi ordered inv = (inv hi ordered).1
  passed_times_limited ((params, now) ∷ calls) tracker times lo hi (le, ordered) inv =
      let (r, tracker') = pre_check settings params now tracker in
      passed_times_limited calls tracker' (note params now r.passed times) now hi ordered
        (λ later h.
          let (same, bound) = inv later (omega arith) in
          let (added, below) = pre_check-Adds params now later tracker h in
          (
            added ∙ note-count params now later r.passed (stamps settings user tracker) times same,
            note-le params now later r.passed times bound (λ p. omega (arith, below p)),
          ))

  -- If calls come in the order of their times, of any users, then of one user's calls that pass no more
  -- than the limit lie in the window that ends at any time from the last call on.
  pub rate_limited :
      (calls : List (Params × ℕ)) (hi : ℕ)
      → Ordered 0 calls hi
      → count (within settings hi) (passed_times calls [] []) ≤ settings.contract_call_rate_limit
  unfolding stamps lookup
  rate_limited calls hi ordered =
      passed_times_limited calls [] [] 0 hi ordered (λ later h. (refl, omega arith))
