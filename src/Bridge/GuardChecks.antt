-- ===== src/Bridge/GuardChecks.antt =====
-- When the guard lets a call pass, and what a refusal leaves.
use noc_iq_be.Prelude.{
  ℕ, ◌<◌, String, ◌≡◌, refl, ◌↔◌, ◌⊎◌, inl, inr, true, false, Option, none, some, List, [], arith,
  eq_iff, length, filter,
}
use noc_iq_be.Prelude.Int.{ℤ, pos, ◌≤ℤ◌}
use noc_iq_be.Bridge.Guard.{
  Params, GuardSettings, RateTracker, get_or_text, user_of, is_in, differs, exceeds, within, stamps,
  check_execution_mode, check_contract_address, check_network, check_amount, check_rate_limit,
  pre_check,
}

-- A parameter that is missing, empty, or what is configured.
abbrev pub IsUnset : Option String → String → Type 0
IsUnset o configured = (o ≡ none) ⊎ (o ≡ some "") ⊎ (o ≡ some configured)

-- An amount that is missing, or within the maximum, where one is set.
abbrev pub IsAffordable : Option ℤ → ℤ → Type 0
IsAffordable none max_amount = Unit
IsAffordable (some a) max_amount = (max_amount ≤ℤ pos 0) ⊎ (a ≤ℤ max_amount)

abbrev pub IsAllowedAddress : String → List String → Type 0
IsAllowedAddress address allowed = (allowed ≡ []) ⊎ (address ≡ "") ⊎ (is_in address allowed ≡ true)

abbrev pub IsPermitted : GuardSettings → Params → Type 0
IsPermitted settings params =
    IsUnset params.execution_mode settings.contract_execution_mode
    × IsAllowedAddress (get_or_text "" params.contract_address) settings.allowed_contract_addresses
    × IsUnset params.network settings.stellar_network
    × IsAffordable params.amount settings.max_contract_execution_amount

differs_iff : (o : Option String) (c : String) → (differs o c ≡ false) ↔ IsUnset o c
differs_iff none c = (λ h. inl refl, λ h. refl)
differs_iff (some s) c =
    (ground (arith, eq_iff s "", eq_iff s c), ground (arith, eq_iff s "", eq_iff s c))

exceeds_iff : (o : Option ℤ) (m : ℤ) → (exceeds o m ≡ false) ↔ IsAffordable o m
exceeds_iff none m = (λ h. tt, λ h. refl)
exceeds_iff (some a) m = (ground arith, ground arith)

module _ (settings : GuardSettings) (params : Params) where
  mode_iff :
      ((check_execution_mode settings params).passed ≡ true)
      ↔ IsUnset params.execution_mode settings.contract_execution_mode
  unfolding check_execution_mode
  mode_iff =
      let d = differs_iff params.execution_mode settings.contract_execution_mode in
      (λ h. d.0 (ground arith), λ h. rw (d.1 h))

  address_iff :
      ((check_contract_address settings params).passed ≡ true)
      ↔ IsAllowedAddress
          (get_or_text "" params.contract_address)
          settings.allowed_contract_addresses
  unfolding check_contract_address
  address_iff = (
    ground (arith, eq_iff (get_or_text "" params.contract_address) ""),
    ground (arith, eq_iff (get_or_text "" params.contract_address) ""),
  )

  network_iff :
      ((check_network settings params).passed ≡ true)
      ↔ IsUnset params.network settings.stellar_network
  unfolding check_network
  network_iff =
      let d = differs_iff params.network settings.stellar_network in
      (λ h. d.0 (ground arith), λ h. rw (d.1 h))

  amount_iff :
      ((check_amount settings params).passed ≡ true)
      ↔ IsAffordable params.amount settings.max_contract_execution_amount
  unfolding check_amount
  amount_iff =
      let d = exceeds_iff params.amount settings.max_contract_execution_amount in
      (λ h. d.0 (ground arith), λ h. rw (d.1 h))

  rate_iff :
      (now : ℕ) (tracker : RateTracker)
      → ((check_rate_limit settings params now tracker).0.passed ≡ true) ↔ (
          length (filter (within settings now) (stamps settings (user_of params) tracker))
          < settings.contract_call_rate_limit)
  unfolding check_rate_limit
  rate_iff now tracker = (ground arith, ground arith)

  static :
      (now : ℕ) (tracker : RateTracker)
      → ((pre_check settings params now tracker).0.passed ≡ true) ↔ (
          ((check_execution_mode settings params).passed ≡ true)
          × ((check_contract_address settings params).passed ≡ true)
          × ((check_network settings params).passed ≡ true)
          × ((check_amount settings params).passed ≡ true)
          × ((check_rate_limit settings params now tracker).0.passed ≡ true))
  unfolding pre_check
  static now tracker = (ground arith, ground arith)

  -- The guard lets a call pass exactly when its mode, its network and its contract address are unset or
  -- as configured, its amount is within the maximum where there is one, and fewer calls of its user
  -- than the limit are on record within the window.
  pub pre_check_iff :
      (now : ℕ) (tracker : RateTracker)
      → ((pre_check settings params now tracker).0.passed ≡ true) ↔ (
          IsPermitted settings params
          × (length (filter (within settings now) (stamps settings (user_of params) tracker))
              < settings.contract_call_rate_limit))
  pre_check_iff now tracker =
      let s = static now tracker in
      (
        λ h.
            let (a, b, c, d, e) = s.0 h in
            (
              (mode_iff.0 a, address_iff.0 b, network_iff.0 c, amount_iff.0 d),
              (rate_iff now tracker).0 e,
            ),
        λ ((a, b, c, d), e). s.1 (
          mode_iff.1 a,
          address_iff.1 b,
          network_iff.1 c,
          amount_iff.1 d,
          (rate_iff now tracker).1 e,
        ),
      )

  untracked_or_static :
      (now : ℕ) (tracker : RateTracker)
      → ((pre_check settings params now tracker).1 ≡ tracker)
        ⊎ (((check_execution_mode settings params).passed ≡ true)
            × ((check_contract_address settings params).passed ≡ true)
            × ((check_network settings params).passed ≡ true)
            × ((check_amount settings params).passed ≡ true))
  unfolding pre_check
  untracked_or_static now tracker = ground arith

  -- A call that a static check refuses leaves the record of calls alone.
  pub refused_untracked :
      (now : ℕ) (tracker : RateTracker)
      → ¬ IsPermitted settings params
      → (pre_check settings params now tracker).1 ≡ tracker
  refused_untracked now tracker h = elim (untracked_or_static now tracker) [
    | inl same ↦ same
    | inr (a, b, c, d) ↦ absurd (h (mode_iff.0 a, address_iff.0 b, network_iff.0 c, amount_iff.0 d))
  ]
