-- ===== src/Bridge/BalanceReads.antt =====
-- What a fetch of balances answers from, and when a payout's trustline is ready.
use noc_iq_be.Prelude.{
  ℕ, ◌+◌, ◌≤◌, ◌<◌, String, ◌≡◌, refl, ◌↔◌, ◌⊎◌, inl, inr, Bool, true, false, none, some, List, [],
  ◌∷◌, arith, eq_refl, Option-cases, first, Result, ok,
}
use noc_iq_be.Prelude.Dict.{lookup-insert, lookup-erase}
use noc_iq_be.Cache
use noc_iq_be.Cache.{TtlCache, CacheResult, is_expired}
use noc_iq_be.Bridge.Balance.{
  live, cache, stale_fallback, fetch_failed, Entry, LiveFetch, fetch, invalidate, ready, missing,
  Line, TrustlineResult, Horizon, status_error, request_error, account, is_line, limit_of,
  without_line, of_line, scan_balances, check_trustline, assert_trustline_ready,
}

module _ {B : Type 0} (no_balances : B) (ticks : ℕ) (address : String) where
  -- A fetch that answers live where the fetcher answers has stored the balances.
  live_stores :
      (fetcher : LiveFetch B) (b : B) (force : Bool) (t : ℕ) (c : TtlCache (Entry B))
      → fetcher.outcome ≡ some b
      → (fetch no_balances ticks address fetcher force t c).0.source ≡ live
      → (fetch no_balances ticks address fetcher force t c).1
        ≡ Cache.set address
            (record { balances = b; cached_at = fetcher.asked_at })
            fetcher.stored_at
            c
  unfolding fetch
  live_stores fetcher b force t c h l = ground arith

  module _ (e : Entry B) (t : ℕ) (c : TtlCache (Entry B)) (fetcher : LiveFetch B) (now : ℕ) where
    stored_read :
        now < t + c.ttl
        → ((fetch no_balances ticks address fetcher false now (Cache.set address e t c)).0.balances
            ≡ e.balances)
          × ((fetch no_balances ticks address fetcher false now (Cache.set address e t c)).0.source
              ≡ cache)
          × ((fetch no_balances ticks address fetcher false now (Cache.set address e t c)).1
              ≡ Cache.set address e t c)
    unfolding fetch Cache.get_with_meta Cache.set is_expired
    stored_read early =
        ground (arith, lookup-insert address address (e, t + c.ttl) c.store, eq_refl address)

    stored_stale :
        (force : Bool)
        → fetcher.outcome ≡ none
        → (force ≡ true) ⊎ (t + c.ttl ≤ now)
        → ((fetch no_balances ticks address fetcher force now (Cache.set address e t c)).0.balances
            ≡ e.balances)
          × ((fetch no_balances ticks address fetcher force now (Cache.set address e t c)).0.source
              ≡ stale_fallback)
          × ((fetch no_balances ticks address fetcher force now
                (Cache.set address e t c)).0.is_degraded
              ≡ true)
    unfolding fetch Cache.get_with_meta Cache.set is_expired
    stored_stale force fails late =
        ground (arith, lookup-insert address address (e, t + c.ttl) c.store, eq_refl address)

  -- After a fetch whose fetcher answers and whose result is live, an unforced fetch of the address
  -- before the stored entry's time is over answers those balances from the cache and leaves it alone,
  -- whatever its fetcher does.
  pub fetch-fetch_cached :
      (fetcher second : LiveFetch B) (b : B) (force : Bool) (t now : ℕ) (c : TtlCache (Entry B))
      → fetcher.outcome ≡ some b
      → (fetch no_balances ticks address fetcher force t c).0.source ≡ live
      → now < fetcher.stored_at + c.ttl
      → let c' = (fetch no_balances ticks address fetcher force t c).1 in
        ((fetch no_balances ticks address second false now c').0.balances ≡ b)
        × ((fetch no_balances ticks address second false now c').0.source ≡ cache)
        × ((fetch no_balances ticks address second false now c').1 ≡ c')
  fetch-fetch_cached fetcher second b force t now c h l early =
      let e : Entry B = record { balances = b; cached_at = fetcher.asked_at } in
      rw (live_stores fetcher b force t c h l) (stored_read e fetcher.stored_at c second now early)

  -- After a fetch whose fetcher answers and whose result is live, a fetch of the address whose fetcher
  -- fails, forced or after the stored entry's time, answers the same balances as a degraded, stale
  -- result.
  pub fetch-fetch_stale :
      (fetcher second : LiveFetch B) (b : B) (force force' : Bool) (t now : ℕ)
      (c : TtlCache (Entry B))
      → fetcher.outcome ≡ some b
      → (fetch no_balances ticks address fetcher force t c).0.source ≡ live
      → second.outcome ≡ none
      → (force' ≡ true) ⊎ (fetcher.stored_at + c.ttl ≤ now)
      → let c' = (fetch no_balances ticks address fetcher force t c).1 in
        ((fetch no_balances ticks address second force' now c').0.balances ≡ b)
        × ((fetch no_balances ticks address second force' now c').0.source ≡ stale_fallback)
        × ((fetch no_balances ticks address second force' now c').0.is_degraded ≡ true)
  fetch-fetch_stale fetcher second b force force' t now c h l fails late =
      let e : Entry B = record { balances = b; cached_at = fetcher.asked_at } in
      rw (live_stores fetcher b force t c h l)
        (stored_stale e fetcher.stored_at c second now force' fails late)

  -- After the address has been invalidated, a fetch never answers from an entry of before: its result
  -- is the fetcher's, or no balances and the error of a failed fetch; in either case a result is
  -- degraded exactly when it carries an error.
  pub fetch-invalidate :
      (fetcher : LiveFetch B) (force : Bool) (now : ℕ) (c : TtlCache (Entry B))
      → let r = (fetch no_balances ticks address fetcher force now (invalidate address c)).0 in
        (r.source ≡ live)
        × (r.balances ≡ (elim fetcher.outcome [ none ↦ no_balances | some b ↦ b ]))
        × (r.error ≡ (elim fetcher.outcome [ none ↦ some fetch_failed | some b ↦ none ]))
        × ((r.is_degraded ≡ true) ↔ (fetcher.outcome ≡ none))
  unfolding fetch invalidate Cache.get_with_meta Cache.invalidate
  fetch-invalidate fetcher force now c = elim (Option-cases fetcher.outcome) [
    | inl fails ↦ ground (arith, lookup-erase address address c.store, eq_refl address)
    | inr (b, e) ↦ ground (arith, lookup-erase address address c.store, eq_refl address)
  ]

module _ (is_zero : String → Result Bool) (code issuer : String) where
  scan-first :
      (lines : List Line)
      → scan_balances is_zero code issuer lines ≡ (elim (first (is_line code issuer) lines) [
        | none ↦ ok (without_line is_zero code issuer missing)
        | some line ↦ of_line is_zero code issuer line
      ])
  unfolding scan_balances
  scan-first [] = refl
  scan-first (line ∷ lines) = ground (arith, scan-first lines)

  -- The account has a line of the asset and its issuer, and the limit of the first such line is read
  -- and is not zero.
  abbrev pub IsFunded : Horizon → Type 0
  IsFunded horizon =
      (lines : List Line) × (line : Line) × (horizon ≡ account lines)
      × (first (is_line code issuer) lines ≡ some line)
      × (is_zero (limit_of line) ≡ ok false)

  ready_line :
      (lines : List Line) (r : TrustlineResult)
      → assert_trustline_ready is_zero (account lines) code issuer ≡ ok (inl r)
      → IsFunded (account lines)
  unfolding assert_trustline_ready check_trustline
  ready_line lines r h = elim (Option-cases (first (is_line code issuer) lines)) [
    | inl absent ↦ absurd (ground (arith, scan-first lines))
    | inr (line, e) ↦ (lines, line, refl, e, ground (arith, scan-first lines))
  ]

  ready-IsFunded :
      (horizon : Horizon) (r : TrustlineResult)
      → assert_trustline_ready is_zero horizon code issuer ≡ ok (inl r)
      → IsFunded horizon
  unfolding assert_trustline_ready check_trustline
  ready-IsFunded (status_error status) r h = absurd (ground arith)
  ready-IsFunded request_error r h = absurd (ground arith)
  ready-IsFunded (account lines) r h = ready_line lines r h

  funded_ready :
      (horizon : Horizon)
      → IsFunded horizon
      → (r : TrustlineResult) × (assert_trustline_ready is_zero horizon code issuer ≡ ok (inl r))
  unfolding assert_trustline_ready check_trustline
  funded_ready horizon (lines, line, e, found, funded) = (
    record {
      status = ready;
      asset_code = code;
      asset_issuer = issuer;
      balance = line.balance;
      limit = some (limit_of line);
    },
    rw (e, scan-first lines, found, funded),
  )

  -- A payout's trustline is ready exactly when Horizon answers with the account, the account has a line
  -- of the asset and its issuer, and the limit of the first such line is read as a number other than zero.
  pub trustline_ready_iff :
      (horizon : Horizon)
      → ((r : TrustlineResult) × (assert_trustline_ready is_zero horizon code issuer ≡ ok (inl r)))
        ↔ IsFunded horizon
  trustline_ready_iff horizon = (λ (r, h). ready-IsFunded horizon r h, funded_ready horizon)
