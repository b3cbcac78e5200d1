-- ===== src/Webhook/UrlChecks.antt =====
-- What the checks of a webhook's URL in app/services/webhook_service.py let through.
use noc_iq_be.Prelude.{
  String, ◌≡◌, refl, sym, ap, ◌∙◌, ◌≢◌, ◌↔◌, inl, inr, Bool, true, false, Option, none, some, List,
  [], ◌∷◌, arith, if◌then◌else◌, Bool-cases, Option-cases, All, ok,
}
use noc_iq_be.Prelude.Text.{lower}
use mathlib.Core.Path.{subst}
use noc_iq_be.Bridge.Guard.{is_in}
use noc_iq_be.Webhook.Ssrf.{
  Ip, Net, SsrfSettings, Reason, malformed_url, unresolved, denied_host, loopback, link_local,
  private_address, blocked_range, in_range, or_else, unless, check_ip, check_ip_fast, is_denied,
  check_ips, check_resolved, resolve_and_check_ip, check_host, validate_webhook_url,
  check_host_fast, validate_webhook_url_fast,
}

-- No configured range contains the address.
abbrev Outside : Ip → List String → Type 0
Outside ip ranges = All (λ cidr. ip.contained cidr ≢ some true) ranges

-- An address that may be called: no address at all, or one outside of the ranges and of no kind that
-- is not allowed.
abbrev pub Callable : SsrfSettings → Option Ip → Type 0
Callable settings none = Unit
Callable settings (some ip) =
    Outside ip settings.private_ranges
    × ((ip.is_loopback ≡ true → settings.allow_loopback ≡ true)
        × ((ip.is_link_local ≡ true → settings.allow_link_local ≡ true)
            × (ip.is_private ≡ true → settings.allow_private ≡ true)))

in_range_iff : (ip : Ip) (ranges : List String) → (in_range ip ranges ≡ none) ↔ Outside ip ranges
in_range_iff ip [] = (λ _. tt, λ _. refl)
in_range_iff ip (cidr ∷ ranges) = go (in_range_iff ip ranges) (ip.contained cidr) refl
  where
    go :
        ((in_range ip ranges ≡ none) ↔ Outside ip ranges)
        → (o : Option Bool) → ip.contained cidr ≡ o
        → (elim o [
          | none ↦ in_range ip ranges
          | some b ↦ if b then some (blocked_range cidr) else in_range ip ranges
        ]
            ≡ none)
          ↔ (ip.contained cidr ≢ some true) × Outside ip ranges
    go rest none e = (λ h. (λ k. cc, rest.0 h), λ h. rest.1 h.1)
    go rest (some true) e = (λ h. absurd cc, λ h. absurd (h.0 e))
    go rest (some false) e = (λ h. (λ k. cc, rest.0 h), λ h. rest.1 h.1)

or_else_iff : (a b : Option Reason) → (or_else a b ≡ none) ↔ (a ≡ none) × (b ≡ none)
or_else_iff none b = (λ h. (refl, h), λ h. h.1)
or_else_iff (some r) b = (λ h. cc, λ h. cc)

unless_iff :
    (allowed found : Bool) (r : Reason)
    → (unless allowed found r ≡ none) ↔ (found ≡ true → allowed ≡ true)
unless_iff true true r = ground arith
unless_iff true false r = ground arith
unless_iff false true r = (λ h. cc, λ h. absurd (let no : false ≡ true = h refl in cc))
unless_iff false false r = ground arith

both_iff :
    {P Q : Type 0} (a b : Option Reason)
    → (a ≡ none) ↔ P
    → (b ≡ none) ↔ Q
    → (or_else a b ≡ none) ↔ P × Q
both_iff none b p q = (λ h. (p.0 refl, q.0 h), λ h. q.1 h.1)
both_iff (some r) b p q = (λ h. absurd cc, λ h. let no = p.1 h.0 in absurd cc)

check_ip_iff :
    (settings : SsrfSettings) (o : Option Ip) → (check_ip settings o ≡ none) ↔ Callable settings o
check_ip_iff settings none = (λ _. tt, λ _. refl)
check_ip_iff settings (some ip) =
    both_iff (in_range ip settings.private_ranges) _ (in_range_iff ip settings.private_ranges) (
      both_iff (unless settings.allow_loopback ip.is_loopback loopback) _
        (unless_iff settings.allow_loopback ip.is_loopback loopback)
        (both_iff (unless settings.allow_link_local ip.is_link_local link_local) _
          (unless_iff settings.allow_link_local ip.is_link_local link_local)
          (unless_iff settings.allow_private ip.is_private private_address)))

check_ips_iff :
    (settings : SsrfSettings) (net : Net) (ips : List String)
    → (check_ips settings net ips ≡ none) ↔ All (λ ip. Callable settings (net.ip_address ip)) ips
check_ips_iff settings net [] = (λ _. tt, λ _. refl)
check_ips_iff settings net (ip ∷ ips) =
    both_iff (check_ip settings (net.ip_address ip)) (check_ips settings net ips)
      (check_ip_iff settings (net.ip_address ip)) (check_ips_iff settings net ips)

-- A URL passes the check exactly if it parses, its host is not denied and resolves, and each address
-- that it resolves to may be called.
pub validate_webhook_url_iff :
    (settings : SsrfSettings) (net : Net) (url : String)
    → (validate_webhook_url settings net url ≡ none) ↔ (
        (host : String) × (ips : List String) × (net.hostname url ≡ some host)
        × (is_in (lower host) settings.blocked_hostnames ≡ false)
        × (net.getaddrinfo host ≡ some ips)
        × All (λ ip. Callable settings (net.ip_address ip)) ips)
unfolding validate_webhook_url resolve_and_check_ip
validate_webhook_url_iff settings net url = (
  safe,
  λ (host, ips, found, open', known, all).
      ap (check_host settings net) found
      ∙ ap (λ b. if b then some denied_host else resolve_and_check_ip settings net host) open'
      ∙ ap (check_resolved settings net) known
      ∙ (check_ips_iff settings net ips).1 all,
)
  where
    safe :
        validate_webhook_url settings net url ≡ none
        → (host : String) × (ips : List String) × (net.hostname url ≡ some host)
          × (is_in (lower host) settings.blocked_hostnames ≡ false)
          × (net.getaddrinfo host ≡ some ips)
          × All (λ ip. Callable settings (net.ip_address ip)) ips
    safe h = elim (Option-cases (net.hostname url)) [
      | inl e ↦
          let no : some malformed_url ≡ none = sym (ap (check_host settings net) e) ∙ h in absurd cc
      | inr (host, e) ↦
          let h1 : check_host settings net (some host) ≡ none =
            sym (ap (check_host settings net) e) ∙ h in
          let pick : Bool → Option Reason =
            λ b. if b then some denied_host else resolve_and_check_ip settings net host in
          elim (Bool-cases (is_denied settings host)) [
            | inl k ↦ let no : some denied_host ≡ none = sym (ap pick k) ∙ h1 in absurd cc
            | inr k ↦
                let h2 : check_resolved settings net (net.getaddrinfo host) ≡ none =
                  sym (ap pick k) ∙ h1 in
                elim (Option-cases (net.getaddrinfo host)) [
                  | inl u ↦
                      let no : some unresolved ≡ none =
                        sym (ap (check_resolved settings net) u) ∙ h2 in
                      absurd cc
                  | inr (ips, u) ↦ (
                    host,
                    ips,
                    e,
                    k,
                    u,
                    (check_ips_iff settings net ips).0
                        (sym (ap (check_resolved settings net) u) ∙ h2),
                  )
                ]
          ]
    ]

check_ip_fast_iff :
    (settings : SsrfSettings) (o : Option Ip)
    → (check_ip_fast settings o ≡ none) ↔ (check_ip settings o ≡ none)
check_ip_fast_iff settings none = (λ h. h, λ h. h)
check_ip_fast_iff settings (some ip) =
    reorder (in_range ip settings.private_ranges)
      (unless settings.allow_loopback ip.is_loopback loopback)
      (unless settings.allow_link_local ip.is_link_local link_local)
      (unless settings.allow_private ip.is_private private_address)
  where
    reorder :
        (a b c d : Option Reason)
        → (or_else b (or_else d (or_else c a)) ≡ none)
          ↔ (or_else a (or_else b (or_else c d)) ≡ none)
    reorder none none none none = (λ h. h, λ h. h)
    reorder none none none (some d) = (λ h. h, λ h. h)
    reorder none none (some c) none = (λ h. h, λ h. h)
    reorder none none (some c) (some d) = (λ h. absurd cc, λ h. absurd cc)
    reorder none (some b) c d = (λ h. absurd cc, λ h. absurd cc)
    reorder (some a) none none none = (λ h. absurd cc, λ h. absurd cc)
    reorder (some a) none none (some d) = (λ h. absurd cc, λ h. absurd cc)
    reorder (some a) none (some c) none = (λ h. absurd cc, λ h. absurd cc)
    reorder (some a) none (some c) (some d) = (λ h. absurd cc, λ h. absurd cc)
    reorder (some a) (some b) c d = (λ h. absurd cc, λ h. absurd cc)

-- What the check at dispatch lets through, the check without DNS lets through too, where an address
-- literal resolves to itself.
pub validate_webhook_url_fast-weaker :
    (settings : SsrfSettings) (net : Net) (url : String)
    → ((host : String) (ip : Ip)
        → net.ip_address host ≡ some ip
        → net.getaddrinfo host ≡ some (host ∷ []))
    → validate_webhook_url settings net url ≡ none
    → validate_webhook_url_fast settings net url ≡ ok none
unfolding validate_webhook_url_fast
validate_webhook_url_fast-weaker settings net url literal h =
    let (host, ips, found, open', known, all) = (validate_webhook_url_iff settings net url).0 h in
    ap (check_host_fast settings net) found
    ∙ ap (λ b. ok (if b then some denied_host else check_ip_fast settings (net.ip_address host)))
        open'
    ∙ ap (λ r. ok r)
        (elim (Option-cases (net.ip_address host)) [
          | inl e ↦ ap (check_ip_fast settings) e
          | inr (ip, e) ↦
              let same : ips ≡ host ∷ [] = (let both = sym known ∙ literal host ip e in cc) in
              let each =
                subst (λ xs. All (λ x. Callable settings (net.ip_address x)) xs) same all in
              (check_ip_fast_iff settings (net.ip_address host)).1
                ((check_ip_iff settings (net.ip_address host)).1 each.0)
        ])
