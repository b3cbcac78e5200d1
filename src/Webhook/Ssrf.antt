-- ===== src/Webhook/Ssrf.antt =====
-- The checks of a webhook's URL in app/services/webhook_service.py. `urllib`, `socket` and
-- `ipaddress` are parameters; the addresses of a host are taken in the order of the set.
use noc_iq_be.Prelude.{
  String, Bool, ◌&&◌, not, Option, none, some, List, [], ◌∷◌, if◌then◌else◌, value_error, Result,
  ok, err,
}
use noc_iq_be.Prelude.Text.{lower}
use noc_iq_be.Bridge.Guard.{is_in}

-- What `ipaddress` says of an address; `contained cidr` is none where the range does not parse.
pub record Ip : Type 0 where
  pub contained : String → Option Bool
  pub is_loopback : Bool
  pub is_link_local : Bool
  pub is_private : Bool

-- `hostname or ""` of a URL that parses, the addresses of a host that resolves, and the address that
-- a text is.
pub record Net : Type 0 where
  pub hostname : String → Option String
  pub getaddrinfo : String → Option (List String)
  pub ip_address : String → Option Ip

-- The parsed settings: `_PRIVATE_RANGES` and `_BLOCKED_HOSTNAMES`, in lower case.
pub record SsrfSettings : Type 0 where
  pub private_ranges : List String
  pub blocked_hostnames : List String
  pub allow_private : Bool
  pub allow_loopback : Bool
  pub allow_link_local : Bool

pub data Reason : Type 0 where
  malformed_url unresolved denied_host loopback link_local private_address : Reason
  blocked_range : String → Reason

abbrev pub in_range : Ip → List String → Option Reason
in_range ip [] = none
in_range ip (cidr ∷ ranges) =
    let later = in_range ip ranges in
    elim (ip.contained cidr) [
      | none ↦ later
      | some b ↦ if b then some (blocked_range cidr) else later
    ]

-- The first reason of two.
abbrev pub or_else : Option Reason → Option Reason → Option Reason
or_else (some r) o = some r
or_else none o = o

abbrev pub unless : (allowed found : Bool) → Reason → Option Reason
unless allowed found r = if found && not allowed then some r else none

module _ (settings : SsrfSettings) where
  abbrev pub check_ip : Option Ip → Option Reason
  check_ip none = none
  check_ip (some ip) = or_else (in_range ip settings.private_ranges) (
      or_else (unless settings.allow_loopback ip.is_loopback loopback) (
        or_else (unless settings.allow_link_local ip.is_link_local link_local)
          (unless settings.allow_private ip.is_private private_address)))

  abbrev pub check_ip_fast : Option Ip → Option Reason
  check_ip_fast none = none
  check_ip_fast (some ip) = or_else (unless settings.allow_loopback ip.is_loopback loopback) (
      or_else (unless settings.allow_private ip.is_private private_address) (
        or_else (unless settings.allow_link_local ip.is_link_local link_local)
          (in_range ip settings.private_ranges)))

  abbrev pub is_denied : String → Bool
  is_denied host = is_in (lower host) settings.blocked_hostnames

  module _ (net : Net) where
    abbrev pub check_ips : List String → Option Reason
    check_ips [] = none
    check_ips (ip ∷ ips) = or_else (check_ip (net.ip_address ip)) (check_ips ips)

    -- `_resolve_and_check_ip`; none where the host is not blocked
    abbrev pub check_resolved : Option (List String) → Option Reason
    check_resolved none = some unresolved
    check_resolved (some ips) = check_ips ips

    unfoldable pub resolve_and_check_ip : String → Option Reason
    resolve_and_check_ip host = check_resolved (net.getaddrinfo host)

    -- None is `(True, "")`.
    abbrev pub check_host : Option String → Option Reason
    check_host none = some malformed_url
    check_host (some host) = if is_denied host then some denied_host else resolve_and_check_ip host

    unfoldable pub validate_webhook_url : String → Option Reason
    validate_webhook_url url = check_host (net.hostname url)

    -- Here what `urlparse` raises passes through.
    abbrev pub check_host_fast : Option String → Result (Option Reason)
    check_host_fast none = err (value_error "Malformed URL")
    check_host_fast (some host) =
        ok (if is_denied host then some denied_host else check_ip_fast (net.ip_address host))

    unfoldable pub validate_webhook_url_fast : String → Result (Option Reason)
    validate_webhook_url_fast url = check_host_fast (net.hostname url)
