-- ===== src/Examples/Leases.antt =====
-- Leases of internal/localrules on concrete inputs.
use flowspec_vpp_agent.Prelude.{◌+◌, ◌≤◌, ◌<◌, ◌≡◌, refl, true, false, [], ◌∷◌, string_eq}
use flowspec_vpp_agent.Data.Assoc.{lookup, insert}
use flowspec_vpp_agent.Data.Assoc.Distinct.{Distinct}
use flowspec_vpp_agent.LocalRules.{
  Event, Lease, Controller, any_expired, apply_event, expire, next_wake,
}
use flowspec_vpp_agent.LocalRules.Expiry.{unexpired, lookup-expire, next_wake_lem}
use flowspec_vpp_agent.LocalRules.Delivery.{Delivered, heard}
use flowspec_vpp_agent.LocalRules.Events.{apply_event-Delivered, expire-Delivered}
use flowspec_vpp_agent.Examples.Rules.{dns_rule}

abbrev idle : Controller
idle = record { leases = []; dry_run = false; has_advertiser = true; latest = []; sent = [] }

idle-Delivered : Delivered idle
unfolding lookup heard
idle-Delivered = record {
  apart = λ id id' l l' f f' e. cc;
  held = λ id l f. cc;
  known = λ raw r t. cc;
}

abbrev flood : Event
flood = record { id = "dns/a"; rule = record dns_rule { raw = "dns a" }; ttl = 60; refresh = true }

apply_event-Delivered_example : Delivered (apply_event flood 100 idle)
apply_event-Delivered_example =
    apply_event-Delivered flood 100 idle (λ id l f e. unfold lookup in cc) idle-Delivered

abbrev lease : Lease
lease = record { rule = flood.rule; expires_at = 160 }

-- One lease, which `flood` makes.
abbrev busy : Controller
busy = record idle { leases = ("dns/a", lease) ∷ [] }

abbrev leased : Controller
leased = apply_event flood 100 idle

leased-Distinct : Distinct leased.leases
unfolding lookup insert apply_event
leased-Distinct = (refl, tt)

expire-Delivered_example : Delivered (expire 200 leased)
expire-Delivered_example =
    expire-Delivered 200 leased leased-Distinct
      (apply_event-Delivered flood 100 idle (λ id l f e. unfold lookup in cc) idle-Delivered)

lookup-expire_example :
    lookup "dns/a" (expire 200 busy).leases ≡ unexpired 200 (lookup "dns/a" busy.leases)
lookup-expire_example = lookup-expire 200 busy "dns/a" (unfold lookup in (refl, tt))

next_wake_lem_example :
    (0 < next_wake 100 busy.leases)
    × (100 < 160 → 100 + next_wake 100 busy.leases ≤ 160)
    × (any_expired (100 + next_wake 100 busy.leases) busy.leases ≡ true)
next_wake_lem_example = next_wake_lem 100 "dns/a" lease busy.leases (unfold lookup in refl)
