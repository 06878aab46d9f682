-- ===== src/LocalRules.antt =====
-- internal/localrules/controller.go: the leases of locally generated rules. Times and durations are
-- in nanoseconds since the controller started; a duration below 0 is not told from 0. What the
-- controller sends, to the manager and to the advertiser, is a list in the order of sending, and the
-- context is not cancelled while it sends. Go visits the map of leases in no fixed order.
pub mod Expiry
pub mod Delivery
pub mod Events
use Prim.Native.String.{String}
use flowspec_vpp_agent.Prelude.{
  ℕ, ◌+◌, ◌-◌, Bool, true, false, not, ◌&&◌, ◌||◌, List, [], ◌∷◌, ◌++◌, map, Option, none, some,
  ltb, ◌==◌, if◌then◌else◌, Eq, beq, string_eq,
}
use flowspec_vpp_agent.Data.Assoc.{lookup, insert, delete}
use flowspec_vpp_agent.Flowspec.{Family, Rule}
use flowspec_vpp_agent.Manager.Handlers.{Op, op_announce, op_withdraw}

-- `detector.Event` of internal/detector/types.go, as far as the controller reads it.
pub record Event : Type 0 where
  pub id : String
  pub rule : Rule
  pub ttl : ℕ
  pub refresh : Bool

pub record Lease : Type 0 where
  pub rule : Rule
  pub expires_at : ℕ

pub record LeaseSnapshot : Type 0 where
  pub event_id : String
  pub family : Family
  pub flowspec : String
  pub expires_at : ℕ

-- An update for the manager, or a rule for the advertiser with whether it is withdrawn.
pub data Message : Type 0 where
  update : Op → Rule → Message
  advert : Rule → Bool → Message

pub record Controller : Type 0 where
  pub leases : List (String × Lease)
  pub dry_run : Bool
  pub has_advertiser : Bool
  pub latest : List LeaseSnapshot
  pub sent : List Message

-- `send` and `advertise`
abbrev pub send : Op → Rule → Controller → Controller
send op r c = record c { sent = c.sent ++ update op r ∷ [] }

abbrev pub advertise : Rule → Bool → Controller → Controller
advertise r withdraw c = record c {
  sent = if c.has_advertiser then c.sent ++ advert r withdraw ∷ [] else c.sent;
}

-- `publish`
abbrev snapshot_of : String × Lease → LeaseSnapshot
snapshot_of (id, l) = record {
  event_id = id;
  family = l.rule.family;
  flowspec = l.rule.raw;
  expires_at = l.expires_at;
}

unfoldable pub publish : Controller → Controller
publish c = record c { latest = map snapshot_of c.leases }

-- `sameRule`
unfoldable pub same_rule : Rule → Rule → Bool
same_rule a b = beq a.raw b.raw

abbrev pub announce_lease : Rule → Controller → Controller
announce_lease r c = advertise r false (send op_announce r c)

abbrev pub withdraw_rule : Rule → Controller → Controller
withdraw_rule r c = advertise r true (send op_withdraw r c)

-- `applyEvent`, when the lease holds the same rule.
abbrev pub refresh_lease : Event → ℕ → Lease → Controller → Controller
refresh_lease ev now old c =
    if ev.refresh
    then publish
        (record c { leases = insert ev.id (record old { expires_at = now + ev.ttl }) c.leases })
    else c

-- `applyEvent`, when there is no such lease or it holds another rule.
abbrev pub replace_lease : Event → ℕ → Option Lease → Controller → Controller
replace_lease ev now old c =
    let new : Lease = record { rule = ev.rule; expires_at = now + ev.ttl } in
    let c' = record c { leases = insert ev.id new c.leases } in
    publish (announce_lease ev.rule (elim old [ none ↦ c' | some l ↦ withdraw_rule l.rule c' ]))

unfoldable pub take_event : Event → ℕ → Option Lease → Controller → Controller
take_event ev now none c = replace_lease ev now none c
take_event ev now (some old) c =
    if same_rule old.rule ev.rule
    then refresh_lease ev now old c
    else replace_lease ev now (some old) c

-- `applyEvent`
unfoldable pub apply_event : Event → ℕ → Controller → Controller
unfolding take_event publish same_rule
apply_event ev now c =
    if ev.ttl == 0 then c else if c.dry_run then c else take_event ev now (lookup ev.id c.leases) c

-- Deleting a lease and telling of it, in `expire` and `withdrawAll`.
abbrev pub drop_lease : String → Lease → Controller → Controller
drop_lease id l c = withdraw_rule l.rule (record c { leases = delete id c.leases })

unfoldable pub expire_from : ℕ → List (String × Lease) → Controller → Controller
expire_from now [] c = c
expire_from now ((id, l) ∷ ls) c =
    expire_from now ls (if ltb now l.expires_at then c else drop_lease id l c)

abbrev pub any_expired : ℕ → List (String × Lease) → Bool
any_expired now [] = false
any_expired now ((id, l) ∷ ls) = not (ltb now l.expires_at) || any_expired now ls

-- `expire`
unfoldable pub expire : ℕ → Controller → Controller
unfolding expire_from publish
expire now c =
    let c' = expire_from now c.leases c in if any_expired now c.leases then publish c' else c'

-- `withdrawAll`
unfoldable pub withdraw_from : List (String × Lease) → Controller → Controller
withdraw_from [] c = c
withdraw_from ((id, l) ∷ ls) c = withdraw_from ls (drop_lease id l c)

unfoldable pub withdraw_all : Controller → Controller
unfolding withdraw_from publish
withdraw_all c = publish (withdraw_from c.leases c)

-- `nextWake`; `none` stands for the zero time.
abbrev pub earlier : Option ℕ → ℕ → Option ℕ
earlier none t = some t
earlier (some next) t = if ltb t next then some t else some next

unfoldable pub earliest : Option ℕ → List (String × Lease) → Option ℕ
earliest next [] = next
earliest next ((id, l) ∷ ls) = earliest (earlier next l.expires_at) ls

abbrev pub hour : ℕ
hour = 3600000000000

abbrev wake_at : ℕ → Option ℕ → ℕ
wake_at now none = hour
wake_at now (some next) = if ltb now next then next - now else 1

unfoldable pub next_wake : ℕ → List (String × Lease) → ℕ
unfolding earliest
next_wake now ls = wake_at now (earliest none ls)
