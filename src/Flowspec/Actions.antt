-- ===== src/Flowspec/Actions.antt =====
-- internal/flowspec/parse.go: which communities make a route a drop rule.
use Prim.Native.String.{String}
use flowspec_vpp_agent.Prelude.{
  ◌≡◌, ◌∙◌, ◌||◌, not, refl, ap, Bool, true, false, Option, none, some, List, [], ◌∷◌, ◌++◌,
  if◌then◌else◌, arith,
}
use flowspec_vpp_agent.Flowspec.{Action, action_unknown, action_drop, action_unsupported}
use flowspec_vpp_agent.Flowspec.Wire.{
  Community, traffic_rate, traffic_action, traffic_remark, redirect, other_community, Attribute,
  extended_communities, other_attribute,
}
use flowspec_vpp_agent.Flowspec.Parse.{Found, see, see_all, see_attributes, parse_action}

abbrev pub is_drop : Community → Bool
is_drop (traffic_rate zero_rate text) = zero_rate
is_drop _ = false

-- An action that the agent cannot carry out.
abbrev pub is_unsupported : Community → Bool
is_unsupported (traffic_rate zero_rate text) = not zero_rate
is_unsupported other_community = false
is_unsupported _ = true

abbrev pub any : (Community → Bool) → List Community → Bool
any p [] = false
any p (c ∷ cs) = p c || any p cs

-- The communities of all extended-community attributes, in order.
pub communities : List Attribute → List Community
communities [] = []
communities (extended_communities cs ∷ as') = cs ++ communities as'
communities (other_attribute ∷ as') = communities as'

see_all-append :
    (f : Found) (cs ds : List Community) → see_all f (cs ++ ds) ≡ see_all (see_all f cs) ds
unfolding see_all
see_all-append f [] ds = refl
see_all-append f (c ∷ cs) ds = see_all-append (see f c) cs ds

see_attributes-communities :
    (f : Found) (as' : List Attribute) → see_attributes f as' ≡ see_all f (communities as')
unfolding see_attributes see_all communities
see_attributes-communities f [] = refl
see_attributes-communities f (extended_communities cs ∷ as') =
    rw (see_all-append f cs (communities as')) (see_attributes-communities (see_all f cs) as')
see_attributes-communities f (other_attribute ∷ as') = see_attributes-communities f as'

abbrev is_some : Option String → Bool
is_some none = false
is_some (some _) = true

see_all-drop : (f : Found) (cs : List Community) → (see_all f cs).drop ≡ (f.drop || any is_drop cs)
unfolding see_all see
see_all-drop f [] = ground arith
see_all-drop f (traffic_rate true text ∷ cs) =
    see_all-drop (see f (traffic_rate true text)) cs ∙ ground arith
see_all-drop f (traffic_rate false text ∷ cs) = see_all-drop (see f (traffic_rate false text)) cs
see_all-drop f (traffic_action ∷ cs) = see_all-drop (see f traffic_action) cs
see_all-drop f (traffic_remark ∷ cs) = see_all-drop (see f traffic_remark) cs
see_all-drop f (redirect ∷ cs) = see_all-drop (see f redirect) cs
see_all-drop f (other_community ∷ cs) = see_all-drop f cs

see_all-unsupported :
    (f : Found) (cs : List Community)
    → is_some (see_all f cs).unsupported ≡ (is_some f.unsupported || any is_unsupported cs)
unfolding see_all see
see_all-unsupported f [] = ground arith
see_all-unsupported f (traffic_rate true text ∷ cs) =
    see_all-unsupported (see f (traffic_rate true text)) cs
see_all-unsupported f (traffic_rate false text ∷ cs) =
    see_all-unsupported (see f (traffic_rate false text)) cs ∙ ground arith
see_all-unsupported f (traffic_action ∷ cs) =
    see_all-unsupported (see f traffic_action) cs ∙ ground arith
see_all-unsupported f (traffic_remark ∷ cs) =
    see_all-unsupported (see f traffic_remark) cs ∙ ground arith
see_all-unsupported f (redirect ∷ cs) = see_all-unsupported (see f redirect) cs ∙ ground arith
see_all-unsupported f (other_community ∷ cs) = see_all-unsupported f cs

kind_of :
    (f : Found) {u d : Bool}
    → is_some f.unsupported ≡ u
    → f.drop ≡ d
    → (elim (f.unsupported) as (λ _. Action) [
      | some text ↦ record { kind = action_unsupported; desc = text }
      | none ↦
          if f.drop
          then record { kind = action_drop; desc = "traffic-rate=0" }
          else record { kind = action_unknown; desc = "no action" }
    ]).kind
      ≡ (if u then action_unsupported else if d then action_drop else action_unknown)
kind_of f hu hd = ground arith

-- The action of a route depends on which communities occur in its attributes, not on their order or
-- on how they are spread over attributes: with one that is unsupported the action is unsupported,
-- otherwise with a zero traffic rate it is a drop, and otherwise it is unknown. Communities that the
-- code does not recognise count for nothing.
pub parse_action-kind :
    (attrs : List Attribute)
    → (parse_action attrs).kind ≡ (
        if any is_unsupported (communities attrs)
        then action_unsupported
        else if any is_drop (communities attrs)
        then action_drop
        else action_unknown)
unfolding parse_action
parse_action-kind attrs =
    let start : Found = record { drop = false; unsupported = none } in
    let cs = communities attrs in
    let e = see_attributes-communities start attrs in
    kind_of (see_attributes start attrs)
      (ap (λ f. is_some f.unsupported) e ∙ see_all-unsupported start cs)
      (ap (λ f. f.drop) e ∙ see_all-drop start cs)
