-- ===== src/Psample.antt =====
-- internal/psample/collector.go: one message of the kernel's PSAMPLE channel decoded into a sample.
-- The netlink library splits a message into attributes; they are the input here.
use flowspec_vpp_agent.Prelude.{
  ℕ, ◌≤◌, ◌≡◌, refl, Bool, true, false, ◌&&◌, ◌||◌, not, Option, none, some, List, [], ◌∷◌, ◌==◌,
  if◌then◌else◌, length, inl, inr, Bool-cases, Option-cases, some_eq, subst, ◌⊎◌, arith,
}
use flowspec_vpp_agent.Data.Bytes.{Bytes}
use flowspec_vpp_agent.Detector.Sample.{Sample, IngressName, unnamed, ifindex}
use flowspec_vpp_agent.Packet.{decode_ethernet, from_ethernet}
use flowspec_vpp_agent.Packet.Fields.{Fits, decode_ethernet-Fits}

pub data Attribute : Type 0 where
  iif_index sample_group sample_rate : ℕ → Attribute  -- uint32
  packet_data : List ℕ → Attribute
  other : Attribute

-- `failed`: the attribute decoder could not be made, or reports an error at the end.
pub record Message : Type 0 where
  pub attributes : List Attribute
  pub failed : Bool

-- The variables that the loop over the attributes sets
pub record Fields : Type 0 where
  pub bytes : List ℕ
  pub rate : ℕ
  pub group : ℕ
  pub index : ℕ
  pub have_group : Bool

-- `ifname`
unfoldable pub ifname : ℕ → IngressName
ifname i = if i == 0 then unnamed else ifindex i

unfoldable pub set_field : Fields → Attribute → Fields
set_field f (iif_index v) = record f { index = v }
set_field f (sample_group v) = record f { group = v; have_group = true }
set_field f (sample_rate v) = record f { rate = v }
set_field f (packet_data b) = record f { bytes = b }
set_field f other = f

unfoldable pub read_fields : Fields → List Attribute → Fields
read_fields f [] = f
read_fields f (a ∷ as') = read_fields (set_field f a) as'

abbrev pub no_fields : Fields
no_fields = record { bytes = []; rate = 0; group = 0; index = 0; have_group = false }

unfoldable pub is_other_group : ℕ → Fields → Bool
is_other_group group f = not (group == 0) && (f.have_group && not (f.group == group))

module _ (oob : ℕ) (bad : List ℕ) where
  -- `Collector.decode`
  unfoldable pub decode : ℕ → Message → ℕ → Option Sample
  decode group m now =
      let f = read_fields no_fields m.attributes in
      if m.failed || length f.bytes == 0
      then none
      else if is_other_group group f
      then none
      else from_ethernet oob bad f.bytes now f.rate (ifname f.index)

  from_ethernet-fields :
      (b : List ℕ) (now rate : ℕ) (input : IngressName) (s : Sample)
      → Bytes b
      → from_ethernet oob bad b now rate input ≡ some s
      → Fits s × (1 ≤ s.sample_rate) × (s.seen_at ≡ now) × (s.ingress_if ≡ input)
  unfolding from_ethernet
  from_ethernet-fields b now rate input s h e = elim (Option-cases (decode_ethernet oob bad b)) [
    | inl t ↦ absurd (let z : none ≡ some s = rw (t, from_ethernet) at e in cc)
    | inr (s', t) ↦
        let z = some_eq (rw (t, from_ethernet) at e) in
        let f = decode_ethernet-Fits oob bad b s' h t in
        subst (λ s. Fits s × (1 ≤ s.sample_rate) × (s.seen_at ≡ now) × (s.ingress_if ≡ input)) z
          (
            record {
              src_fits = f.src_fits;
              dst_fits = f.dst_fits;
              proto_fits = f.proto_fits;
              src_port_fits = f.src_port_fits;
              dst_port_fits = f.dst_port_fits;
              packet_len_fits = f.packet_len_fits;
              tcp_flags_fits = f.tcp_flags_fits;
              icmp_type_fits = f.icmp_type_fits;
              icmp_code_fits = f.icmp_code_fits;
            },
            ground arith,
            refl,
            refl,
          )
  ]

-- The last group attribute of a message, and whether its data are bytes.
pub last_group : Option ℕ → List Attribute → Option ℕ
last_group g [] = g
last_group g (sample_group v ∷ as') = last_group (some v) as'
last_group g (_ ∷ as') = last_group g as'

abbrev pub AllBytes : List Attribute → Type 0
AllBytes [] = Unit
AllBytes (packet_data b ∷ as') = Bytes b × AllBytes as'
AllBytes (_ ∷ as') = AllBytes as'

-- What the fields say of the group.
seen_group : Fields → Option ℕ
seen_group f = if f.have_group then some f.group else none

read_fields-group :
    (f : Fields) (as' : List Attribute)
    → seen_group (read_fields f as') ≡ last_group (seen_group f) as'
unfolding read_fields set_field last_group seen_group
read_fields-group f [] = refl
read_fields-group f (iif_index v ∷ as') = read_fields-group (set_field f (iif_index v)) as'
read_fields-group f (sample_group v ∷ as') = read_fields-group (set_field f (sample_group v)) as'
read_fields-group f (sample_rate v ∷ as') = read_fields-group (set_field f (sample_rate v)) as'
read_fields-group f (packet_data b ∷ as') = read_fields-group (set_field f (packet_data b)) as'
read_fields-group f (other ∷ as') = read_fields-group f as'

read_fields-Bytes :
    (f : Fields) (as' : List Attribute)
    → Bytes f.bytes
    → AllBytes as'
    → Bytes (read_fields f as').bytes
unfolding read_fields set_field
read_fields-Bytes f [] h k = h
read_fields-Bytes f (iif_index v ∷ as') h k = read_fields-Bytes (set_field f (iif_index v)) as' h k
read_fields-Bytes f (sample_group v ∷ as') h k =
    read_fields-Bytes (set_field f (sample_group v)) as' h k
read_fields-Bytes f (sample_rate v ∷ as') h k =
    read_fields-Bytes (set_field f (sample_rate v)) as' h k
read_fields-Bytes f (packet_data b ∷ as') h k =
    read_fields-Bytes (set_field f (packet_data b)) as' k.0 k.1
read_fields-Bytes f (other ∷ as') h k = read_fields-Bytes f as' h k

-- The message may be read with the group that is configured, where 0 accepts every group.
abbrev pub Wanted : ℕ → Message → Type 0
Wanted group m =
    (group ≡ 0)
    ⊎ ((last_group none m.attributes ≡ none) ⊎ (last_group none m.attributes ≡ some group))

wanted_lem :
    (group : ℕ) (f : Fields)
    → is_other_group group f ≡ false
    → (group ≡ 0) ⊎ ((seen_group f ≡ none) ⊎ (seen_group f ≡ some group))
unfolding is_other_group seen_group
wanted_lem group f h = elim (Bool-cases (group == 0)) [
  | inl t ↦ inl (ground arith)
  | inr t ↦
      inr
        (elim (Bool-cases f.have_group) [ inl k ↦ inr (ground arith) | inr k ↦ inl (ground arith) ])
]

wanted_by_fields :
    (m : Message) (group : ℕ)
    → (group ≡ 0)
      ⊎ ((seen_group (read_fields no_fields m.attributes) ≡ none)
          ⊎ (seen_group (read_fields no_fields m.attributes) ≡ some group))
    → (group ≡ 0)
      ⊎ ((last_group none m.attributes ≡ none) ⊎ (last_group none m.attributes ≡ some group))
unfolding seen_group
wanted_by_fields m group h = rw (read_fields-group no_fields m.attributes) at h

-- A sample comes only from a message without an error whose last group attribute, if it has one, is
-- the configured group (0 accepts any). Its fields fit, its sampling rate is at least 1 also where the
-- message says 0 or nothing, and it carries the time of receipt.
pub decode-Wanted :
    (oob : ℕ) (bad : List ℕ) (group : ℕ) (m : Message) (now : ℕ) (s : Sample)
    → AllBytes m.attributes
    → decode oob bad group m now ≡ some s
    → (m.failed ≡ false) × Wanted group m × Fits s × (1 ≤ s.sample_rate) × (s.seen_at ≡ now)
unfolding decode
decode-Wanted oob bad group m now s h e =
    let f = read_fields no_fields m.attributes in
    elim (Bool-cases (m.failed || length f.bytes == 0)) [
      | inl t ↦ absurd (let z : none ≡ some s = rw (t, decode) at e in cc)
      | inr t ↦ elim (Bool-cases (is_other_group group f)) [
        | inl k ↦ absurd (let z : none ≡ some s = rw (t, k, decode) at e in cc)
        | inr k ↦
            let z : from_ethernet oob bad f.bytes now f.rate (ifname f.index) ≡ some s =
              rw (t, k, decode) at e in
            let w =
              from_ethernet-fields oob bad f.bytes now f.rate (ifname f.index) s
                (read_fields-Bytes no_fields m.attributes tt h) z in
            (ground arith, wanted_by_fields m group (wanted_lem group f k), w.0, w.1, w.2)
      ]
    ]
