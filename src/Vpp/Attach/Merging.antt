-- ===== src/Vpp/Attach/Merging.antt =====
-- What merging keeps of the ACLs of an interface, and that doing it again changes nothing.
use flowspec_vpp_agent.Prelude.{
  ℕ, ◌+◌, ◌-◌, ◌%◌, ◌^◌, ◌≤◌, ◌<◌, ◌≡◌, refl, ◌∙◌, sym, ap, ap₂, Bool, true, false, List, [], ◌∷◌,
  ◌++◌, length, length-append, append_assoc, ltb, ◌==◌, if◌then◌else◌, All, Bool-cases, inl, inr,
  arith,
}
use flowspec_vpp_agent.Vpp.Types.{Direction, ingress, egress}
use flowspec_vpp_agent.Vpp.Attach.{split_from, split_non_managed, merge_parts, merge_managed_last}

-- The ACLs that are not managed, in order.
abbrev pub unmanaged : (ℕ → Bool) → List ℕ → List ℕ
unmanaged managed [] = []
unmanaged managed (a ∷ acls) =
    let rest = unmanaged managed acls in if managed a then rest else a ∷ rest

-- The first `n` ACLs, and the ones past them.
abbrev pub take : ℕ → List ℕ → List ℕ
take n [] = []
take n (a ∷ acls) = let rest = take (n - 1) acls in if n == 0 then [] else a ∷ rest

abbrev pub drop : ℕ → List ℕ → List ℕ
drop n [] = []
drop n (a ∷ acls) = let rest = drop (n - 1) acls in if n == 0 then a ∷ acls else rest

take_zero : (acls : List ℕ) → take 0 acls ≡ []
take_zero [] = refl
take_zero (a ∷ acls) = refl

drop_zero : (acls : List ℕ) → drop 0 acls ≡ acls
drop_zero [] = refl
drop_zero (a ∷ acls) = refl

append_nil : (acls : List ℕ) → acls ++ [] ≡ acls
append_nil [] = refl
append_nil (a ∷ acls) = ap (a ∷◌) (append_nil acls)

sub_zero : (n : ℕ) → n - 0 ≡ n
sub_zero n = omega arith

split_from_lem :
    (managed : ℕ → Bool) (n i : ℕ) (into out cur : List ℕ)
    → i + length cur ≤ 256
    → split_from managed n i into out cur
      ≡ (into ++ unmanaged managed (take (n - i) cur), out ++ unmanaged managed (drop (n - i) cur))
unfolding split_from
split_from_lem managed n i into out [] h =
    ap₂ (λ x y. (x, y)) (sym (append_nil into)) (sym (append_nil out))
split_from_lem managed n i into out (a ∷ cur) h =
    let small : i % 2 ^ 8 ≡ i = omega arith in
    let next : (n - i) - 1 ≡ n - (i + 1) = omega arith in
    elim (Bool-cases (ltb i n)) [
      | inl input ↦
          let more : (n - i == 0) ≡ false = ground arith in
          elim (Bool-cases (managed a)) [
            | inl m ↦
                rw (m, next, more, m) (split_from_lem managed n (i + 1) into out cur (omega arith))
            | inr m ↦
                rw (m, next, more, small, input, m)
                  (split_from_lem managed n (i + 1) (into ++ a ∷ []) out cur (omega arith)
                    ∙ rw (append_assoc into (a ∷ []) (unmanaged managed (take (n - (i + 1)) cur))))
          ]
      | inr output ↦
          let over : n - i ≡ 0 = ground arith in
          let over' : n - (i + 1) ≡ 0 = ground arith in
          elim (Bool-cases (managed a)) [
            | inl m ↦
                rw (m, over, m)
                  (split_from_lem managed n (i + 1) into out cur (omega arith)
                    ∙ rw (over', take_zero cur, drop_zero cur))
            | inr m ↦
                rw (m, over, small, output, m)
                  (split_from_lem managed n (i + 1) into (out ++ a ∷ []) cur (omega arith)
                    ∙ rw (
                      over',
                      take_zero cur,
                      drop_zero cur,
                      append_assoc out (a ∷ []) (unmanaged managed cur),
                    ))
          ]
    ]

-- For a list whose length VPP's 8-bit count can hold, splitting gives the ACLs not managed of the first
-- `n_input` ones and of the others, each in order.
pub split_non_managed_lem :
    (cur : List ℕ) (n_input : ℕ) (managed : ℕ → Bool)
    → length cur ≤ 256
    → split_non_managed cur n_input managed
      ≡ (unmanaged managed (take n_input cur), unmanaged managed (drop n_input cur))
unfolding split_non_managed
split_non_managed_lem cur n_input managed h =
    split_from_lem managed n_input 0 [] [] cur (omega arith) ∙ rw (sub_zero n_input)

unmanaged-append :
    (managed : ℕ → Bool) (xs ys : List ℕ)
    → unmanaged managed (xs ++ ys) ≡ unmanaged managed xs ++ unmanaged managed ys
unmanaged-append managed [] ys = refl
unmanaged-append managed (x ∷ xs) ys = ground (arith, unmanaged-append managed xs ys)

unmanaged-All :
    (managed : ℕ → Bool) (ours : List ℕ)
    → All (λ a. managed a ≡ true) ours
    → unmanaged managed ours ≡ []
unmanaged-All managed [] h = refl
unmanaged-All managed (a ∷ ours) h = rw h.0 (unmanaged-All managed ours h.1)

unmanaged_twice :
    (managed : ℕ → Bool) (xs : List ℕ)
    → unmanaged managed (unmanaged managed xs) ≡ unmanaged managed xs
unmanaged_twice managed [] = refl
unmanaged_twice managed (x ∷ xs) = elim (Bool-cases (managed x)) [
  | inl m ↦ rw m (unmanaged_twice managed xs)
  | inr m ↦ rw (m, m) (ap (x ∷◌) (unmanaged_twice managed xs))
]

take-length : (xs ys : List ℕ) → take (length xs) (xs ++ ys) ≡ xs
take-length [] ys = take_zero ys
take-length (x ∷ xs) ys = ground (arith, take-length xs ys)

drop-length : (xs ys : List ℕ) → drop (length xs) (xs ++ ys) ≡ ys
drop-length [] ys = drop_zero ys
drop-length (x ∷ xs) ys = ground (arith, drop-length xs ys)

length-unmanaged : (managed : ℕ → Bool) (xs : List ℕ) → length (unmanaged managed xs) ≤ length xs
length-unmanaged managed [] = omega arith
length-unmanaged managed (x ∷ xs) = ground (arith, length-unmanaged managed xs)

length-take-drop : (n : ℕ) (xs : List ℕ) → length (take n xs) + length (drop n xs) ≡ length xs
length-take-drop n [] = omega arith
length-take-drop n (x ∷ xs) = ground (arith, length-take-drop (n - 1) xs)

-- The operator's ACLs of each direction, which merging keeps in order, ours behind them.
abbrev pub inputs : List ℕ → ℕ → (ℕ → Bool) → List ℕ
inputs cur n managed = unmanaged managed (take n cur)

abbrev pub outputs : List ℕ → ℕ → (ℕ → Bool) → List ℕ
outputs cur n managed = unmanaged managed (drop n cur)

abbrev pub behind : Direction → Direction → List ℕ → List ℕ
behind ingress ingress ours = ours
behind egress egress ours = ours
behind _ _ ours = []

behind_managed :
    (managed : ℕ → Bool) (ours : List ℕ) (dir side : Direction)
    → All (λ a. managed a ≡ true) ours
    → unmanaged managed (behind dir side ours) ≡ []
behind_managed managed ours ingress ingress h = unmanaged-All managed ours h
behind_managed managed ours egress egress h = unmanaged-All managed ours h
behind_managed managed ours ingress egress h = refl
behind_managed managed ours egress ingress h = refl

length-behind :
    (dir : Direction) (ours : List ℕ)
    → length (behind dir ingress ours) + length (behind dir egress ours) ≡ length ours
length-behind ingress ours = omega arith
length-behind egress ours = omega arith

split_length :
    (cur : List ℕ) (n : ℕ) (managed : ℕ → Bool)
    → length (inputs cur n managed) + length (outputs cur n managed) ≤ length cur
split_length cur n managed =
    let a = length-unmanaged managed (take n cur) in
    let b = length-unmanaged managed (drop n cur) in let c = length-take-drop n cur in omega arith

merge_parts_lem :
    (dir : Direction) (into out ours : List ℕ)
    → length into + length out + length ours < 256
    → merge_parts dir into out ours ≡ (
      (into ++ behind dir ingress ours) ++ (out ++ behind dir egress ours),
      length (into ++ behind dir ingress ours),
    )
merge_parts_lem ingress into out ours h =
    let l = length-append into ours in
    let small : length (into ++ ours) % 2 ^ 8 ≡ length (into ++ ours) = omega arith in
    rw (append_nil out, small)
merge_parts_lem egress into out ours h =
    let small : length into % 2 ^ 8 ≡ length into = omega arith in rw (append_nil into, small)

merge_lem :
    (cur : List ℕ) (n : ℕ) (managed : ℕ → Bool) (ours : List ℕ) (dir : Direction)
    → length cur ≤ 256
    → length (inputs cur n managed) + length (outputs cur n managed) + length ours < 256
    → merge_managed_last cur n managed ours dir ≡ (
      (inputs cur n managed ++ behind dir ingress ours)
          ++ (outputs cur n managed ++ behind dir egress ours),
      length (inputs cur n managed ++ behind dir ingress ours),
    )
unfolding merge_managed_last
merge_lem cur n managed ours dir h room =
    rw (split_non_managed_lem cur n managed h)
      (merge_parts_lem dir (inputs cur n managed) (outputs cur n managed) ours room)

-- When the list and our ACLs together fit VPP's 8-bit count, the merged list is the operator's
-- input ACLs in order, ours if they are inputs, the operator's output ACLs in order and ours if
-- they are outputs, and the count of inputs is that of the first two parts.
pub merge_managed_last_lem :
    (cur : List ℕ) (n_input : ℕ) (managed : ℕ → Bool) (ours : List ℕ) (dir : Direction)
    → length cur + length ours < 256
    → merge_managed_last cur n_input managed ours dir ≡ (
      (inputs cur n_input managed ++ behind dir ingress ours)
          ++ (outputs cur n_input managed ++ behind dir egress ours),
      length (inputs cur n_input managed ++ behind dir ingress ours),
    )
merge_managed_last_lem cur n_input managed ours dir h =
    let l = split_length cur n_input managed in
    merge_lem cur n_input managed ours dir (omega arith) (omega arith)

-- Stripping what `merge_lem` describes gives the operator's ACLs again.
strip :
    (managed : ℕ → Bool) (xs ours : List ℕ) (dir side : Direction)
    → All (λ a. managed a ≡ true) ours
    → unmanaged managed (unmanaged managed xs ++ behind dir side ours) ≡ unmanaged managed xs
strip managed xs ours dir side all =
    unmanaged-append managed (unmanaged managed xs) (behind dir side ours)
    ∙ rw (unmanaged_twice managed xs, behind_managed managed ours dir side all)
        (append_nil (unmanaged managed xs))

-- Merging again what was merged changes nothing, when our ACLs are managed ones and there is room.
pub merge_managed_last_twice :
    (cur : List ℕ) (n_input : ℕ) (managed : ℕ → Bool) (ours : List ℕ) (dir : Direction)
    → length cur + length ours < 256
    → All (λ a. managed a ≡ true) ours
    → merge_managed_last
        (merge_managed_last cur n_input managed ours dir).0
        (merge_managed_last cur n_input managed ours dir).1
        managed
        ours
        dir
      ≡ merge_managed_last cur n_input managed ours dir
merge_managed_last_twice cur n_input managed ours dir h all =
    let a = inputs cur n_input managed ++ behind dir ingress ours in
    let b = outputs cur n_input managed ++ behind dir egress ours in
    let once = merge_managed_last_lem cur n_input managed ours dir h in
    let l = split_length cur n_input managed in
    let both = length-behind dir ours in
    let la = length-append (inputs cur n_input managed) (behind dir ingress ours) in
    let lb = length-append (outputs cur n_input managed) (behind dir egress ours) in
    let lab = length-append a b in
    let into : inputs (a ++ b) (length a) managed ≡ inputs cur n_input managed =
      ap (unmanaged managed) (take-length a b)
      ∙ strip managed (take n_input cur) ours dir ingress all in
    let out : outputs (a ++ b) (length a) managed ≡ outputs cur n_input managed =
      ap (unmanaged managed) (drop-length a b)
      ∙ strip managed (drop n_input cur) ours dir egress all in
    rw once (
      merge_lem (a ++ b) (length a) managed ours dir (omega arith) (rw (into, out) (omega arith))
      ∙ rw (into, out))
