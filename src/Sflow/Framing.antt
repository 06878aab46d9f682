-- ===== src/Sflow/Framing.antt =====
-- What the readers of internal/sflow consume, and that they stay inside the bytes.
use flowspec_vpp_agent.Prelude.{
  ℕ, ◌+◌, ◌^◌, ◌≤◌, ◌<◌, ◌≡◌, refl, sym, ◌∙◌, true, some, List, ltb, leb, leb→le, length, inl, inr,
  Bool-cases, arith,
}
use flowspec_vpp_agent.Data.Bytes.{
  Bytes, take, drop, big_endian-Bytes, big_endian-oob, length-drop, length-take, drop-Bytes,
  take-Bytes, slice_to-take,
}
use flowspec_vpp_agent.Data.Result.{
  require, Ensures, holds, fails, >>=-Ensures, guard-Ensures, require-Ensures,
}
use flowspec_vpp_agent.Sflow.{Error, word, Frame, frame, Raw, raw_fields}
use flowspec_vpp_agent.Sflow.Reader.{u32, bytes, skip, left, read_take, pad4}

pub u32-oob : (o o' : ℕ) (r : List ℕ) → u32 o r ≡ u32 o' r
unfolding u32
u32-oob o o' r = ground (arith, big_endian-oob o o' r 0 4)

pub u32-length :
    (oob : ℕ) (r : List ℕ) (v : ℕ) (r' : List ℕ)
    → u32 oob r ≡ some (v, r')
    → length r ≡ length r' + 4
unfolding u32
u32-length oob r v r' h = ground (arith, length-drop 4 r)

pub u32-Bytes :
    (oob : ℕ) (r : List ℕ) (v : ℕ) (r' : List ℕ)
    → Bytes r
    → u32 oob r ≡ some (v, r')
    → (v < 2 ^ 32) × Bytes r'
unfolding u32
u32-Bytes oob r v r' b h = elim (Bool-cases (ltb (length r) 4)) [
  | inl t ↦ ground arith
  | inr t ↦ ground (arith, big_endian-Bytes oob r 0 4 b, drop-Bytes 4 r b)
]

-- What is left after some reads.
pub record Within (r r' : List ℕ) : Type 0 where
  pub shorter : length r' ≤ length r
  pub still_bytes : Bytes r → Bytes r'

pub Within-trans : {a b c : List ℕ} → Within a b → Within b c → Within a c
Within-trans {a} {b} {c} p q = record {
  shorter = omega (arith, p.shorter, q.shorter);
  still_bytes = λ h. q.still_bytes (p.still_bytes h);
}

-- A word is 32 bits, and four bytes shorter is the rest.
pub record Word (r : List ℕ) (x : ℕ × List ℕ) : Type 0 where
  pub four : length r ≡ length x.1 + 4
  pub word_bytes : Bytes r → (x.0 < 2 ^ 32) × Bytes x.1

-- The payload lies within the bytes, behind a format and a length.
pub record Framed (r : List ℕ) (f : Frame) : Type 0 where
  pub room : length f.payload + length f.rest + 8 ≤ length r
  pub frame_bytes : Bytes r → Bytes f.payload × Bytes f.rest

pub bytes_lem :
    (bad : List ℕ) (n : ℕ) (r : List ℕ) → n ≤ length r → bytes bad n r ≡ some (take n r, drop n r)
unfolding bytes left
bytes_lem bad n r h = rw (slice_to-take bad r n h) (ground arith)

-- Whatever an out-of-range slice would give, the reader does not make one.
pub bytes-bad : (bad bad' : List ℕ) (n : ℕ) (r : List ℕ) → bytes bad n r ≡ bytes bad' n r
unfolding bytes left
bytes-bad bad bad' n r = elim (Bool-cases (ltb (length r) n)) [
  | inl t ↦ rw t refl
  | inr t ↦ bytes_lem bad n r (ground arith) ∙ sym (bytes_lem bad' n r (ground arith))
]

read_take_lem :
    (bad : List ℕ) (n : ℕ) (r : List ℕ)
    → leb n (left r) ≡ true
    → read_take bad n r ≡ (take n r, drop n r)
unfolding read_take left
read_take_lem bad n r h = rw (bytes_lem bad n r (leb→le n (length r) h), read_take) refl

skip-Within : (bad : List ℕ) (n : ℕ) (r r' : List ℕ) → skip bad n r ≡ some r' → Within r r'
unfolding skip bytes left
skip-Within bad n r r' h = elim (Bool-cases (ltb (length r) n)) [
  | inl t ↦ ground arith
  | inr t ↦
      let q : drop n r ≡ r' = ground arith in
      rw (← q)
        (record { shorter = omega (arith, length-drop n r); still_bytes = λ b. drop-Bytes n r b })
]

pieces-Framed :
    (r : List ℕ) (x y : ℕ × List ℕ) (r' : List ℕ)
    → Word r x
    → Word x.1 y
    → y.0 ≤ left y.1
    → Within (drop y.0 y.1) r'
    → Framed r (record { format = x.0; payload = take y.0 y.1; rest = r' })
unfolding left
pieces-Framed r x y r' w v g p = record {
  room =
      omega (arith, w.four, v.four, p.shorter, length-take (y.0) (y.1) g, length-drop (y.0) (y.1));
  frame_bytes = λ b.
      let c = (v.word_bytes ((w.word_bytes b).1)).1 in
      (take-Bytes (y.0) (y.1) c, p.still_bytes (drop-Bytes (y.0) (y.1) c));
}

pub bytes-Within :
    {E : Type 0} (bad : List ℕ) (e : E) (n : ℕ) (r : List ℕ)
    → Ensures (λ x. Within r x.1) (require e (bytes bad n r))
unfolding bytes left
bytes-Within bad e n r = elim (Bool-cases (ltb (length r) n)) [
  | inl t ↦ rw (t, bytes) (fails e)
  | inr t ↦
      rw (t, bytes)
        (holds _ (record {
          shorter = omega (arith, length-drop n r);
          still_bytes = λ b. drop-Bytes n r b;
        }))
]

module _ (oob : ℕ) where
  pub word-Word : {E : Type 0} (e : E) (r : List ℕ) → Ensures (Word r) (word oob e r)
  word-Word e r = require-Ensures (Word r) e (u32 oob r) (λ x h. record {
    four = u32-length oob r (x.0) (x.1) h;
    word_bytes = λ b. u32-Bytes oob r (x.0) (x.1) b h;
  })

  pub frame-Framed :
      (bad : List ℕ) (e₁ e₂ e₃ : Error) (r : List ℕ) → Ensures (Framed r) (frame oob bad e₁ e₂ e₃ r)
  unfolding frame
  frame-Framed bad e₁ e₂ e₃ r = >>=-Ensures (word-Word e₁ r) (λ x w.
      >>=-Ensures (word-Word e₂ (x.1)) (λ y v.
        >>=-Ensures (guard-Ensures (leb (y.0) (left (y.1))) e₂) (λ _ g.
          rw (read_take_lem bad (y.0) (y.1) g) (
            >>=-Ensures
              (require-Ensures (Within (drop (y.0) (y.1))) e₃
                (skip bad (pad4 (y.0)) (drop (y.0) (y.1)))
                (λ r' q. skip-Within bad (pad4 (y.0)) (drop (y.0) (y.1)) r' q))
              (λ r' p. holds _ (pieces-Framed r x y r' w v (leb→le (y.0) (left (y.1)) g) p))))))

pub Word-Within : {r : List ℕ} {x : ℕ × List ℕ} → Word r x → Within r x.1
Word-Within w = record { shorter = omega (arith, w.four); still_bytes = λ b. (w.word_bytes b).1 }

-- The header of a raw record lies within the record, behind four words.
pub record RawFits (r : List ℕ) (raw : Raw) : Type 0 where
  pub header_room : length raw.header + 16 ≤ length r
  pub header_bytes : Bytes r → Bytes raw.header

pub raw_fields-RawFits : (oob : ℕ) (bad r : List ℕ) → Ensures (RawFits r) (raw_fields oob bad r)
unfolding raw_fields left
raw_fields-RawFits oob bad r = >>=-Ensures (word-Word oob tt r) (λ a u.
    >>=-Ensures (word-Word oob tt (a.1)) (λ b v. >>=-Ensures (word-Word oob tt (b.1)) (λ c w.
      >>=-Ensures (word-Word oob tt (c.1)) (λ d x.
        >>=-Ensures (guard-Ensures (leb (d.0) (left (d.1))) tt) (λ _ g.
          rw (read_take_lem bad (d.0) (d.1) g) (
            holds _ (record {
              header_room = omega (
                arith,
                u.four,
                v.four,
                w.four,
                x.four,
                leb→le (d.0) (left (d.1)) g,
                length-take (d.0) (d.1) (leb→le (d.0) (left (d.1)) g),
              );
              header_bytes = λ h. take-Bytes (d.0) (d.1) (
                  (Within-trans (Word-Within u) (
                      Within-trans (Word-Within v)
                        (Within-trans (Word-Within w) (Word-Within x)))).still_bytes
                    h);
            })))))))
