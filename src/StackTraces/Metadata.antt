-- ===== src/StackTraces/Metadata.antt =====
-- _isMatchingMetadata of contracts-identifier.ts. Its loop goes from opcode to opcode, and each is at
-- least one byte long, so as many rounds as there are bytes are enough.
use hardhat.Prelude.{
  ℕ, zero, suc, ◌+◌, ◌≤◌, ◌<◌, ◌≡◌, ◌↔◌, ◌⊎◌, refl, subst, Bool, true, false, ◌&&◌, List, Option,
  none, some, get_elem?, ltb, option_beq, if◌then◌else◌, inl, inr, Bool-cases, arith,
}
use hardhat.Prelude.Int.{ℤ, pos_part}
use hardhat.StackTraces.Bytecodes.{get_opcode_length, revert_opcode, invalid_opcode}

-- `getOpcodeLength(code[byte])`; behind the end of the code it is that of `undefined`
abbrev pub length_at : List ℕ → ℕ → ℕ
length_at code byte = elim (get_elem? code byte) [
  | none ↦ 1
  | some opcode ↦ get_opcode_length opcode
]

abbrev pub is_end : List ℕ → ℕ → Bool
is_end code byte =
    option_beq (get_elem? code byte) (some revert_opcode)
    && option_beq (get_elem? code (byte + 1)) (some invalid_opcode)

unfoldable pub metadata_loop : ℕ → List ℕ → ℕ → ℕ → Option Bool
metadata_loop zero code last_byte byte = none
metadata_loop (suc fuel) code last_byte byte =
    let rest = metadata_loop fuel code last_byte (byte + length_at code byte) in
    let round = if is_end code byte then some true else rest in
    if ltb byte last_byte then round else some false

unfoldable pub is_matching_metadata : List ℕ → ℤ → Option Bool
unfolding metadata_loop
is_matching_metadata code last_byte =
    metadata_loop (pos_part last_byte + 1) code (pos_part last_byte) 0

-- an opcode begins at the byte when the code is read from the index
pub data Opcode (code : List ℕ) (byte : ℕ) : ℕ → Type 0 where
  first : (from : ℕ) → from ≡ byte → Opcode code byte from
  next : (from : ℕ) → Opcode code byte (from + length_at code from) → Opcode code byte from

-- REVERT INVALID stands at an opcode before the last byte
pub record EndsBefore (code : List ℕ) (from last_byte : ℕ) : Type 0 where
  pub byte : ℕ
  pub opcode : Opcode code byte from
  pub before : byte < last_byte
  pub is_end : is_end code byte ≡ true

length_at_pos : (code : List ℕ) (byte : ℕ) → 0 < length_at code byte
length_at_pos code byte = ground arith

Opcode-le : (code : List ℕ) (byte : ℕ) {from : ℕ} → Opcode code byte from → from ≤ byte
Opcode-le code byte (first from e) = omega arith
Opcode-le code byte (next from o) = omega (arith, Opcode-le code byte o)

Opcode-cases :
    (code : List ℕ) (byte : ℕ) {from : ℕ}
    → Opcode code byte from
    → (from ≡ byte) ⊎ Opcode code byte (from + length_at code from)
Opcode-cases code byte (first from e) = inl e
Opcode-cases code byte (next from o) = inr o

from_later :
    (code : List ℕ) (last_byte byte : ℕ)
    → EndsBefore code (byte + length_at code byte) last_byte
    → EndsBefore code byte last_byte
from_later code last_byte byte s = record {
  byte = s.byte;
  opcode = next byte s.opcode;
  before = s.before;
  is_end = s.is_end;
}

to_later :
    (code : List ℕ) (last_byte byte : ℕ)
    → is_end code byte ≡ false
    → EndsBefore code byte last_byte
    → EndsBefore code (byte + length_at code byte) last_byte
to_later code last_byte byte e s = elim (Opcode-cases code s.byte s.opcode) [
  | inl here ↦ absurd (false_true (subst (λ n. is_end code n ≡ false) here e) s.is_end)
  | inr o ↦ record { byte = s.byte; opcode = o; before = s.before; is_end = s.is_end }
]
  where
    false_true : {b : Bool} → b ≡ false → b ≡ true → ⊥
    false_true e t = cc

metadata_loop-ends :
    (fuel : ℕ) (code : List ℕ) (last_byte byte : ℕ)
    → last_byte < fuel + byte
    → 0 < fuel
    → (b : Bool) × (metadata_loop fuel code last_byte byte ≡ some b)
      × ((b ≡ true) ↔ EndsBefore code byte last_byte)
unfolding metadata_loop
metadata_loop-ends zero code last_byte byte h f = absurd (omega arith)
metadata_loop-ends (suc fuel) code last_byte byte h f = elim (Bool-cases (ltb byte last_byte)) [
  | inr past ↦ (
    false,
    ground arith,
    (λ e. absurd (cc), λ s. absurd (ground (arith, Opcode-le code s.byte s.opcode, s.before))),
  )
  | inl inside ↦ elim (Bool-cases (is_end code byte)) [
    | inl e ↦ (
      true,
      ground arith,
      (
        λ _. record { byte = byte; opcode = first byte refl; before = ground arith; is_end = e },
        λ _. refl,
      ),
    )
    | inr e ↦
        let (b, r, iff) =
          metadata_loop-ends fuel code last_byte (byte + length_at code byte)
            (omega (arith, length_at_pos code byte)) (ground arith) in
        (
          b,
          rw (inside, e) r,
          (
            λ t. from_later code last_byte byte (iff.0 t),
            λ s. iff.1 (to_later code last_byte byte e s),
          ),
        )
  ]
]

-- The loop always ends, and finds that the metadata matches exactly if REVERT INVALID stands, at
-- the beginning of an opcode, before the last byte.
pub is_matching_metadata-ends :
    (code : List ℕ) (last_byte : ℤ)
    → (b : Bool) × (is_matching_metadata code last_byte ≡ some b)
      × ((b ≡ true) ↔ EndsBefore code 0 (pos_part last_byte))
unfolding is_matching_metadata
is_matching_metadata-ends code last_byte =
    metadata_loop-ends (pos_part last_byte + 1) code (pos_part last_byte) 0 (omega arith)
      (omega arith)
