-- ===== src/ReturnData.antt =====
-- The class ReturnData of packages/hardhat-core/src/internal/hardhat-network/provider/
-- return-data.ts. A buffer is a list of bytes, and so is a selector. `rawDecode` of ethereumjs-abi
-- is a parameter.
use hardhat.Prelude.{
  ℕ, zero, suc, ◌+◌, ◌*◌, ◌/◌, ◌%◌, ◌<◌, ◌≡◌, refl, ap, ◌∙◌, Bool, true, false, List, [], ◌∷◌, ◌++◌,
  Option, none, some, list_beq, arith,
}

pub data DecodeError : Type 0 where
  unexpected_selector not_a_number : DecodeError

pub data Decoded (A : Type 0) : Type 0 where
  decoded : A → Decoded A
  failed : DecodeError → Decoded A

abbrev pub error_selector : List ℕ
error_selector = 8 ∷ 195 ∷ 121 ∷ 160 ∷ []

abbrev pub panic_selector : List ℕ
panic_selector = 78 ∷ 72 ∷ 123 ∷ 113 ∷ []

-- the selector that the constructor stores
abbrev pub get_selector : List ℕ → Option (List ℕ)
get_selector (a ∷ b ∷ c ∷ d ∷ rest) = some (a ∷ b ∷ c ∷ d ∷ [])
get_selector _ = none

unfoldable pub matches_selector : List ℕ → List ℕ → Bool
matches_selector selector value = elim (get_selector value) [
  | none ↦ false
  | some s ↦ list_beq s selector
]

abbrev pub is_error_return_data : List ℕ → Bool
is_error_return_data = matches_selector error_selector

abbrev pub is_panic_return_data : List ℕ → Bool
is_panic_return_data = matches_selector panic_selector

-- `this.value.slice(4)`
abbrev pub payload : List ℕ → List ℕ
payload (a ∷ b ∷ c ∷ d ∷ rest) = rest
payload _ = []

unfoldable pub decode_error : (List ℕ → List ℕ) → List ℕ → Decoded (List ℕ)
decode_error raw_decode [] = decoded []
decode_error raw_decode (b ∷ bytes) = elim (is_error_return_data (b ∷ bytes)) [
  | false ↦ failed unexpected_selector
  | true ↦ decoded (raw_decode (payload (b ∷ bytes)))
]

-- the number that the hexadecimal digits of the bytes spell
unfoldable pub big_endian : ℕ → List ℕ → ℕ
big_endian high [] = high
big_endian high (b ∷ bytes) = big_endian (high * 256 + b) bytes

-- `BigInt("0x")` throws.
unfoldable pub decode_panic : List ℕ → Decoded ℕ
decode_panic value = elim (is_panic_return_data value) [
  | false ↦ failed unexpected_selector
  | true ↦ elim (payload value) [
    | [] ↦ failed not_a_number
    | b ∷ bytes ↦ decoded (big_endian 0 (b ∷ bytes))
  ]
]

-- a number as `width` bytes, the highest one first, and the first number that does not fit
unfoldable pub to_bytes : ℕ → ℕ → List ℕ
to_bytes zero n = []
to_bytes (suc width) n = to_bytes width (n / 256) ++ n % 256 ∷ []

unfoldable pub limit : ℕ → ℕ
limit zero = 1
limit (suc width) = limit width * 256

big_endian-push :
    (bytes : List ℕ) (high b : ℕ)
    → big_endian high (bytes ++ b ∷ []) ≡ big_endian high bytes * 256 + b
unfolding big_endian
big_endian-push [] high b = refl
big_endian-push (a ∷ bytes) high b = big_endian-push bytes (high * 256 + a) b

big_endian-to_bytes : (width n : ℕ) → n < limit width → big_endian 0 (to_bytes width n) ≡ n
unfolding to_bytes limit
big_endian-to_bytes zero n h = unfold big_endian in omega (arith, h)
big_endian-to_bytes (suc width) n h =
    let rest = big_endian-to_bytes width (n / 256) (omega (arith, h)) in
    omega (arith, rest, big_endian-push (to_bytes width (n / 256)) 0 (n % 256))

decode_panic-payload :
    (bytes : List ℕ) (b : ℕ)
    → decode_panic (panic_selector ++ (bytes ++ b ∷ [])) ≡ decoded (big_endian 0 (bytes ++ b ∷ []))
unfolding decode_panic matches_selector
decode_panic-payload [] b = refl
decode_panic-payload (a ∷ bytes) b = refl

-- A code that is encoded as the selector of Panic and the code in a positive number of bytes, into
-- which it fits, is decoded as it is.
pub decode_panic-to_bytes :
    (width code : ℕ)
    → code < limit (suc width)
    → decode_panic (panic_selector ++ to_bytes (suc width) code) ≡ decoded code
unfolding to_bytes
decode_panic-to_bytes width code h =
    decode_panic-payload (to_bytes width (code / 256)) (code % 256)
    ∙ ap decoded (big_endian-to_bytes (suc width) code h)
