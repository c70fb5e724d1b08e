-- ===== src/StackTraces/Bytecodes.antt =====
-- The class Bytecode of model.ts, as far as contracts are identified by it, and getOpcodeLength of
-- opcodes.ts.
use hardhat.Prelude.{ℕ, ◌+◌, ◌-◌, Bool, ◌&&◌, List, leb, if◌then◌else◌}

-- `{ start, length }`
pub record Slice : Type 0 where
  pub start : ℕ
  pub length : ℕ

pub record Bytecode : Type 0 where
  -- stands for the contract, the instructions and the compiler's version
  pub contract : ℕ
  pub is_deployment : Bool
  pub normalized_code : List ℕ
  pub library_address_positions : List ℕ
  pub immutable_references : List Slice

abbrev pub push1 : ℕ
push1 = 96

abbrev pub push20 : ℕ
push20 = 115

abbrev pub push32 : ℕ
push32 = 127

abbrev pub revert_opcode : ℕ
revert_opcode = 253

abbrev pub invalid_opcode : ℕ
invalid_opcode = 254

abbrev pub is_push : ℕ → Bool
is_push opcode = leb push1 opcode && leb opcode push32

abbrev pub get_push_length : ℕ → ℕ
get_push_length opcode = opcode - push1 + 1

abbrev pub get_opcode_length : ℕ → ℕ
get_opcode_length opcode = if is_push opcode then 1 + get_push_length opcode else 1
