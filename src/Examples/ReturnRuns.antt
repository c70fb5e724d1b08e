-- ===== src/Examples/ReturnRuns.antt =====
-- The theorem on return data at the panic of an arithmetic overflow.
use hardhat.Prelude.{◌≡◌, ◌++◌, arith}
use hardhat.ReturnData.{
  decode_panic, panic_selector, to_bytes, limit, decoded, decode_panic-to_bytes,
}

decode_panic-to_bytes_example : decode_panic (panic_selector ++ to_bytes 4 17) ≡ decoded 17
unfolding limit
decode_panic-to_bytes_example = decode_panic-to_bytes 3 17 (omega arith)
