-- ===== src/Examples/TraceRuns.antt =====
-- Three bytecodes, two of one library's use, and traces that are identified as them.
use hardhat.Prelude.{◌≡◌, refl, true, false, List, [], ◌∷◌, some}
use hardhat.StackTraces.Bytecodes.{Bytecode}
use hardhat.StackTraces.Trie.{add_at, add, search_at, search, add_all, root}
use hardhat.StackTraces.Slices.{zeros, zero_out_slice, zero_out_slices, zero_out_addresses}
use hardhat.Prelude.Int.{◌+ℤ◌}
use hardhat.StackTraces.Searches.{Searched, search-Searched}
use hardhat.StackTraces.Metadata.{metadata_loop, is_matching_metadata}
use hardhat.StackTraces.Identifier.{
  EvmMessageTrace, resolve, search_normalized, try_libraries, zero_out, search_bytecode, init,
}
use hardhat.StackTraces.CacheRuns.{Call, adding, identifying, run, run-cached}
use hardhat.StackTraces.Identified.{search_bytecode-deployment}
use hardhat.StackTraces.Ways.{Identified, search_bytecode-Identified}

-- a constructor's code, which ends with its metadata
abbrev deployment : Bytecode
deployment = record {
  contract = 1;
  is_deployment = true;
  normalized_code = 96 ∷ 1 ∷ 253 ∷ 254 ∷ 77 ∷ [];
  library_address_positions = [];
  immutable_references = [];
}

-- code with a value of two bytes that is set when it is deployed
abbrev with_immutable : Bytecode
with_immutable = record {
  contract = 2;
  is_deployment = false;
  normalized_code = 97 ∷ 0 ∷ 0 ∷ 80 ∷ 253 ∷ 254 ∷ 12 ∷ [];
  library_address_positions = [];
  immutable_references = (record { start = 1; length = 2 }) ∷ [];
}

abbrev bytecodes : List Bytecode
bytecodes = deployment ∷ with_immutable ∷ []

search-Searched_example :
    Searched (97 ∷ 3 ∷ 4 ∷ []) bytecodes (search (add_all bytecodes root) (97 ∷ 3 ∷ 4 ∷ []) 0)
search-Searched_example = search-Searched bytecodes (97 ∷ 3 ∷ 4 ∷ [])

-- the value is zeroed out
identified_with_immutable :
    search_bytecode false (97 ∷ 3 ∷ 4 ∷ 80 ∷ 253 ∷ 254 ∷ 12 ∷ []) (add_all bytecodes root)
    ≡ some with_immutable
unfolding search_bytecode resolve search_normalized try_libraries zero_out zero_out_slices
    zero_out_slice zero_out_addresses zeros add_all add add_at search search_at ◌+ℤ◌
identified_with_immutable = refl

-- the metadata differs
identified_by_metadata :
    search_bytecode false (96 ∷ 1 ∷ 253 ∷ 254 ∷ 78 ∷ []) (add_all bytecodes root) ≡ some deployment
unfolding search_bytecode resolve search_normalized try_libraries zero_out zero_out_slices
    zero_out_slice zero_out_addresses zeros add_all add add_at search search_at ◌+ℤ◌ metadata_loop
    is_matching_metadata
identified_by_metadata = refl

search_bytecode-Identified_example :
    Identified false bytecodes (97 ∷ 3 ∷ 4 ∷ 80 ∷ 253 ∷ 254 ∷ 12 ∷ []) with_immutable
search_bytecode-Identified_example =
    search_bytecode-Identified false bytecodes (97 ∷ 3 ∷ 4 ∷ 80 ∷ 253 ∷ 254 ∷ 12 ∷ [])
      with_immutable identified_with_immutable

-- the constructor's code with a byte of an argument behind it
search_bytecode-deployment_example :
    search_bytecode true (96 ∷ 1 ∷ 253 ∷ 254 ∷ 77 ∷ 9 ∷ []) (add_all bytecodes root)
    ≡ some deployment
search_bytecode-deployment_example =
    search_bytecode-deployment bytecodes (96 ∷ 1 ∷ 253 ∷ 254 ∷ 77 ∷ []) 9 [] deployment refl refl
      refl

abbrev trace : EvmMessageTrace
trace = record { code = 97 ∷ 3 ∷ 4 ∷ 80 ∷ 253 ∷ 254 ∷ 12 ∷ []; is_create = false }

abbrev calls : List Call
calls =
    adding deployment
    ∷ identifying trace
    ∷ adding with_immutable
    ∷ identifying trace
    ∷ identifying trace
    ∷ []

run-cached_example : run calls (init true) ≡ run calls (init false)
run-cached_example = run-cached false calls (tt, (refl, (tt, (refl, (refl, tt)))))
