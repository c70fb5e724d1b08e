-- ===== src/ReorgsProtection.antt =====
-- utils/reorgs-protection.ts of packages/hardhat-core/src/internal/hardhat-network/provider: the
-- deepest reorganization to expect of a network, from which a safe block to fork at is found.
use hardhat.Prelude.{ℕ, ◌==◌, if◌then◌else◌, Option, none, some}

unfoldable pub get_largest_possible_reorg : ℕ → Option ℕ
get_largest_possible_reorg network_id =
    if network_id == 1
    then some 5
    else if network_id == 42
    then some 5
    else if network_id == 5
    then some 5
    else if network_id == 4
    then some 5
    else if network_id == 3
    then some 100
    else if network_id == 100
    then some 38
    else none

abbrev pub fallback_max_reorg : ℕ
fallback_max_reorg = 30
