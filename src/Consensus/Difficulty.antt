-- ===== src/Consensus/Difficulty.antt =====
-- The difficulty (src/consensus/difficulty.cpp): the target of a block, the check of its proof of
-- work, and the target that the next block must have. Times are signed, the constants of the chain
-- parameters are not negative, and a height is at least -1.
pub mod Target
use cdx.Base.{suc, ◌==◌, not, if◌then◌else◌, ℕ, ◌+◌, ◌*◌, ◌/◌, ◌%◌, ◌^◌, Bool, true, false}
use cdx.Uint256.{less_eq, less, mul64, is_zero, div64, U256}
use cdx.Params.{default_target_bits, ChainParams}
use cdx.Base.Int.{ltb_ℤ, ◌-ℤ◌, pos, negsuc, ℤ}
use cdx.Uint256.Compact.{get_compact, set_compact}
use cdx.Bytes.{to_bits}

-- TargetFromBits
abbrev pub target_from_bits : ℕ → U256
target_from_bits bits = set_compact bits

-- GetMaxTarget
abbrev pub get_max_target : U256
get_max_target = set_compact default_target_bits

-- CheckProofOfWork
unfoldable pub check_proof_of_work : U256 → ℕ → Bool
check_proof_of_work hash bits =
    if is_zero (target_from_bits bits) then false else less_eq hash (target_from_bits bits)

abbrev pub expected_time : ChainParams → ℕ
expected_time params = params.target_block_time * params.difficulty_interval

-- actualTime, raised to targetBlockTime / 4 and lowered to expectedTime * maxAdjustment
unfoldable pub actual_time : ℤ → ℤ → ChainParams → ℤ
actual_time last_time first_time params =
    let low = pos (params.target_block_time / 4) in
    let high = pos (expected_time params * params.max_adjustment) in
    let time = last_time -ℤ first_time in
    let raised = if ltb_ℤ time low then low else time in if ltb_ℤ high raised then high else raised

-- newTarget for an actual time: target * actualTime / expectedTime, at most the largest target
unfoldable pub new_target : ℕ → ℕ → ChainParams → U256
new_target actual last_bits params =
    let scaled = (div64 (mul64 (target_from_bits last_bits) actual) (expected_time params)).0 in
    let max_target = target_from_bits params.min_difficulty_bits in
    if less max_target scaled then max_target else scaled

-- height + 1, for a height of at least -1
unfoldable pub next_height : ℤ → ℕ
next_height (pos n) = suc n
next_height (negsuc n) = 0

-- GetNextWorkRequired
unfoldable pub get_next_work_required : ℤ → ℤ → ℕ → ℤ → ChainParams → ℕ
get_next_work_required last_time last_height last_bits first_time params =
    if params.pow_no_retarget
    then last_bits
    else if not (next_height last_height % params.difficulty_interval == 0)
    then last_bits
    else get_compact
        (new_target (to_bits 64 (actual_time last_time first_time params)) last_bits params)
