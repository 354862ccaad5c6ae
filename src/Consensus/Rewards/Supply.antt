-- ===== src/Consensus/Rewards/Supply.antt =====
-- The supply that the subsidies add up to (src/consensus/rewards.cpp), block by block.
use Prim.Native.Nat.add
use cdx.Base.{
  ap, false, ◌==◌, not, ◌&&◌, ltb, Bool-cases, sym, ◌∙◌, dec_lt, inr, ◌⊎◌, inl, ◌-◌, refl, ◌^◌, ◌≢◌,
  ◌≡◌, leb, if◌then◌else◌, ◌<◌, ◌/◌, ◌*◌, ◌≤◌, ◌+◌, ℕ, zero, suc, arith,
}
use native.Mathlib.Nat.{sub-zero, pow-le-pow_right, one-le-pow, div-lt_iff_lt-mul, lt-div-mul-add}
use mathlib.Core.Path.{ap₂}
use cdx.Params.{halving_interval, initial_block_reward, max_supply_base}
use cdx.Consensus.Rewards.{get_block_subsidy, interval_end, supply_loop, get_cumulative_supply_at}

-- The subsidies of the n blocks from height h on.
unfoldable pub subsidies : ℕ → ℕ → ℕ
subsidies h zero = 0
subsidies h (suc n) = get_block_subsidy h + subsidies (h + 1) n

pub subsidies-add : (h m n : ℕ) → subsidies h (m + n) ≡ subsidies h m + subsidies (h + m) n
unfolding subsidies
subsidies-add h zero n = let e : h + 0 ≡ h = omega arith in rw (e, add.zero) (omega arith)
subsidies-add h (suc m) n =
    let e : suc m + n ≡ suc (m + n) = omega arith in
    let f : h + 1 + m ≡ h + suc m = omega arith in
    rw (e, ← f) (omega (arith, subsidies-add (h + 1) m n))

one_subsidy : (h : ℕ) → subsidies h 1 ≡ get_block_subsidy h
unfolding subsidies
one_subsidy h = omega arith

-- One more block.
pub subsidies-suc : (n : ℕ) → subsidies 0 (suc n) ≡ subsidies 0 n + get_block_subsidy n
subsidies-suc n =
    let e : n + 1 ≡ suc n = omega arith in
    let z : 0 + n ≡ n = omega arith in
    ap (subsidies 0) (sym e)
    ∙ subsidies-add 0 n 1
    ∙ rw z (ap (λ x. subsidies 0 n + x) (one_subsidy n))

-- The subsidy in the run number k.
abbrev at_run : ℕ → ℕ
at_run k = if leb 64 k then 0 else initial_block_reward / 2 ^ k

subsidy_at_run : (h k : ℕ) → h / halving_interval ≡ k → get_block_subsidy h ≡ at_run k
unfolding get_block_subsidy
subsidy_at_run h k e = rw e

-- Within one run every block has the same subsidy.
subsidies_in_run :
    (h n k : ℕ)
    → k * halving_interval ≤ h
    → h + n ≤ (k + 1) * halving_interval
    → subsidies h n ≡ at_run k * n
unfolding subsidies
subsidies_in_run h zero k lo hi = omega arith
subsidies_in_run h (suc n) k lo hi = omega (
  arith,
  subsidy_at_run h k (omega arith),
  subsidies_in_run (h + 1) n k (omega arith) (omega arith),
)

-- From run 33 on there is no subsidy.
at_run_zero : (k : ℕ) → 33 ≤ k → at_run k ≡ 0
at_run_zero k h = ground (
  arith,
  pow-le-pow_right {n = 2} (omega arith) h,
  div-lt_iff_lt-mul {k = 2 ^ k} {x = initial_block_reward} {y = 1} (one-le-pow k 2 (omega arith)),
)

subsidies_zero : (h n : ℕ) → 33 * halving_interval ≤ h → subsidies h n ≡ 0
unfolding subsidies
subsidies_zero h zero lo = refl
subsidies_zero h (suc n) lo = omega (
  arith,
  subsidy_at_run h (h / halving_interval) refl,
  at_run_zero (h / halving_interval) (omega arith),
  subsidies_zero (h + 1) n (omega arith),
)

at_run_pos : (k : ℕ) → k < 33 → at_run k ≢ 0
at_run_pos k h =
    let q : 2 ^ k ≤ 2 ^ 32 = pow-le-pow_right {n = 2} (omega arith) {j = 32} (omega arith) in
    ground (arith, lt-div-mul-add {a = initial_block_reward} (one-le-pow k 2 (omega arith)))

supply_loop_done : (fuel height h total : ℕ) → height ≤ h → supply_loop fuel height h total ≡ total
unfolding supply_loop
supply_loop_done zero height h total le = refl
supply_loop_done (suc fuel) height h total le = ground arith

interval_end_lem :
    (height h : ℕ)
    → h < height
    → let stop = interval_end height h in
      (h < stop)
      × (stop ≤ height)
      × (stop ≤ (h / halving_interval + 1) * halving_interval)
      × ((stop ≡ height) ⊎ (stop / halving_interval ≡ h / halving_interval + 1))
unfolding interval_end
interval_end_lem height h lt = ground arith

-- What one round of the loop adds.
subsidies_round :
    (height h : ℕ)
    → h < height
    → let stop = interval_end height h in
      subsidies h (height - h) ≡ get_block_subsidy h * (stop - h) + subsidies stop (height - stop)
subsidies_round height h lt =
    let stop = interval_end height h in
    let (after, before, in_run, _) = interval_end_lem height h lt in
    let e : height - h ≡ (stop - h) + (height - stop) = omega arith in
    let f : h + (stop - h) ≡ stop = omega arith in
    let k = h / halving_interval in
    rw (
      e,
      subsidies-add,
      f,
      subsidies_in_run h (stop - h) k (omega arith) (omega arith),
      subsidy_at_run h k refl,
    )

no_more_subsidies : (h n : ℕ) → get_block_subsidy h ≡ 0 → subsidies h n ≡ 0
no_more_subsidies h n e =
    let k = h / halving_interval in
    elim (dec_lt k 33) [
      | yes lt ↦ absurd (at_run_pos k lt (sym (subsidy_at_run h k refl) ∙ e))
      | no ge ↦ subsidies_zero h n (omega arith)
    ]

done_lem :
    (fuel height h total : ℕ)
    → height ≤ h
    → supply_loop fuel height h total ≡ total + subsidies h (height - h)
unfolding subsidies
done_lem fuel height h total done =
    let e : height - h ≡ 0 = omega arith in
    rw (supply_loop_done fuel height h total done, e) (omega arith)

-- Where the loop ends, nothing is left to add.
loop_ends :
    (height h : ℕ)
    → (ltb h height && not (get_block_subsidy h == 0)) ≡ false
    → subsidies h (height - h) ≡ 0
loop_ends height h last = elim (dec_lt h height) [
  | yes lt ↦ no_more_subsidies h (height - h) (ground arith)
  | no ge ↦ let e : height - h ≡ 0 = omega arith in rw e (unfold subsidies in refl)
]

-- The loop adds the subsidies of the blocks from h to height, one by one.
supply_loop_lem :
    (fuel height h total : ℕ)
    → (33 ≤ fuel + h / halving_interval) ⊎ (height ≤ h)
    → supply_loop fuel height h total ≡ total + subsidies h (height - h)
unfolding supply_loop subsidies
supply_loop_lem zero height h total (inl enough) =
    unfold supply_loop in omega (arith, subsidies_zero h (height - h) (omega arith))
supply_loop_lem (suc fuel) height h total (inl enough) =
    let stop = interval_end height h in
    let total' = total + get_block_subsidy h * (stop - h) in
    elim (Bool-cases (ltb h height && not (get_block_subsidy h == 0))) [
      | inl more ↦
          let lt : h < height = ground arith in
          let (after, before, in_run, next) = interval_end_lem height h lt in
          let ready : (33 ≤ fuel + stop / halving_interval) ⊎ (height ≤ stop) = omega arith in
          rw more (
            supply_loop_lem fuel height stop total' ready
            ∙ omega (arith, subsidies_round height h lt))
      | inr last ↦ rw last (omega (arith, loop_ends height h last))
    ]
supply_loop_lem zero height h total (inr done) = done_lem zero height h total done
supply_loop_lem (suc fuel) height h total (inr done) = done_lem (suc fuel) height h total done

-- At every height GetCumulativeSupplyAt is the sum of the subsidies of all blocks below that height.
pub get_cumulative_supply_at-subsidies :
    (height : ℕ) → get_cumulative_supply_at height ≡ subsidies 0 height
unfolding get_cumulative_supply_at
get_cumulative_supply_at-subsidies height =
    let e : 0 + subsidies 0 (height - 0) ≡ subsidies 0 height = rw sub-zero (omega arith) in
    supply_loop_lem 65 height 0 0 (inl (omega arith)) ∙ e

-- The subsidies of the first k runs.
runs : ℕ → ℕ
runs zero = 0
runs (suc k) = runs k + at_run k * halving_interval

no_blocks : (h : ℕ) → subsidies h 0 ≡ 0
unfolding subsidies
no_blocks h = refl

subsidies-runs : (k : ℕ) → subsidies 0 (k * halving_interval) ≡ runs k
unfolding runs
subsidies-runs zero = no_blocks 0
subsidies-runs (suc k) =
    let e : suc k * halving_interval ≡ k * halving_interval + halving_interval = omega arith in
    ap (subsidies 0) e
    ∙ subsidies-add 0 (k * halving_interval) halving_interval
    ∙ ap₂ ◌+◌ (subsidies-runs k)
        (subsidies_in_run (0 + k * halving_interval) halving_interval k (omega arith) (omega arith))

all_runs : runs 33 ≤ max_supply_base
unfolding runs
all_runs = omega arith

-- The supply never passes 21 million coins: GetCumulativeSupplyAt is at most MAX_SUPPLY_BASE
-- at every height.
pub get_cumulative_supply_at-le : (height : ℕ) → get_cumulative_supply_at height ≤ max_supply_base
get_cumulative_supply_at-le height = rw get_cumulative_supply_at-subsidies bound
  where
    whole : ℕ
    whole = 33 * halving_interval

    bound : subsidies 0 height ≤ max_supply_base
    bound = elim (dec_lt height whole) [
      | yes lt ↦
          let e : height + (whole - height) ≡ whole = omega arith in
          omega
            (arith, all_runs, subsidies-runs 33, rw e at (subsidies-add 0 height (whole - height)))
      | no ge ↦
          let e : whole + (height - whole) ≡ height = omega arith in
          omega (
            arith,
            all_runs,
            subsidies-runs 33,
            rw e at (subsidies-add 0 whole (height - whole)),
            subsidies_zero (0 + whole) (height - whole) (omega arith),
          )
    ]
