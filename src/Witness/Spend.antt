-- ===== src/Witness/Spend.antt =====
-- `P2TrSpend` of litecoin/src/blockdata/witness.rs and the accessors that use it, and `LeafVersion`
-- of litecoin/src/taproot/mod.rs. A script is the list of its bytes.
pub mod Bip341
use rust_litecoin.Prelude.{
  ℕ, ◌-◌, ◌%◌, Bool, true, false, List, [], ◌∷◌, Option, none, some, length, ltb, leb, ◌==◌,
  if◌then◌else◌,
}
use rust_litecoin.Wire.Codec.{Result, ok, err, panic}
use rust_litecoin.Witness.{Witness, len, last, second_to_last, third_to_last}
use rust_litecoin.Witness.Buffer.{◌and_then◌}

pub data P2TrSpend : Type 0 where
  key : (annex : Option (List ℕ)) → P2TrSpend
  script : (leaf_script control_block : List ℕ) (annex : Option (List ℕ)) → P2TrSpend

-- `expect` panics on `None`.
abbrev pub expect : {A : Type 0} → Option A → Result A
expect none = err panic
expect (some a) = ok a

abbrev pub taproot_annex_prefix : ℕ
taproot_annex_prefix = 0x50

unfoldable pub starts_with_annex_prefix : List ℕ → Bool
starts_with_annex_prefix [] = false
starts_with_annex_prefix (b ∷ bs) = b == taproot_annex_prefix

-- The guard of the arms for two and for more elements
unfoldable pub last_is_annex : Witness → Result Bool
last_is_annex w =
    last w and_then λ top. expect top and_then λ top. ok (starts_with_annex_prefix top)

unfoldable pub key_with_annex : Witness → Result (Option P2TrSpend)
key_with_annex w = last w and_then λ annex. ok (some (key annex))

unfoldable pub script_with_annex : Witness → Result (Option P2TrSpend)
script_with_annex w = third_to_last w and_then λ third. expect third and_then λ leaf_script.
    second_to_last w and_then λ second. expect second and_then λ control_block.
    last w and_then λ annex. ok (some (script leaf_script control_block annex))

unfoldable pub script_without_annex : Witness → Result (Option P2TrSpend)
script_without_annex w = second_to_last w and_then λ second. expect second and_then λ leaf_script.
    last w and_then λ top.
    expect top and_then λ control_block. ok (some (script leaf_script control_block none))

unfoldable pub from_witness : Witness → Result (Option P2TrSpend)
from_witness w =
    if len w == 0
    then ok none
    else if len w == 1
    then ok (some (key none))
    else (last_is_annex w and_then λ is_annex.
        if is_annex
        then (if len w == 2 then key_with_annex w else script_with_annex w)
        else script_without_annex w)

unfoldable pub annex : P2TrSpend → Option (List ℕ)
annex (key a) = a
annex (script leaf_script control_block a) = a

unfoldable pub control_block_of : Option P2TrSpend → Option (List ℕ)
control_block_of (some (script leaf_script control_block a)) = some control_block
control_block_of _ = none

unfoldable pub leaf_script_of : Option P2TrSpend → Option (List ℕ)
leaf_script_of (some (script leaf_script control_block a)) = some leaf_script
leaf_script_of _ = none

unfoldable pub annex_of : Option P2TrSpend → Option (List ℕ)
annex_of none = none
annex_of (some spend) = annex spend

unfoldable pub tapscript : Witness → Result (Option (List ℕ))
tapscript w = from_witness w and_then λ spend. ok (leaf_script_of spend)

unfoldable pub taproot_control_block : Witness → Result (Option (List ℕ))
taproot_control_block w = from_witness w and_then λ spend. ok (control_block_of spend)

unfoldable pub taproot_annex : Witness → Result (Option (List ℕ))
taproot_annex w = from_witness w and_then λ spend. ok (annex_of spend)

unfoldable pub witness_script : Witness → Result (Option (List ℕ))
witness_script w = last w

pub data LeafVersion : Type 0 where
  tap_script : LeafVersion
  future : ℕ → LeafVersion

abbrev pub taproot_leaf_tapscript : ℕ
taproot_leaf_tapscript = 0xC0

-- `FutureLeafVersion::from_consensus` after its two special arms, which `LeafVersion` takes first.
-- The version is refused where its lowest bit is set.
unfoldable pub future_version : ℕ → Option LeafVersion
future_version version = if version % 2 == 0 then some (future version) else none

-- `LeafVersion::from_consensus(version).ok()`
unfoldable pub leaf_version_from_consensus : ℕ → Option LeafVersion
leaf_version_from_consensus version =
    if version == taproot_leaf_tapscript
    then some tap_script
    else if version == taproot_annex_prefix
    then none
    else future_version version

unfoldable pub leaf_version_to_consensus : LeafVersion → ℕ
leaf_version_to_consensus tap_script = taproot_leaf_tapscript
leaf_version_to_consensus (future version) = version

pub record LeafScript : Type 0 where
  pub version : LeafVersion
  pub script : List ℕ

abbrev pub taproot_control_base_size : ℕ
taproot_control_base_size = 33

-- `control_block[0] & TAPROOT_LEAF_MASK` clears the lowest bit.
abbrev pub masked_version : List ℕ → ℕ
masked_version [] = 0
masked_version (b ∷ bs) = b - b % 2

unfoldable pub with_version : List ℕ → Option LeafVersion → Option LeafScript
with_version leaf_script none = none
with_version leaf_script (some v) = some (record { version = v; script = leaf_script })

unfoldable pub versioned : Option P2TrSpend → Option LeafScript
versioned (some (script leaf_script control_block a)) =
    if ltb (length control_block) taproot_control_base_size
    then none
    else with_version leaf_script (leaf_version_from_consensus (masked_version control_block))
versioned _ = none

unfoldable pub taproot_leaf_script : Witness → Result (Option LeafScript)
taproot_leaf_script w = from_witness w and_then λ spend. ok (versioned spend)
