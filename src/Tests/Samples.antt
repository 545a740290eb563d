-- ===== src/Tests/Samples.antt =====
-- Concrete keys, witnesses and MWEB values.
use rust_litecoin.Prelude.{
  ℕ, ◌≡◌, refl, Bool, true, false, List, [], ◌∷◌, Option, none, some, length, replicate,
  if◌then◌else◌, ◌==◌, arith,
}
use rust_litecoin.Prelude.Int.{pos}
use rust_litecoin.Mweb.Types.{PublicKeys, Kernel, Input, Output, Transaction}
use rust_litecoin.Mweb.Parts.{has_bit}
use rust_litecoin.Mweb.Kernel.RoundTrip.{IsValidKernel}
use rust_litecoin.Mweb.Input.RoundTrip.{IsValidInput}
use rust_litecoin.Mweb.Output.RoundTrip.{IsValidOutput}
use rust_litecoin.Mweb.Transaction.RoundTrip.{IsValidTransaction}

-- Keys of one point: its parity decides the first byte.
abbrev serialize_parity : Bool → List ℕ
serialize_parity odd = (if odd then 3 else 2) ∷ replicate 32 0x79

abbrev parity_of : List ℕ → Option Bool
parity_of [] = none
parity_of (b ∷ bs) = if b == 3 then some true else if b == 2 then some false else none

pub parity-length : (odd : Bool) → length (serialize_parity odd) ≡ 33
parity-length odd = refl

pub parity_back : (odd : Bool) → parity_of (serialize_parity odd) ≡ some odd
parity_back true = refl
parity_back false = refl

abbrev pub keys : PublicKeys
keys = record {
  PublicKey = Bool;
  serialize = serialize_parity;
  from_slice = parity_of;
  length-serialize = parity-length;
  from_slice-serialize = parity_back;
}

-- All six feature bits are set.
abbrev pub kernel : Kernel Bool
kernel = record {
  features = 0x3f;
  fee = some (pos 1000);
  pegin = some (pos 70_000);
  pegouts = record { amount = pos 5; script_pub_key = 0x51 ∷ [] } ∷ [];
  lock_height = some 2_265_984;
  stealth_excess = some true;
  extra_data = 1 ∷ 2 ∷ [];
  excess = replicate 33 9;
  signature = replicate 64 7;
}

pub kernel-IsValid : IsValidKernel keys kernel
unfolding has_bit
kernel-IsValid = record {
  features_byte = omega arith;
  fee_ok = omega arith;
  pegin_ok = omega arith;
  pegouts_ok = (
    record { amount_ok = omega arith; script_some = omega arith; script_fits = omega arith },
    tt,
  );
  pegouts_fit = omega arith;
  no_pegouts = λ e. cc;
  lock_height_ok = omega arith;
  stealth_excess_ok = tt;
  extra_data_fits = omega arith;
  no_extra_data = λ e. cc;
  excess_size = refl;
  signature_size = refl;
}

abbrev pub input : Input Bool
input = record {
  features = 1;
  output_id = replicate 32 4;
  commitment = replicate 33 5;
  input_public_key = some false;
  output_public_key = true;
  extra_data = [];
  signature = replicate 64 6;
}

pub input-IsValid : IsValidInput keys input
unfolding has_bit
input-IsValid = record {
  features_byte = omega arith;
  output_id_size = refl;
  commitment_size = refl;
  input_public_key_ok = tt;
  extra_data_fits = omega arith;
  no_extra_data = λ e. refl;
  signature_size = refl;
}

abbrev pub output : Output Bool
output = record {
  commitment = replicate 33 1;
  sender_public_key = true;
  receiver_public_key = false;
  message = record {
    features = 3;
    standard_fields = some (record {
      key_exchange_pubkey = true;
      view_tag = 0xa5;
      masked_value = 0x1234_5678;
      masked_nonce = replicate 16 8;
    });
    extra_data = 7 ∷ [];
  };
  range_proof = replicate 675 2;
  signature = replicate 64 3;
}

pub output-IsValid : IsValidOutput keys output
unfolding has_bit
output-IsValid = record {
  commitment_size = refl;
  message_ok = record {
    features_byte = omega arith;
    standard_fields_ok = record {
      view_tag_byte = omega arith;
      masked_value_fits = omega arith;
      masked_nonce_size = refl;
    };
    extra_data_fits = omega arith;
    no_extra_data = λ e. cc;
  };
  range_proof_size = refl;
  signature_size = refl;
}

abbrev pub mweb_transaction : Transaction Bool
mweb_transaction = record {
  kernel_offset = replicate 32 1;
  stealth_offset = replicate 32 2;
  body = record { inputs = input ∷ []; outputs = output ∷ []; kernels = kernel ∷ [] };
}

pub mweb_transaction-IsValid : IsValidTransaction keys mweb_transaction
mweb_transaction-IsValid = record {
  kernel_offset_size = refl;
  stealth_offset_size = refl;
  body_ok = record {
    inputs_ok = (input-IsValid, tt);
    outputs_ok = (output-IsValid, tt);
    kernels_ok = (kernel-IsValid, tt);
    inputs_fit = omega arith;
    outputs_fit = omega arith;
    kernels_fit = omega arith;
  };
  some_kernel = omega arith;
}
