-- ===== src/Tests/Mweb.antt =====
-- The MWEB parts at concrete values.
use rust_litecoin.Prelude.{arith}
use rust_litecoin.Prelude.Int.{pos, negsuc}
use rust_litecoin.Wire.RoundTrip.{RoundTrip}
use rust_litecoin.Mweb.Varint.{read_amount, write_amount}
use rust_litecoin.Mweb.Varint.RoundTrip.{write_amount-negative}
use rust_litecoin.Mweb.Transaction.{encode_transaction, decode_transaction}
use rust_litecoin.Mweb.Transaction.RoundTrip.{RoundTrip-transaction}
use rust_litecoin.Tests.Samples.{keys, mweb_transaction, mweb_transaction-IsValid}

-- -1 reads back as 127.
write_amount-negative_example : RoundTrip (write_amount (negsuc 0)) read_amount (pos 127)
write_amount-negative_example = write_amount-negative 0 (omega arith)

RoundTrip-transaction_example :
    RoundTrip (encode_transaction keys mweb_transaction) (decode_transaction keys) mweb_transaction
RoundTrip-transaction_example = RoundTrip-transaction keys mweb_transaction mweb_transaction-IsValid
