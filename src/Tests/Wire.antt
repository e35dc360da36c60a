-- ===== src/Tests/Wire.antt =====
-- Bytes, lengths and numbers at concrete inputs.
use iscsi.Prelude.{ℕ, ◌+◌, ◌^◌, ◌%◌, ◌<◌, ◌≤◌, ◌≡◌, ◌⊎◌, ◌↔◌, true, refl, arith}
use iscsi.Prelude.Memory.{from, c_string}
use iscsi.Prelude.Text.{codes}
use iscsi.Prelude.Outcome.{ok}
use iscsi.Byte.{iscsi_byte_byte2int, iscsi_byte_int2byte}
use iscsi.Byte.Laws.{int2byte-frame}
use iscsi.Utility.{string_to_int, int_to_string, scan}
use iscsi.Utility.Decimal.{string_to_int-int_to_string}
use iscsi.Pdu.{iscsi_pdu_length, iscsi_pdu_valid}
use iscsi.Pdu.Length.{length_lem}
use iscsi.Tests.Samples.{blank}

int2byte-frame_example :
    (iscsi_byte_byte2int (from (iscsi_byte_int2byte blank 24 0xdead_beef) 24) ≡ 0xdead_beef)
    × ((30 < 24) ⊎ (24 + 4 ≤ 30) → iscsi_byte_int2byte blank 24 0xdead_beef 30 ≡ 0)
int2byte-frame_example = int2byte-frame blank 24 0xdead_beef 30 (omega arith)

length_lem_example :
    (48 ≤ iscsi_pdu_length blank)
    × (iscsi_pdu_length blank < 52)
    × (iscsi_pdu_length blank % 4 ≡ 0)
    × ((received : ℕ)
        → received < 2 ^ 31
        → (iscsi_pdu_valid blank received ≡ true) ↔ (iscsi_pdu_length blank ≤ received))
length_lem_example = length_lem blank (λ i. omega arith)

-- The largest length is reached.
largest_length : iscsi_pdu_length (λ _. 255) ≡ 2 ^ 24 + 304
unfolding iscsi_pdu_length
largest_length = refl

string_to_int-int_to_string_example : string_to_int 20 (int_to_string blank 8192) ≡ ok 8192
string_to_int-int_to_string_example =
    string_to_int-int_to_string blank 8192 20 (omega arith) (omega arith)

reads_number : string_to_int 8 (c_string (codes "8192")) ≡ ok 8192
unfolding string_to_int scan
reads_number = refl
