-- ===== src/Results/Reasons.antt =====
-- types.go: the reason of a revert, read from its data.
use web.Base.{
  ℕ, ◌+◌, ◌^◌, ◌≤◌, ◌<◌, ◌≡◌, refl, ap, ◌∙◌, true, false, List, ◌++◌, append_assoc, some, ltb, leb,
  le→leb, length, length-append, take, drop, take-append_at, take-append_self, drop-append_at, ok,
  arith,
}
use web.Base.Bytes.{be_bytes, be_value, be_value-be_bytes, length-be_bytes}
use web.Base.Keys.{bytes_eq_refl}
use web.Results.{
  revert_signature, read_length, ensure, string_at, decode_revert, revert_reason,
  new_execution_result,
}

-- The data of `revert(text)`: Error(string) with its argument, and the padding of the text.
abbrev pub encoded_reason : List ℕ → List ℕ → List ℕ
encoded_reason text padding =
    revert_signature ++ (be_bytes 32 32 ++ (be_bytes 32 (length text) ++ (text ++ padding)))

read_length-encoded :
    (text rest : List ℕ)
    → length text < 2 ^ 63
    → length text ≤ length rest
    → read_length (be_bytes 32 (length text) ++ rest) ≡ some (length text)
unfolding read_length
read_length-encoded text rest small fits =
    let head : take 32 (be_bytes 32 (length text) ++ rest) ≡ be_bytes 32 (length text) =
      take-append_at 32 (be_bytes 32 (length text)) rest (length-be_bytes 32 (length text)) in
    let value : be_value (be_bytes 32 (length text)) ≡ length text =
      be_value-be_bytes 32 (length text) (omega arith) in
    let in_int : leb (2 ^ 63) (length text) ≡ false = ground arith in
    let enough : ltb (length (be_bytes 32 (length text) ++ rest)) (length text) ≡ false =
      ground (arith, length-append {0} (be_bytes 32 (length text)) rest) in
    rw (head, value, in_int, enough) refl

string_at-encoded :
    (spare text padding : List ℕ)
    → string_at spare (be_bytes 32 (length text) ++ (text ++ padding)) (length text) ≡ ok text
unfolding string_at
string_at-encoded spare text padding =
    let size = be_bytes 32 (length text) in
    let behind : drop 32 ((size ++ (text ++ padding)) ++ spare) ≡ text ++ (padding ++ spare) =
      ap (drop 32) (append_assoc size (text ++ padding) spare)
      ∙ drop-append_at 32 size ((text ++ padding) ++ spare) (length-be_bytes 32 (length text))
      ∙ append_assoc text padding spare in
    let inside : ltb (length (size ++ (text ++ padding)) + length spare) (32 + length text)
        ≡ false =
      ground (
        arith,
        length-append {0} size (text ++ padding),
        length-append {0} text padding,
        length-be_bytes 32 (length text),
      ) in
    rw (inside, behind) (ap ok (take-append_self text (padding ++ spare)))

length-encoded_reason :
    (text padding : List ℕ)
    → length (encoded_reason text padding) ≡ 68 + (length text + length padding)
length-encoded_reason text padding = omega (
  arith,
  length-append {0} (be_bytes 32 32) (be_bytes 32 (length text) ++ (text ++ padding)),
  length-append {0} (be_bytes 32 (length text)) (text ++ padding),
  length-append {0} text padding,
  length-be_bytes 32 32,
  length-be_bytes 32 (length text),
)

-- Where the data is as long as the text and has the signature.
decode_revert_at :
    (spare ret bytes text : List ℕ) (len : ℕ)
    → 68 ≤ length ret
    → take 4 ret ≡ revert_signature
    → drop 36 ret ≡ bytes
    → read_length bytes ≡ some len
    → string_at spare bytes len ≡ ok text
    → decode_revert spare ret ≡ ok (some text)
unfolding decode_revert ensure
decode_revert_at spare ret bytes text len long signed behind read found =
    let enough : leb 68 (length ret) ≡ true = le→leb 68 (length ret) long in
    rw (enough, signed, bytes_eq_refl revert_signature, behind, read, found) refl

decode_revert-encoded_reason :
    (spare text padding : List ℕ)
    → length text < 2 ^ 63
    → decode_revert spare (encoded_reason text padding) ≡ ok (some text)
decode_revert-encoded_reason spare text padding small =
    let size = be_bytes 32 (length text) in
    decode_revert_at spare (encoded_reason text padding) (size ++ (text ++ padding)) text
      (length text) (omega (arith, length-encoded_reason text padding)) refl
      (drop-append_at 32 (be_bytes 32 32) (size ++ (text ++ padding)) (length-be_bytes 32 32))
      (read_length-encoded text (text ++ padding) small
        (omega (arith, length-append {0} text padding)))
      (string_at-encoded spare text padding)

module _ {ℓ} (VmFault : Type ℓ) (message : VmFault → List ℕ) where
  -- For a text shorter than 2^63 and any padding, the result of an error with the data of
  -- Error(string) of the text keeps the gas, the error and the data, and has exactly the text as
  -- its reason, whatever lies in the capacity behind the data.
  pub new_execution_result-encoded_reason :
      (spare text padding : List ℕ) (used_gas : ℕ) (e : VmFault)
      → length text < 2 ^ 63
      → new_execution_result VmFault message spare used_gas (some e) (encoded_reason text padding)
        ≡ ok (record {
          used_gas = used_gas;
          err = some e;
          return_data = encoded_reason text padding;
          revert_reason = text;
        })
  unfolding new_execution_result
  new_execution_result-encoded_reason spare text padding used_gas e small =
      rw (decode_revert-encoded_reason spare text padding small, revert_reason) refl
