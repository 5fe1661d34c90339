-- ===== src/Storage/Account/RoundTrip.antt =====
-- evm/storage/statedb.go: an account's encoding, decoded again.
use web.Base.{
  ℕ, ◌+◌, ◌≤◌, ◌<◌, ◌^◌, ◌≡◌, refl, ap, ◌∙◌, false, List, [], ◌++◌, none, some, length,
  length-append, length-replicate, append-nil, ok, arith,
}
use web.Base.Bytes.{max_int, le_bytes, le_value, length-le_bytes, le_value-le_bytes}
use web.Codec.Sink
use web.Codec.Sink.{Sink, bytes, var_uint_bytes, var_uint_width, cap}
use web.Codec.Sink.Append.{
  IsValid, Appends-trans, write_uint-Writes, write_bytes-Writes, write_var_bytes-Writes,
  length-var_uint_bytes, var_uint_width-le,
}
use web.Codec.Source
use web.Codec.Source.{Source}
use web.Codec.Source.Reads.{Holds, next_uint-Reads, next_bytes-Reads, next_array-Reads}
use web.Codec.VarUint.{read_var_bytes-Reads}
use web.Storage.Word256.{Word256, u256_mod}
use web.Storage.Account.{EthAccount, zero_hash, serialization, serialize_to_bytes, deserialization}

-- An account that Go can hold: a uint64 nonce, a 256-bit balance, a 32-byte hash.
pub record IsAccount (balance : ℕ) (a : EthAccount) : Type 0 where
  pub has_balance : a.balance ≡ some balance
  pub nonce_fits : a.nonce < 2 ^ 64
  pub balance_fits : balance < u256_mod
  pub code_fits : length a.code ≤ 2 ^ 40
  pub hash_length : length a.code_hash ≡ 32

module _ (w : Word256) where
  open w use {bytes32, set_bytes32, length-bytes32, set_bytes32-bytes32}

  -- The encoding: the nonce, the balance, the code with its length, and the hash.
  unfoldable pub encoding : ℕ → EthAccount → List ℕ
  encoding balance a =
      le_bytes 8 a.nonce
      ++ (bytes32 balance ++ ((var_uint_bytes (length a.code) ++ a.code) ++ a.code_hash))

  new_sink_empty : bytes (Sink.new_sink none) ≡ []
  unfolding bytes Sink.new_sink
  new_sink_empty = refl

  new_sink-cap : cap (Sink.new_sink none) ≡ 512
  unfolding Sink.new_sink
  new_sink-cap = length-replicate {A = ℕ} 512 0

  new_sink-IsValid : IsValid (Sink.new_sink none)
  unfolding Sink.new_sink
  new_sink-IsValid = omega arith

  -- the four writes, each into the sink that the one before left
  serialize_steps :
      (balance n : ℕ) (a : EthAccount) (s₁ s₂ s₃ s₄ : Sink)
      → a.balance ≡ some balance
      → Sink.write_uint 8 a.nonce (Sink.new_sink none) ≡ ok s₁
      → Sink.write_bytes (bytes32 balance) s₁ ≡ ok s₂
      → Sink.write_var_bytes a.code s₂ ≡ ok (n, s₃)
      → Sink.write_bytes a.code_hash s₃ ≡ ok s₄
      → serialize_to_bytes w a ≡ ok (bytes s₄)
  unfolding serialize_to_bytes serialization Sink.write_uint64
  serialize_steps balance n a s₁ s₂ s₃ s₄ b e₁ e₂ e₃ e₄ = rw (e₁, b, e₂, e₃, e₄)

  -- SerializeToBytes of an encodable account does not panic and gives the little-endian nonce,
  -- the 32 bytes of the balance, the code with its length in front, and the code hash, in this
  -- order.
  pub serialize-encoding :
      (balance : ℕ) (a : EthAccount)
      → IsAccount balance a
      → serialize_to_bytes w a ≡ ok (encoding balance a)
  unfolding encoding
  serialize-encoding balance a h =
      let start = Sink.new_sink none in
      let lb = length-bytes32 balance in
      let (s₁, e₁, a₁) =
        write_uint-Writes 8 a.nonce start new_sink-IsValid (omega (arith, new_sink-cap)) in
      let b₁ : cap s₁ ≤ 1032 = omega (arith, a₁.bound, new_sink-cap) in
      let (s₂, e₂, a₂) = write_bytes-Writes (bytes32 balance) s₁ a₁.valid (omega (arith, b₁, lb)) in
      let b₂ : cap s₂ ≤ 2096 = omega (arith, a₂.bound, b₁, lb) in
      let (s₃, e₃, a₃) =
        write_var_bytes-Writes a.code s₂ a₂.valid (omega (arith, b₂, h.code_fits)) in
      let b₃ : cap s₃ ≤ 8402 + length a.code = omega (arith, a₃.bound, b₂) in
      let (s₄, e₄, a₄) =
        write_bytes-Writes a.code_hash s₃ a₃.valid
          (omega (arith, b₃, h.code_fits, h.hash_length)) in
      serialize_steps balance _ a s₁ s₂ s₃ s₄ h.has_balance e₁ e₂ e₃ e₄
      ∙ ap ok (
          (Appends-trans _ _ _ _ start s₁ s₄ a₁
            (Appends-trans _ _ _ _ s₁ s₂ s₄ a₂ (Appends-trans _ _ _ _ s₂ s₃ s₄ a₃ a₄))).content
          ∙ rw new_sink_empty)

  length-encoding :
      (balance : ℕ) (a : EthAccount) → IsAccount balance a → length (encoding balance a) ≤ max_int
  unfolding encoding
  length-encoding balance a h = omega (
    arith,
    length-append (le_bytes 8 a.nonce)
        (bytes32 balance ++ ((var_uint_bytes (length a.code) ++ a.code) ++ a.code_hash)),
    length-append (bytes32 balance) ((var_uint_bytes (length a.code) ++ a.code) ++ a.code_hash),
    length-append (var_uint_bytes (length a.code) ++ a.code) a.code_hash,
    length-append (var_uint_bytes (length a.code)) a.code,
    length-le_bytes 8 a.nonce,
    length-bytes32 balance,
    length-var_uint_bytes (length a.code),
    var_uint_width-le (length a.code),
    h.hash_length,
    h.code_fits,
  )

  encoding-Holds :
      (balance : ℕ) (a : EthAccount)
      → IsAccount balance a
      → Holds
          (le_bytes 8 a.nonce
            ++ (bytes32 balance
                ++ ((var_uint_bytes (length a.code) ++ a.code) ++ (a.code_hash ++ []))))
          (Source.new_source (encoding balance a))
  unfolding Source.new_source encoding
  encoding-Holds balance a h = record {
    within = omega arith;
    small = length-encoding balance a h;
    ahead = rw append-nil;
  }

  -- the four reads, each from the source that the one before left
  deserialize_steps :
      (src t₁ t₂ t₃ t₄ : Source) (nonce : ℕ) (balance_bytes code code_hash : List ℕ)
      → Source.next_uint 8 src ≡ ok ((nonce, false), t₁)
      → Source.next_bytes 32 t₁ ≡ ok ((balance_bytes, false), t₂)
      → Source.read_var_bytes t₂ ≡ ok ((code, none), t₃)
      → Source.next_array 32 zero_hash t₃ ≡ ok ((code_hash, false), t₄)
      → length balance_bytes ≡ 32
      → deserialization w src
        ≡ ok (
          record {
            nonce = nonce;
            balance = some (set_bytes32 balance_bytes);
            code = code;
            code_hash = code_hash;
          },
          none,
        )
  unfolding deserialization Source.next_uint64
  deserialize_steps src t₁ t₂ t₃ t₄ nonce balance_bytes code code_hash e₁ e₂ e₃ e₄ long =
      rw (e₁, e₂, long, e₃, e₄)

  rebuilt :
      (balance : ℕ) (a : EthAccount)
      → IsAccount balance a
      → record {
        nonce = le_value (le_bytes 8 a.nonce);
        balance = some (set_bytes32 (bytes32 balance));
        code = a.code;
        code_hash = a.code_hash;
      }
        ≡ a
  rebuilt balance a h = cc (
    le_value-le_bytes 8 a.nonce h.nonce_fits,
    set_bytes32-bytes32 balance h.balance_fits,
    h.has_balance,
  )

  read_back :
      (balance : ℕ) (a : EthAccount) (src : Source)
      → IsAccount balance a
      → Holds
          (le_bytes 8 a.nonce
            ++ (bytes32 balance
                ++ ((var_uint_bytes (length a.code) ++ a.code) ++ (a.code_hash ++ []))))
          src
      → deserialization w src ≡ ok (a, none)
  read_back balance a src h hold =
      let short : length a.code < max_int = omega (arith, h.code_fits) in
      let (t₁, e₁, _, h₁) =
        next_uint-Reads 8 (le_bytes 8 a.nonce) _ src (length-le_bytes 8 a.nonce) hold in
      let (t₂, e₂, _, h₂) =
        next_bytes-Reads 32 (bytes32 balance) _ t₁ (length-bytes32 balance) h₁ in
      let (t₃, e₃, _, h₃) = read_var_bytes-Reads a.code _ t₂ short h₂ in
      let (t₄, e₄, _, h₄) = next_array-Reads zero_hash a.code_hash [] 32 t₃ h.hash_length h₃ in
      rw (rebuilt balance a h) at
        (deserialize_steps src t₁ t₂ t₃ t₄ _ _ _ _ e₁ e₂ e₃ e₄ (length-bytes32 balance))

  -- An account whose nonce fits 64 bits, whose balance is a 256-bit number, whose code is at most
  -- 2^40 bytes and whose code hash has 32 bytes is read back without an error from its encoding.
  pub deserialize-encoding :
      (balance : ℕ) (a : EthAccount)
      → IsAccount balance a
      → deserialization w (Source.new_source (encoding balance a)) ≡ ok (a, none)
  deserialize-encoding balance a h =
      read_back balance a (Source.new_source (encoding balance a)) h (encoding-Holds balance a h)
