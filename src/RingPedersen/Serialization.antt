-- ===== src/RingPedersen/Serialization.antt =====
-- The keys as bytes: lengths of 32 bits, each followed by a number.
pub mod Bounds
pub mod Fields
pub mod RoundTrip
use mpc_lib_demo.OpenSsl.{OpenSsl}
use mpc_lib_demo.RingPedersen.{PrivateKey, PublicKey}
use mpc_lib_demo.Buffer.{
  Encoded, Failure, null_dereference, read_bytes, read_u32, refused, sub32, sub64, u32_bytes,
}
use mpc_lib_demo.Base.{
  Bool, Bytes, Option, Ptr, Result, err, guard, if◌then◌else◌, leb, ltb, none, not, ok, or_fail,
  some, ℕ, ◌%◌, ◌&&◌, ◌++◌, ◌+◌, ◌>>=◌, ◌>>◌, ◌^◌, ◌||◌,
}

-- MIN_KEY_LEN_IN_BITS
abbrev pub min_key_bits : ℕ
min_key_bits = 256

-- Where the next read is, and what is left of the length.
pub record Cursor : Type 0 where
  pub at : ℕ
  pub left : ℕ

module _ (o : OpenSsl) where
  -- A length and the number behind it
  pub field_bytes : ℕ → Bytes
  field_bytes a = u32_bytes (o.bn_num_bytes a) ++ o.bn_bn2bin a

  pub public_needed : PublicKey → ℕ
  public_needed pub_key =
      (12 + o.bn_num_bytes pub_key.n + o.bn_num_bytes pub_key.s + o.bn_num_bytes pub_key.t) % 2 ^ 32

  pub public_bytes : PublicKey → Bytes
  public_bytes key = field_bytes key.n ++ (field_bytes key.s ++ field_bytes key.t)

  -- `buffer` tells whether the buffer is not null, `buffer_len` is its length. A null key gives no
  -- length.
  pub public_serialize : Ptr PublicKey → Bool → ℕ → Option Encoded
  public_serialize none buffer buffer_len = none
  public_serialize (some key) buffer buffer_len =
      let needed = public_needed key in
      some (
        if not buffer || ltb buffer_len needed
        then record { real_len = needed; written = none }
        else record { real_len = needed; written = some (public_bytes key) })

  pub private_serialize : Ptr PrivateKey → Bool → ℕ → Option Encoded
  private_serialize none buffer buffer_len = none
  private_serialize (some key) buffer buffer_len =
      let needed =
        (public_needed key.public + 8 + o.bn_num_bytes key.lamda + o.bn_num_bytes key.phi_n)
        % 2 ^ 32 in
      some (
        if not buffer || ltb buffer_len needed
        then record { real_len = needed; written = none }
        else record {
          real_len = needed;
          written =
              some (public_bytes key.public ++ (field_bytes key.lamda ++ field_bytes key.phi_n));
        })

  -- A length is read, refused when it leaves less than `reserve` less a word behind it, and then the
  -- number, which is null when OpenSSL fails.
  pub read_number : Bytes → ℕ → Cursor → Result Failure (Ptr ℕ × Cursor)
  read_number buffer reserve cursor = do
    len ← read_u32 buffer cursor.at
    guard (leb len (sub64 cursor.left reserve)) refused
    number ← read_bytes buffer (cursor.at + 4) len
    ok (
      o.bn_bin2bn number,
      record { at = cursor.at + 4 + len; left = sub32 (sub32 cursor.left 4) len },
    )

  -- The key, and how many bytes it took.
  pub public_deserialize_internal : Ptr Bytes → ℕ → Result Failure (PublicKey × ℕ)
  unfolding read_number
  public_deserialize_internal none buffer_len = err refused
  public_deserialize_internal (some buffer) buffer_len = do
    guard (leb 12 buffer_len) refused
    first ← read_number buffer 12 (record { at = 0; left = buffer_len })
    second ← read_number buffer 8 first.1
    third ← read_number buffer 4 second.1
    n ← or_fail first.0 refused
    s ← or_fail second.0 refused
    t ← or_fail third.0 refused
    guard (leb min_key_bits (o.bn_num_bits n)) refused
    guard (leb s n && leb t n) refused
    ok (record { n = n; s = s; t = t }, third.1.at)

  pub public_deserialize : Bool → Ptr Bytes → ℕ → Result Failure PublicKey
  unfolding public_deserialize_internal
  public_deserialize calloc_works buffer buffer_len = do
    guard calloc_works refused
    found ← public_deserialize_internal buffer buffer_len
    ok found.0

  -- The flags of the two numbers are set before the test for null pointers.
  pub private_deserialize : Bool → Ptr Bytes → ℕ → Result Failure PrivateKey
  unfolding public_deserialize_internal
  private_deserialize calloc_works none buffer_len = err refused
  private_deserialize calloc_works (some buffer) buffer_len = do
    guard calloc_works refused
    found ← public_deserialize_internal (some buffer) buffer_len
    let left = sub32 buffer_len found.1
    guard (leb 8 left) refused
    first ← read_number buffer 8 (record { at = found.1; left = left })
    lamda ← or_fail first.0 null_dereference
    second ← read_number buffer 4 first.1
    phi_n ← or_fail second.0 null_dereference
    ok (record { public = found.0; lamda = lamda; phi_n = phi_n })
