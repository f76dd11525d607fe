-- ===== src/Wire/Laws.antt =====
-- What the messages of src/camera-service.pb.cc rely on of the protobuf library.
use mathlib.Core.Option
use grpc_cplugplug_example.Base.{ℕ, ◌+◌, ◌^◌, ◌<◌, ◌≤◌, ◌≡◌, some, List, [], ◌∷◌, ◌++◌, length}
use grpc_cplugplug_example.Base.Int.{ℤ, pos_part, neg_part}
use grpc_cplugplug_example.Wire.{Field, chunk, varint, Codec}

-- The numbers of a C++ `int`.
abbrev pub IsInt32 : ℤ → Type 0
IsInt32 v = (pos_part v < 2 ^ 31) × (neg_part v ≤ 2 ^ 31)

-- The library takes messages and texts below 2 GB.
abbrev pub IsShort : List ℕ → Type 0
IsShort s = length s < 2 ^ 31

-- A field with a number that takes one byte with its type.
abbrev pub IsLow : ℕ → Type 0
IsLow n = (0 < n) × (n < 16)

-- Bytes that are read as these fields, whatever follows.
abbrev pub Emits : Codec → List ℕ → List Field → Type 0
Emits codec bs fs =
    (rest : List ℕ) → codec.fields (bs ++ rest) ≡ Option.map (λ gs. fs ++ gs) (codec.fields rest)

pub record Laws (codec : Codec) : Type 0 where
  pub string_size :
      (n : ℕ) (s : List ℕ)
      → IsLow n
      → IsShort s
      → length (codec.write_string n s) ≡ 1 + codec.string_size s
  pub int32_size :
      (n : ℕ) (v : ℤ)
      → IsLow n
      → IsInt32 v
      → length (codec.write_int32 n v) ≡ codec.int32_size_plus_one v
  pub message_size :
      (n : ℕ) (bs : List ℕ)
      → IsLow n
      → IsShort bs
      → length (codec.write_message n bs) ≡ 1 + codec.message_size (length bs)
  pub entry_size :
      (n : ℕ) (e : List ℕ × List ℕ)
      → IsLow n
      → IsShort e.0
      → IsShort e.1
      → length (codec.write_entry n e) ≡ 1 + codec.entry_size e
  pub no_fields : codec.fields [] ≡ some []
  pub read_string :
      (n : ℕ) (s : List ℕ)
      → IsLow n
      → IsShort s
      → Emits codec (codec.write_string n s) (chunk n s ∷ [])
  pub read_int32 :
      (n : ℕ) (v : ℤ) → IsLow n → IsInt32 v → Emits codec (codec.write_int32 n v) (varint n v ∷ [])
  pub read_message :
      (n : ℕ) (bs : List ℕ)
      → IsLow n
      → IsShort bs
      → Emits codec (codec.write_message n bs) (chunk n bs ∷ [])
  pub read_entry :
      (n : ℕ) (e : List ℕ × List ℕ)
      → IsLow n
      → IsShort e.0
      → IsShort e.1
      → (bs : List ℕ) × (codec.entry_of bs ≡ some e)
        × Emits codec (codec.write_entry n e) (chunk n bs ∷ [])
