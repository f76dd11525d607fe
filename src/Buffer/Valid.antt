-- ===== src/Buffer/Valid.antt =====
-- The well-formedness of a `buff_t`, and what each operation makes of it.
use grpc_cplugplug_example.Base.{
  ℕ, ◌^◌, ◌≤◌, ◌<◌, ◌≡◌, ◌≢◌, refl, ◌⊎◌, Bool, true, false, Option, none, some, List, take,
  length-take_of_le, length, arith, Returns, Returns->>=,
}
use grpc_cplugplug_example.Base.Int.{ℤ, pos, negsuc}
use grpc_cplugplug_example.Buffer.Memory.{length-overwrite, read_lem, memcpy_lem}
use grpc_cplugplug_example.Buffer.{Buff, bytes, Malloc, init, carry_over, grow, ensure_size_copy}

-- NULL goes with the size 0, and an allocation has the size that the object records.
abbrev pub Holds : Option (List ℕ) → ℕ → Type 0
Holds none n = n ≡ 0
Holds (some m) n = length m ≡ n

pub record IsValid (b : Buff) : Type 0 where
  pub shape : Holds b.buff b.buff_max_size
  pub fits : b.data_size ≤ b.buff_max_size
  pub word : b.buff_max_size < 2 ^ 32

-- `malloc` gives a block of the size that was asked for, if it gives one.
abbrev pub IsMalloc : Malloc → Type 0
IsMalloc malloc = (n : ℕ) (m : List ℕ) → malloc n ≡ some m → length m ≡ n

pub init-IsValid : IsValid init
unfolding init
init-IsValid = omega arith

-- The copy reads and writes inside of the two blocks, and gives a block of the new size.
carry_over_lem :
    (b : Buff) (fresh : List ℕ) (ignore_copy : Bool)
    → IsValid b
    → b.buff_max_size ≤ length fresh
    → Returns (λ m. length m ≡ length fresh) (carry_over b fresh ignore_copy)
unfolding carry_over
carry_over_lem b fresh true v h = ground arith
carry_over_lem b fresh false v h = ground (
  arith,
  read_lem (bytes b.buff) b.data_size,
  length-take_of_le b.data_size (bytes b.buff),
  memcpy_lem fresh 0 (take b.data_size (bytes b.buff)),
  length-overwrite fresh 0 (take b.data_size (bytes b.buff)),
)

-- What a call of `ensure_size` comes to.
pub record Ensured (b : Buff) (n : ℕ) (r : ℤ × Buff) : Type 0 where
  pub valid : IsValid r.1
  pub outcome :
      ((r.0 ≡ negsuc 0) × (r.1 ≡ b))
      ⊎ ((r.0 ≡ pos 0) × (0 < n) × (n ≤ b.buff_max_size) × (r.1 ≡ b))
      ⊎ ((r.0 ≡ pos 0) × (b.buff_max_size < n) × (r.1.buff_max_size ≡ n) × (r.1.data_size ≡ 0))

grow_lem :
    (b : Buff) (n : ℕ) (ignore_copy : Bool) (m : Option (List ℕ))
    → IsValid b
    → b.buff_max_size < n
    → n < 2 ^ 32
    → ((fresh : List ℕ) → m ≡ some fresh → length fresh ≡ n)
    → Returns (Ensured b n) (grow b n ignore_copy m)
unfolding grow
grow_lem b n ignore_copy none v h w q = ground arith
grow_lem b n ignore_copy (some fresh) v h w q =
    Returns->>= (λ m. length m ≡ length fresh) (Ensured b n) (carry_over b fresh ignore_copy) _
      (carry_over_lem b fresh ignore_copy v (omega (arith, q fresh refl)))
      λ m e. ground (arith, q fresh refl)

-- With an allocator that gives blocks of the size asked for and a size below 2 ^ 32, `ensure_size`
-- of a valid buffer never faults. It returns -1 and leaves the buffer alone, or it returns 0 for a
-- size above 0: then the buffer is unchanged if it was large enough, and else has exactly the new
-- size and counts no data. The result is valid.
pub ensure_size_copy-Ensured :
    (malloc : Malloc) (b : Buff) (n : ℕ) (ignore_copy : Bool)
    → IsMalloc malloc
    → IsValid b
    → n < 2 ^ 32
    → Returns (Ensured b n) (ensure_size_copy malloc b n ignore_copy)
unfolding ensure_size_copy
ensure_size_copy-Ensured malloc b n ignore_copy a v w =
    ground (arith, grow_lem b n ignore_copy (malloc n) v, a n)

-- Where the allocator gives a block of the size, `ensure_size` for a size above 0 without a copy
-- returns 0.
pub ensure_size_copy_succeeds :
    (malloc : Malloc) (b : Buff) (n : ℕ)
    → malloc n ≢ none
    → 0 < n
    → Returns (λ r. r.0 ≡ pos 0) (ensure_size_copy malloc b n true)
unfolding ensure_size_copy grow carry_over
ensure_size_copy_succeeds malloc b n a h = ground arith
