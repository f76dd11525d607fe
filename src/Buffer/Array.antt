-- ===== src/Buffer/Array.antt =====
-- `array_t<T>` of src/utils.h: an array of elements over a `buff_t`.
pub mod Append
use grpc_cplugplug_example.Base.{
  ℕ, ◌+◌, ◌*◌, ◌%◌, ◌^◌, Option, none, some, List, leb, if◌then◌else◌, Result, ok, fault,
  bad_access, ◌>>=◌,
}
use grpc_cplugplug_example.Base.Int.{ℤ, pos, negsuc, nonzero}
use grpc_cplugplug_example.Buffer.Memory.{memcpy}
use grpc_cplugplug_example.Buffer
use grpc_cplugplug_example.Buffer.{Buff, Malloc}

-- What `header_` points to: nothing that was ever set, the present allocation, or a freed one.
pub data Header : Type 0 where
  unset current dangling : Header

-- The constructor leaves the last three fields as they happen to be.
pub record Array : Type 0 where
  pub buff : Buff
  pub header : Header
  pub max_size : ℕ
  pub end : ℕ

unfoldable pub free_buff : Array → Array
free_buff a = record a { buff = Buffer.free_buff a.buff; header = dangling }

-- `T` with its `sizeof`, and the bytes that an element is stored as.
module _ {T : Type 0} (size_of : ℕ) (encode : T → List ℕ) (malloc : Malloc) where
  unfoldable pub ensure_size : Array → ℕ → Result (ℤ × Array)
  ensure_size a new_element_size =
      let doubled = (new_element_size * 2) % 2 ^ 32 in
      Buffer.ensure_size malloc a.buff ((size_of * doubled) % 2 ^ 32) >>= λ r.
      if nonzero r.0
      then ok (r.0, record a { buff = r.1 })
      else ok (r.0, record a { buff = r.1; header = current; max_size = doubled })

  -- `header_[i] = val`
  unfoldable pub store : Array → ℕ → T → Result Array
  store a i val = elim a.header [
    | current ↦ elim a.buff.buff [
      | none ↦ fault bad_access
      | some m ↦ memcpy m (i * size_of) (encode val) >>= λ m'.
          ok (record a { buff = record (a.buff) { buff = some m' } })
    ]
    | _ ↦ fault bad_access
  ]

  unfoldable pub set : Array → ℕ → T → Result (ℤ × Array)
  unfolding store
  set a i val =
      if leb a.max_size i then ok (negsuc 0, a) else (store a i val >>= λ a'. ok (pos 0, a'))

  -- The rest of `append`, behind its test.
  unfoldable pub push : Array → T → Result (ℤ × Array)
  unfolding store
  push a val = store a a.end val >>= λ a'.
      let end' = (a'.end + 1) % 2 ^ 32 in
      Buffer.set_data_size a'.buff ((end' * size_of) % 2 ^ 32) >>= λ r.
      ok (pos 0, record a' { buff = r.1; end = end' })

  -- The test is the source's: the call goes on where `ensure_size` does not return 0.
  unfoldable pub append : Array → T → Result (ℤ × Array)
  unfolding ensure_size push
  append a val = ensure_size a ((a.end + 1) % 2 ^ 32) >>= λ r.
      if nonzero r.0 then push r.1 val else ok (negsuc 0, r.1)

unfoldable pub get_element_size : Array → ℕ
get_element_size a = a.end

unfoldable pub get_buff : Array → Option (List ℕ)
get_buff a = Buffer.get_buff a.buff
