-- ===== src/Wire/Shapes.antt =====
-- `ImageShape_`, written and read again.
use mathlib.Core.Option
use grpc_cplugplug_example.Base.{
  ℕ, ◌≡◌, refl, ap, sym, ◌∙◌, some, List, [], ◌++◌, append-nil, length, length-append, arith,
  Bool-cases, inl, inr,
}
use grpc_cplugplug_example.Base.Int.{ℤ, pos, nonzero, nonzero_iff}
use grpc_cplugplug_example.Wire.{Field, varint, Codec, ImageShape, zero_shape}
use grpc_cplugplug_example.Wire.Written.{write_int, serialize_shape, shape_size}
use grpc_cplugplug_example.Wire.Stored.{store_shape, store_all, parse}
use grpc_cplugplug_example.Wire.Laws.{IsInt32, Emits, Laws}
use grpc_cplugplug_example.Wire.Fields.{
  int_fields, Emits-append, parse-Emits, write_int-Emits, int_size-write_int,
}

module _ (codec : Codec) (laws : Laws codec) where
  abbrev pub shape_fields : ImageShape → List Field
  shape_fields m = int_fields 1 m.width ++ (int_fields 2 m.height ++ int_fields 3 m.channel)

  abbrev pub IsShape : ImageShape → Type 0
  IsShape m = IsInt32 m.width × IsInt32 m.height × IsInt32 m.channel

  pub serialize_shape-Emits :
      (m : ImageShape) → IsShape m → Emits codec (serialize_shape codec m) (shape_fields m)
  unfolding serialize_shape
  serialize_shape-Emits m v =
      Emits-append codec (write_int codec 1 m.width) _ (int_fields 1 m.width) _
        (write_int-Emits codec laws 1 m.width (omega arith, omega arith) v.0)
        (Emits-append codec (write_int codec 2 m.height) _ (int_fields 2 m.height) _
          (write_int-Emits codec laws 2 m.height (omega arith, omega arith) v.1)
          (write_int-Emits codec laws 3 m.channel (omega arith, omega arith) v.2))

  pub shape_size-serialize_shape :
      (m : ImageShape) → IsShape m → shape_size codec m ≡ length (serialize_shape codec m)
  unfolding shape_size serialize_shape
  shape_size-serialize_shape m v = omega (
    arith,
    int_size-write_int codec laws 1 m.width (omega arith, omega arith) v.0,
    int_size-write_int codec laws 2 m.height (omega arith, omega arith) v.1,
    int_size-write_int codec laws 3 m.channel (omega arith, omega arith) v.2,
    length-append (write_int codec 1 m.width)
        (write_int codec 2 m.height ++ write_int codec 3 m.channel),
    length-append (write_int codec 2 m.height) (write_int codec 3 m.channel),
  )

  abbrev shape : ℤ → ℤ → ℤ → ImageShape
  shape w h c = record { width = w; height = h; channel = c }

  -- A number that is left out is the default one.
  store_int :
      (n : ℕ) (set_it : ℤ → ImageShape) (v : ℤ) (fs : List Field)
      → ((x : ℤ) → store_shape codec (set_it (pos 0)) (varint n x) ≡ some (set_it x))
      → store_all codec (store_shape codec) (set_it (pos 0)) (int_fields n v ++ fs)
        ≡ store_all codec (store_shape codec) (set_it v) fs
  unfolding store_all Option.bind
  store_int n set_it v fs stored = elim (Bool-cases (nonzero v)) [
    | inl e ↦ rw (e, stored v) refl
    | inr e ↦
        rw e
          (ap (λ x. store_all codec (store_shape codec) (set_it x) fs) (sym ((nonzero_iff v).0 e)))
  ]

  -- Reading a shape back.
  pub parse-serialize_shape :
      (m : ImageShape)
      → IsShape m
      → parse codec (store_shape codec) zero_shape (serialize_shape codec m) ≡ some m
  unfolding store_shape store_all
  parse-serialize_shape m v =
      parse-Emits codec laws (store_shape codec) zero_shape (serialize_shape codec m)
        (shape_fields m) (serialize_shape-Emits m v)
      ∙ store_int 1 (λ x. shape x (pos 0) (pos 0)) m.width
          (int_fields 2 m.height ++ int_fields 3 m.channel) (λ x. refl)
      ∙ store_int 2 (λ x. shape m.width x (pos 0)) m.height (int_fields 3 m.channel) (λ x. refl)
      ∙ ap (store_all codec (store_shape codec) (shape m.width m.height (pos 0)))
          (sym (append-nil (int_fields 3 m.channel)))
      ∙ store_int 3 (λ x. shape m.width m.height x) m.channel [] (λ x. refl)
