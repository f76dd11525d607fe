-- ===== src/Wire/Requests.antt =====
-- `ImageRequest_` and `BytesBody`, written and read again.
use mathlib.Core.Option
use grpc_cplugplug_example.Base.{
  ℕ, ◌≡◌, refl, ap, sym, ◌∙◌, true, false, Bool, Option, none, some, List, [], ◌∷◌, ◌++◌,
  append-nil, length, length-append, arith, ◌⊎◌, Bool-cases, inl, inr, ok,
}
use grpc_cplugplug_example.Wire.{
  Field, chunk, Codec, ImageShape, RequestMessage, empty_request, shape_read, request_of,
}
use grpc_cplugplug_example.Wire.Written.{
  write_text, serialize_shape, serialize_request, request_size, serialize_body, body_size,
}
use grpc_cplugplug_example.Wire.Stored.{store_request, store_body, checked, store_all, parse}
use grpc_cplugplug_example.Wire.Laws.{IsShort, Laws}
use grpc_cplugplug_example.Wire.Fields.{
  text_fields, Emits-append, parse-Emits, write_text-Emits, text_size-write_text,
}
use grpc_cplugplug_example.Wire.Shapes.{IsShape, shape_size-serialize_shape, parse-serialize_shape}

module _ (codec : Codec) (laws : Laws codec) where
  -- A request that the code can write: a shape that counts is there, its bytes are short, and the
  -- serial number is a short text.
  pub record IsRequest (m : RequestMessage) : Type 0 where
    pub text : codec.is_utf8 m.sn ≡ true
    pub short : IsShort m.sn
    pub there :
        (m.has_image_shape ≡ false)
        ⊎ ((s : ImageShape) × (m.image_shape ≡ some s)
            × IsShape codec laws s
            × IsShort (serialize_shape codec s))

  abbrev shaped_bytes : List ℕ → ImageShape → List ℕ
  shaped_bytes sn s = write_text codec 1 sn ++ codec.write_message 2 (serialize_shape codec s)

  -- The size that is announced for a request is that of the bytes that are written.
  bare_sized :
      (m : RequestMessage)
      → IsRequest m
      → m.has_image_shape ≡ false
      → (serialize_request codec m ≡ ok (write_text codec 1 m.sn))
        × (request_size codec m ≡ ok (length (write_text codec 1 m.sn)))
  unfolding serialize_request request_size
  bare_sized m v e = (
    rw e refl,
    rw e (ap ok (text_size-write_text codec laws 1 m.sn (omega arith, omega arith) v.short)),
  )

  shaped_sized :
      (m : RequestMessage) (s : ImageShape)
      → IsRequest m
      → m.has_image_shape ≡ true
      → m.image_shape ≡ some s
      → IsShape codec laws s
      → IsShort (serialize_shape codec s)
      → (serialize_request codec m ≡ ok (shaped_bytes m.sn s))
        × (request_size codec m ≡ ok (length (shaped_bytes m.sn s)))
  unfolding serialize_request request_size
  shaped_sized m s v e q range short = (
    simp (e, q) refl,
    simp (e, q)
        (ap ok (
          omega (
            arith,
            text_size-write_text codec laws 1 m.sn (omega arith, omega arith) v.short,
            laws.message_size 2 (serialize_shape codec s) (omega arith, omega arith) short,
            ap codec.message_size (shape_size-serialize_shape codec laws s range),
            length-append (write_text codec 1 m.sn)
                (codec.write_message 2 (serialize_shape codec s)),
          ))),
  )

  abbrev request : List ℕ → Bool → Option ImageShape → RequestMessage
  request sn has s = record { sn = sn; has_image_shape = has; image_shape = s }

  store_sn :
      (s : List ℕ) (fs : List Field)
      → codec.is_utf8 s ≡ true
      → store_all codec (store_request codec) empty_request (text_fields 1 s ++ fs)
        ≡ store_all codec (store_request codec) (request s false none) fs
  unfolding store_all store_request checked Option.bind
  store_sn [] fs e = refl
  store_sn (c ∷ s) fs e = rw e refl

  store_image_shape :
      (sn : List ℕ) (s : ImageShape)
      → IsShape codec laws s
      → store_all codec
          (store_request codec)
          (request sn false none)
          (chunk 2 (serialize_shape codec s) ∷ [])
        ≡ some (request sn true (some s))
  unfolding store_all store_request Option.bind
  store_image_shape sn s v = rw (parse-serialize_shape codec laws s v) refl

  read_bare :
      (sn : List ℕ)
      → codec.is_utf8 sn ≡ true
      → IsShort sn
      → parse codec (store_request codec) empty_request (write_text codec 1 sn)
        ≡ some (request sn false none)
  unfolding store_all
  read_bare sn utf8 short =
      parse-Emits codec laws (store_request codec) empty_request (write_text codec 1 sn)
        (text_fields 1 sn) (write_text-Emits codec laws 1 sn (omega arith, omega arith) short)
      ∙ ap (store_all codec (store_request codec) empty_request)
          (sym (append-nil (text_fields 1 sn)))
      ∙ store_sn sn [] utf8

  read_shaped :
      (sn : List ℕ) (s : ImageShape)
      → codec.is_utf8 sn ≡ true
      → IsShort sn
      → IsShape codec laws s
      → IsShort (serialize_shape codec s)
      → parse codec
          (store_request codec)
          empty_request
          (write_text codec 1 sn ++ codec.write_message 2 (serialize_shape codec s))
        ≡ some (request sn true (some s))
  read_shaped sn s utf8 short v small =
      parse-Emits codec laws (store_request codec) empty_request _
        (text_fields 1 sn ++ (chunk 2 (serialize_shape codec s) ∷ []))
        (Emits-append codec (write_text codec 1 sn)
          (codec.write_message 2 (serialize_shape codec s)) (text_fields 1 sn) _
          (write_text-Emits codec laws 1 sn (omega arith, omega arith) short)
          (laws.read_message 2 (serialize_shape codec s) (omega arith, omega arith) small))
      ∙ store_sn sn (chunk 2 (serialize_shape codec s) ∷ []) utf8
      ∙ store_image_shape sn s v

  -- With a library that reads what it wrote: a request whose serial number is a short UTF-8 text, and
  -- whose shape, if it counts, is there and short, is written as as many bytes as were announced,
  -- and from these bytes the handler of `GetImage` reads the same serial number and the same
  -- width, height and channel: those of the shape that counts, or 0.
  pub serialize_request-read :
      (m : RequestMessage)
      → IsRequest m
      → (bs : List ℕ) × (m' : RequestMessage) × (serialize_request codec m ≡ ok bs)
        × (request_size codec m ≡ ok (length bs))
        × (parse codec (store_request codec) empty_request bs ≡ some m')
        × (request_of m' ≡ request_of m)
  unfolding request_of shape_read
  serialize_request-read m v = elim (Bool-cases m.has_image_shape) [
    | inr e ↦
        let sized = bare_sized m v e in
        (
          write_text codec 1 m.sn,
          request m.sn false none,
          sized.0,
          sized.1,
          read_bare m.sn v.text v.short,
          simp e refl,
        )
    | inl e ↦ elim v.there [
      | inl f ↦ absurd (cc (sym e ∙ f))
      | inr (s, q, range, short) ↦
          let sized = shaped_sized m s v e q range short in
          (
            shaped_bytes m.sn s,
            request m.sn true (some s),
            sized.0,
            sized.1,
            read_shaped m.sn s v.text v.short range short,
            simp (e, q) refl,
          )
    ]
  ]

  -- Content below 2 GB is read back by the client, from as many bytes as were announced.
  pub serialize_body-read :
      (content : List ℕ)
      → IsShort content
      → (body_size codec content ≡ length (serialize_body codec content))
        × (parse codec (store_body codec) [] (serialize_body codec content) ≡ some content)
  unfolding body_size serialize_body
  serialize_body-read content short = (
    text_size-write_text codec laws 1 content (omega arith, omega arith) short,
    parse-Emits codec laws (store_body codec) [] (write_text codec 1 content)
          (text_fields 1 content)
          (write_text-Emits codec laws 1 content (omega arith, omega arith) short)
        ∙ stored content,
  )
    where
      stored : (s : List ℕ) → store_all codec (store_body codec) [] (text_fields 1 s) ≡ some s
      stored [] = unfold store_all in refl
      stored (c ∷ s) = unfold store_all store_body Option.bind in refl
