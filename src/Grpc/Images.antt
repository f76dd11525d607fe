-- ===== src/Grpc/Images.antt =====
-- What `GetImage` answers.
use grpc_cplugplug_example.Base.{
  ℕ, ◌^◌, ◌<◌, ◌≤◌, ◌≡◌, refl, ◌⊎◌, inl, inr, true, none, List, [], Result, ok, fault,
  state_assertion, size_assertion, bad_access, zero_division, overflow, arith, Returns, Returns->>=,
  Excused, Excused->>=, Returns-Excused, ◌>>=◌,
}
use grpc_cplugplug_example.Base.Int.{pos}
use grpc_cplugplug_example.Buffer
use grpc_cplugplug_example.Buffer.{Buff}
use grpc_cplugplug_example.Buffer.Valid.{IsValid, init-IsValid, Ensured, ensure_size_copy-Ensured}
use grpc_cplugplug_example.Buffer.Copy.{contents}
use grpc_cplugplug_example.Sdk.{Env, Sys}
use grpc_cplugplug_example.Sdk.Laws.{Laws}
use grpc_cplugplug_example.Device.Converting.{Allocates}
use grpc_cplugplug_example.Provider
use grpc_cplugplug_example.Provider.{Provider, Shot}
use grpc_cplugplug_example.Provider.Cameras.{Inv, PictureTaken, take_picture-PictureTaken}
use grpc_cplugplug_example.Grpc.{
  status_ok, cancelled, ImageRequest, Reply, content_of, image_buffer, get_image,
  default_image_size,
}

module _ (env : Env) (alloc : Allocates env) where
  pub image_buffer_lem :
      (s : Sys env.World) → Returns (λ b. IsValid b × (b.data_size ≡ 0)) (image_buffer env s)
  unfolding image_buffer Buffer.ensure_size Buffer.init
  image_buffer_lem s =
      Returns->>= (Ensured Buffer.init default_image_size) _
        (Buffer.ensure_size_copy (env.malloc s.world) Buffer.init default_image_size true) _
        (ensure_size_copy-Ensured (env.malloc s.world) Buffer.init default_image_size true
          (alloc s.world) init-IsValid (omega arith))
        λ r p. (p.valid, ground (arith, p.outcome))

-- A picture is answered by its bytes, as many as the buffer counts, where these are below 2 ^ 31.
content_of_lem : (b : Buff) → b.data_size < 2 ^ 31 → content_of b ≡ (status_ok, contents b)
unfolding content_of Buffer.get_data_len Buffer.get_buff
content_of_lem b h = ground arith

content_of_cases :
    (b : Buff)
    → ((b.data_size < 2 ^ 31) × ((content_of b).0 ≡ status_ok) × ((content_of b).1 ≡ contents b))
      ⊎ ((2 ^ 31 ≤ b.data_size) × ((content_of b).0 ≡ cancelled) × ((content_of b).1 ≡ []))
unfolding content_of Buffer.get_data_len Buffer.get_buff
content_of_cases b = ground arith

module _ (env : Env) (laws : Laws env) (alloc : Allocates env) where
  -- How the answer goes with the result of `take_picture` for NULL as parameter and the empty buffer
  -- of the call: the status is OK, the content is the picture, and empty where the code is an error.
  pub record Answered (p : Provider) (sn : List ℕ) (s : Sys env.World) (a : Reply env)
      : Type 0 where
    pub buffer : Buff
    pub shot : Shot env
    pub taken : Provider.take_picture env p sn none buffer s ≡ ok shot
    pub no_data : buffer.data_size ≡ 0
    pub state : (a.2 ≡ shot.1) × (a.3 ≡ shot.3)
    pub content :
        ((shot.2.data_size < 2 ^ 31) × (a.0 ≡ status_ok) × (a.1 ≡ contents shot.2))
        ⊎ ((2 ^ 31 ≤ shot.2.data_size) × (a.0 ≡ cancelled) × (a.1 ≡ []))
    pub error : (shot.0 ≡ pos 0) ⊎ ((a.0 ≡ status_ok) × (a.1 ≡ []))

  answer :
      (p : Provider) (sn : List ℕ) (b : Buff) (s : Sys env.World) (m : Result (Shot env))
      → b.data_size ≡ 0
      → Provider.take_picture env p sn none b s ≡ m
      → Excused (PictureTaken env laws p b s) m
      → Excused (Answered p sn s) (m >>= λ r. let c = content_of r.2 in ok (c.0, c.1, r.1, r.3))
  answer p sn b s (ok r) z e k = record {
    buffer = b;
    shot = r;
    taken = e;
    no_data = z;
    state = (refl, refl);
    content = content_of_cases r.2;
    error = elim k.no_data [
      | inl fine ↦ inl fine
      | inr less ↦
          let empty : r.2.data_size ≡ 0 = omega arith in
          inr (rw (content_of_lem r.2 (omega arith), empty) (refl, refl))
    ];
  }
  answer p sn b s (fault size_assertion) z e k = tt
  answer p sn b s (fault zero_division) z e k = tt
  answer p sn b s (fault state_assertion) z e k = absurd k
  answer p sn b s (fault bad_access) z e k = absurd k
  answer p sn b s (fault overflow) z e k = absurd k

  -- With an SDK that behaves as documented and an allocator that gives blocks of the size asked
  -- for, from a provider whose devices are all ready or closed: `GetImage` ends the process at
  -- most by an image of the full size of the buffer or by a counter that has come round, and else
  -- leaves the state that `take_picture` leaves, called with NULL as the parameter. The status is
  -- OK and the content the bytes of the picture, if these are below 2 ^ 31, and else CANCELLED; a
  -- failed picture is answered by the status OK as well, with no content.
  pub get_image-Answered :
      (p : Provider) (request : ImageRequest) (s : Sys env.World)
      → Inv p
      → Excused (Answered p request.sn s) (get_image env p request s)
  unfolding get_image
  get_image-Answered p request s v =
      Excused->>= (λ b. IsValid b × (b.data_size ≡ 0)) _ (image_buffer env s) _
        (Returns-Excused (λ b. IsValid b × (b.data_size ≡ 0)) (λ b. IsValid b × (b.data_size ≡ 0))
          (image_buffer env s) (image_buffer_lem env alloc s) (λ b k. k))
        λ b k.
          answer p request.sn b s (Provider.take_picture env p request.sn none b s) k.1 refl
            (take_picture-PictureTaken env laws p request.sn none b s alloc v k.0)

-- The shape that a client asks for changes nothing: two requests for one serial number are answered
-- alike, in the same state, whatever their widths, heights and channels are.
pub get_image_ignores_shape :
    (env : Env) (p : Provider) (s : Sys env.World) (q r : ImageRequest)
    → q.sn ≡ r.sn
    → get_image env p q s ≡ get_image env p r s
unfolding get_image
get_image_ignores_shape env p s q r e = rw e
