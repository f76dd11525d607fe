-- ===== src/Grpc/Serving.antt =====
-- The life of the server: the look at the cameras when it starts, and the calls that it answers.
use grpc_cplugplug_example.Base.{
  ◌≡◌, refl, true, none, List, [], ◌∷◌, Result, ok, arith, Excused, Excused->>=, Excused-map,
  Returns-Excused, ◌>>=◌, Bool-cases, inl, inr,
}
use grpc_cplugplug_example.Base.Int.{nonzero}
use grpc_cplugplug_example.Sdk.{Env, Sys}
use grpc_cplugplug_example.Sdk.Laws.{Laws, Conserves}
use grpc_cplugplug_example.Loop.{Event}
use grpc_cplugplug_example.Loop.Stop.{first_stop, loop_until-first_stop}
use grpc_cplugplug_example.Device.Converting.{Allocates}
use grpc_cplugplug_example.Camera.Forward.{enum_devices}
use grpc_cplugplug_example.Provider
use grpc_cplugplug_example.Provider.{Provider, enum_all_cameras_info}
use grpc_cplugplug_example.Provider.Map.{map_held}
use grpc_cplugplug_example.Provider.Metas.{enum_all_cameras}
use grpc_cplugplug_example.Provider.Cameras.{Inv, PictureTaken, take_picture-PictureTaken}
use grpc_cplugplug_example.Buffer.Valid.{IsValid}
use grpc_cplugplug_example.Grpc.{
  ImageRequest, Reply, image_buffer, get_image, get_camera_metas, dump_cameras, reset,
  shutdown_after,
}
use grpc_cplugplug_example.Grpc.Images.{image_buffer_lem}

-- A call of a client.
pub data Call : Type 0 where
  camera_metas reset_all : Call
  image : ImageRequest → Call

module _ (env : Env) where
  unfoldable pub after_image : Reply env → Provider × Sys env.World
  after_image a = (a.2, a.3)

  -- One call; the answer is dropped, the state is kept.
  unfoldable pub serve_call : Call → Provider × Sys env.World → Result (Provider × Sys env.World)
  unfolding after_image
  serve_call camera_metas (p, s) = let a = get_camera_metas env p s in ok (a.2, a.3)
  serve_call reset_all (p, s) = let a = reset env p s in ok (a.1, a.2)
  serve_call (image r) (p, s) = get_image env p r s >>= λ a. ok (after_image a)

  unfoldable pub serve : List Call → Provider × Sys env.World → Result (Provider × Sys env.World)
  serve [] st = ok st
  serve (c ∷ cs) st = serve_call c st >>= λ st'. serve cs st'

  -- `start_grpc_server`: a new provider, `dump_cameras`, and then the calls.
  unfoldable pub start_grpc_server : List Call → Sys env.World → Result (Provider × Sys env.World)
  start_grpc_server cs s = serve cs (dump_cameras env Provider.init s)

  -- A fit provider, with the handles conserved since the state given.
  abbrev pub Kept : Provider × Sys env.World → Provider × Sys env.World → Type 0
  Kept (p, s) (q, t) =
      Inv q × Conserves s.trace (map_held p.cameras_list) t.trace (map_held q.cameras_list)

  enum_all_cameras-Kept :
      (p : Provider) (s : Sys env.World)
      → Inv p
      → let r = enum_all_cameras env p s in Kept (p, s) (r.2, r.3)
  unfolding enum_all_cameras enum_all_cameras_info enum_devices
  enum_all_cameras-Kept p s v = elim (Bool-cases (nonzero (enum_all_cameras_info env p s).0)) [
    | inl failed ↦ rw failed (v, λ h n. refl)
    | inr fine ↦ rw fine (v, λ h n. refl)
  ]

  module _ (laws : Laws env) (alloc : Allocates env) where
    get_image-Kept :
        (p : Provider) (r : ImageRequest) (s : Sys env.World)
        → Inv p
        → Excused (λ a. Kept (p, s) (after_image a)) (get_image env p r s)
    unfolding get_image after_image
    get_image-Kept p r s v =
        Excused->>= (λ b. IsValid b) _ (image_buffer env s) _
          (Returns-Excused _ (λ b. IsValid b) (image_buffer env s) (image_buffer_lem env alloc s)
            (λ b k. k.0))
          λ b k.
            Excused->>= (PictureTaken env laws p b s) _ (Provider.take_picture env p r.sn none b s)
              _ (take_picture-PictureTaken env laws p r.sn none b s alloc v k)
              λ shot t. (t.inv, t.conserves)

    serve_call-Kept :
        (c : Call) (st : Provider × Sys env.World) → Inv st.0 → Excused (Kept st) (serve_call c st)
    unfolding serve_call get_camera_metas reset
    serve_call-Kept camera_metas (p, s) v = enum_all_cameras-Kept p s v
    serve_call-Kept reset_all (p, s) v = (v, λ h n. refl)
    serve_call-Kept (image r) (p, s) v =
        Excused->>= (λ a. Kept (p, s) (after_image a)) _ (get_image env p r s) _
          (get_image-Kept p r s v) λ a k. k

    serve-Kept :
        (cs : List Call) (st : Provider × Sys env.World)
        → Inv st.0
        → Excused (Kept st) (serve cs st)
    unfolding serve
    serve-Kept [] (p, s) v = (v, λ h n. refl)
    serve-Kept (c ∷ cs) (p, s) v =
        Excused->>= (Kept (p, s)) (Kept (p, s)) (serve_call c (p, s)) _ (serve_call-Kept c (p, s) v)
          λ (q, t) k.
            Excused-map (Kept (q, t)) (Kept (p, s)) _ (serve-Kept cs (q, t) k.0)
              λ (u, w) j. (j.0, λ h n. omega (arith, j.1 h n, k.1 h n))

    -- With an SDK that behaves as documented and an allocator that gives blocks of the size asked
    -- for: whatever calls the server answers after its start, it never goes through a NULL camera,
    -- fails no assertion on the state of a camera and touches no memory outside of its buffers; it
    -- ends the process at most by an image of the full size of its buffer or by a counter that has
    -- come round. After any run of calls that returns, every device of the map is ready or closed,
    -- and each handle was created as often as it was destroyed or is held by a device of the map.
    pub start_grpc_server-Kept :
        (cs : List Call) (s : Sys env.World)
        → Excused (Kept (Provider.init, s)) (start_grpc_server cs s)
    unfolding start_grpc_server dump_cameras Provider.init
    start_grpc_server-Kept cs s =
        let k = enum_all_cameras-Kept Provider.init s tt in
        Excused-map (Kept (dump_cameras env Provider.init s)) (Kept (Provider.init, s)) _
          (serve-Kept cs (dump_cameras env Provider.init s) k.0)
          λ (u, w) j. (j.0, λ h n. omega (arith, j.1 h n, k.1 h n))

-- A server that was built is told to shut down after the sleep in which the first stop is asked for,
-- and not before.
pub shutdown_after-first_stop : (es : List Event) → shutdown_after true es ≡ first_stop es
unfolding shutdown_after
shutdown_after-first_stop es = loop_until-first_stop es
