-- ===== src/Device/Clamp.antt =====
-- The values that `_to_jpg` passes to the SDK, and what it makes of the length that comes back.
use grpc_cplugplug_example.Base.{
  ℕ, ◌+◌, ◌%◌, ◌^◌, ◌≤◌, ◌<◌, ◌≡◌, ◌≢◌, refl, inl, inr, true, ◌&&◌, min, Option, none, some, List,
  ◌∷◌, ltb, leb, ◌==◌, Result, ok, fault, size_assertion, zero_division, state_assertion,
  bad_access, overflow, arith, Excused, Within, Within-map, ◌>>=◌, if◌then◌else◌, Bool-cases,
}
use grpc_cplugplug_example.Base.Int.{ℤ, pos, eq_ℤ}
use grpc_cplugplug_example.Buffer
use grpc_cplugplug_example.Buffer.{Buff}
use grpc_cplugplug_example.Buffer.Valid.{IsValid}
use grpc_cplugplug_example.Sdk.{
  FrameInfo, SaveParam, save_image, requested, Env, Sys, get_sys_time_ms,
}
use grpc_cplugplug_example.Sdk.Laws.{Laws}
use grpc_cplugplug_example.Camera
use grpc_cplugplug_example.Camera.{Camera}
use grpc_cplugplug_example.Device.{Device}
use grpc_cplugplug_example.Device.Picture.{
  ImageParameter, choose, save_param, record_time, fill, prepare, Shot, converted, to_jpg,
}
use grpc_cplugplug_example.Device.Converting.{Allocates, Shoots, to_jpg_lem}

-- The limits within which `_to_jpg` takes over the fields of a parameter.
pub record InLimits (frame : FrameInfo) (p : ImageParameter) : Type 0 where
  pub image_type : (1 ≤ p.image_type) × (p.image_type ≤ 4)
  pub width : p.width ≤ frame.width
  pub height : p.height ≤ frame.height
  pub quality : (50 ≤ p.quality) × (p.quality ≤ 99)
  pub method : p.method ≤ 3

abbrev pub DefaultsInLimits : Device → Type 0
DefaultsInLimits d =
    ((1 ≤ d.default_image_type) × (d.default_image_type ≤ 4))
    × ((50 ≤ d.default_quality) × (d.default_quality ≤ 99))
    × (d.default_method ≤ 3)

-- The five values that are settled on stay within the limits.
choose-InLimits :
    (d : Device) (frame : FrameInfo) (param : Option ImageParameter)
    → DefaultsInLimits d
    → InLimits frame (choose d frame param)
unfolding choose
choose-InLimits d frame none h = record {
  image_type = h.0;
  width = omega arith;
  height = omega arith;
  quality = h.1;
  method = h.2;
}
choose-InLimits d frame (some p) h = record {
  image_type = ground arith;
  width = ground arith;
  height = ground arith;
  quality = ground arith;
  method = ground arith;
}

Excused_and :
    {A : Type 0} (P Q : A → Type 0) (m : Result A)
    → Excused P m
    → Within (λ e. Unit) Q m
    → Excused Q m
Excused_and P Q (ok a) h k = k
Excused_and P Q (fault size_assertion) h k = tt
Excused_and P Q (fault zero_division) h k = tt
Excused_and P Q (fault state_assertion) h k = h
Excused_and P Q (fault bad_access) h k = h
Excused_and P Q (fault overflow) h k = h

module _ (env : Env) where
  -- The one call that `_to_jpg` has made when it is through: `SaveImage` of the camera, with the pixels
  -- and the length of the frame and values within the limits, into a buffer that it has been told the
  -- size of.
  pub record AskedOnce (c : Camera) (pixels : List ℕ) (frame : FrameInfo) (s : Sys env.World)
      (r : Shot env) : Type 0 where
    pub asked : SaveParam
    pub trace : r.3.trace ≡ requested (save_image asked) c.handle ∷ s.trace
    pub limits : InLimits frame (record {
      image_type = asked.image_type;
      width = asked.width;
      height = asked.height;
      quality = asked.quality;
      method = asked.method;
    })
    pub frame_given :
        (asked.pixels ≡ pixels)
        × (asked.data_len ≡ frame.frame_len)
        × (asked.pixel_type ≡ frame.pixel_type)

  -- Nothing is asked of the faults, nor of the first part.
  behind :
      {A B : Type 0} (Q : B → Type 0) (m : Result A) (f : A → Result B)
      → ((a : A) → Within (λ e. Unit) Q (f a))
      → Within (λ e. Unit) Q (m >>= f)
  behind Q (ok a) f h = h a
  behind Q (fault e) f h = tt

  converted_silent :
      (d : Device) (ret : ℤ) (n : ℕ) (b : Buff) (t1 : ℕ) (s : Sys env.World)
      → Within (λ e. Unit) (λ r. r.3.trace ≡ s.trace) (converted env d ret n b t1 s)
  unfolding converted
  converted_silent d ret n b t1 s =
      behind _ (record_time d.conv_image t1 (env.now s.world).0) _ λ times.
        behind _ (if eq_ℤ ret (pos 0) then (Buffer.set_data_size b n >>= λ r. ok r.1) else ok b) _
          λ b'. refl

  to_jpg_asks :
      (d : Device) (c : Camera) (pixels : List ℕ) (frame : FrameInfo)
      (param : Option ImageParameter) (b : Buff) (s : Sys env.World)
      → DefaultsInLimits d
      → Within (λ e. Unit) (AskedOnce c pixels frame s) (to_jpg env d c pixels frame param b s)
  unfolding to_jpg Camera.save save_param
  to_jpg_asks d c pixels frame param b s h =
      behind (AskedOnce c pixels frame s) (prepare env d b s) _ λ b1.
        let p = save_param (choose d frame param) frame pixels b1 in
        let t1 = get_sys_time_ms env s in
        let r = Camera.save env p c t1.1 in
        behind (AskedOnce c pixels frame s) (fill b1 r.0.2) _ λ b2.
          Within-map (λ e. Unit) (λ q. q.3.trace ≡ r.1.trace) (AskedOnce c pixels frame s)
            (converted env d r.0.0 r.0.1 b2 t1.0 r.1) (converted_silent d r.0.0 r.0.1 b2 t1.0 r.1)
            λ q e. record {
              asked = p;
              trace = e;
              limits = choose-InLimits d frame param h;
              frame_given = (refl, refl, refl);
            }

  -- With an SDK that behaves as documented, an allocator that gives blocks of the size asked for,
  -- a valid buffer, a buffer size of the device below 2 ^ 32 and its defaults within the limits:
  -- `_to_jpg` ends the process at most by an image of the full size of the buffer or by a counter
  -- that has come round, and else has asked the SDK exactly once, to save the frame given: with an
  -- image type from 1 to 4, a width and a height up to those of the frame, a quality from 50 to 99
  -- and a method up to 3, whatever the parameter says.
  pub to_jpg-AskedOnce :
      Laws env
      → Allocates env
      → (d : Device) (c : Camera) (pixels : List ℕ) (frame : FrameInfo)
        (param : Option ImageParameter) (b : Buff) (s : Sys env.World)
      → d.default_buff_size < 2 ^ 32
      → IsValid b
      → DefaultsInLimits d
      → Excused (AskedOnce c pixels frame s) (to_jpg env d c pixels frame param b s)
  to_jpg-AskedOnce laws alloc d c pixels frame param b s w v h =
      Excused_and (Shoots env d b s) (AskedOnce c pixels frame s)
        (to_jpg env d c pixels frame param b s)
        (to_jpg_lem env laws alloc d c pixels frame param b s w v)
        (to_jpg_asks d c pixels frame param b s h)

-- A parameter within the limits, with a width and a height above 0, is taken over by `_to_jpg` as
-- it is.
pub choose_honours :
    (d : Device) (frame : FrameInfo) (p : ImageParameter)
    → InLimits frame p
    → 0 < p.width
    → 0 < p.height
    → choose d frame (some p) ≡ p
unfolding choose
choose_honours d frame p v w h = same_fields
  where
    type_kept : (leb 1 p.image_type && leb p.image_type 4) ≡ true
    type_kept = ground (arith, v.image_type)

    quality_kept : (leb 50 p.quality && ltb p.quality 100) ≡ true
    quality_kept = ground (arith, v.quality)

    method_kept : (leb 0 p.method && leb p.method 3) ≡ true
    method_kept = ground (arith, v.method)

    width_asked : ltb 0 p.width ≡ true
    width_asked = ground arith

    height_asked : ltb 0 p.height ≡ true
    height_asked = ground arith

    width_kept : min frame.width p.width ≡ p.width
    width_kept = omega (arith, v.width)

    height_kept : min frame.height p.height ≡ p.height
    height_kept = omega (arith, v.height)

    same_fields : choose d frame (some p) ≡ p
    same_fields =
        simp
          (type_kept, quality_kept, method_kept, width_asked, height_asked, width_kept, height_kept)

-- Where the counter of the pictures has not come round, an image that fills the buffer to its last
-- byte ends the process: for the code 0 and the full size of the buffer as the length, `_to_jpg`
-- fails the assertion of `set_data_size`.
pub converted_full :
    (env : Env) (d : Device) (b : Buff) (t1 : ℕ) (s : Sys env.World)
    → (d.conv_image.count + 1) % 2 ^ 64 ≢ 0
    → converted env d (pos 0) b.buff_max_size b t1 s ≡ fault size_assertion
unfolding converted record_time Buffer.set_data_size
converted_full env d b t1 s h = elim (Bool-cases ((d.conv_image.count + 1) % 2 ^ 64 == 0)) [
  | inl round ↦ absurd (h (ground arith))
  | inr fine ↦ rw fine (ground arith)
]
