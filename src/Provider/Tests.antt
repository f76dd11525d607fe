-- ===== src/Provider/Tests.antt =====
-- Runs of a provider on the SDK with one camera.
use grpc_cplugplug_example.Base.{
  ℕ, ◌≡◌, ◌≢◌, refl, none, some, List, [], ◌∷◌, ok, Returns, Excused, arith, sym, ap, ◌∙◌, length,
  length-replicate, inr,
}
use grpc_cplugplug_example.Buffer.{Buff, bytes}
use grpc_cplugplug_example.Buffer.Valid.{IsValid}
use grpc_cplugplug_example.Text.{toupper, to_upper, c_str}
use grpc_cplugplug_example.Sdk.Sample.{
  one_camera, one_camera-Laws, at_start, gige_device, usb_device,
}
use grpc_cplugplug_example.Device.{Device, init}
use grpc_cplugplug_example.Device.States.{init-IsConsistent, init-IsClosed}
use grpc_cplugplug_example.Device.Converting.{Allocates}
use grpc_cplugplug_example.Provider.{
  Provider, find_camera_info_by_sn, find_or_create_camera_device, close_camera, take_picture,
}
use grpc_cplugplug_example.Provider.Names.{Searched, find_camera_info_by_sn-Searched}
use grpc_cplugplug_example.Provider.Metas.{ip_addr}
use grpc_cplugplug_example.Provider.Address.{read_ip, Dotted, read_ip-ip_addr}
use grpc_cplugplug_example.Provider.Cameras.{
  Inv, Found, find_or_create-Found, PictureTaken, take_picture-PictureTaken,
}
use grpc_cplugplug_example.Provider.Lookup.{close_camera_not_upper}

one_camera-Allocates : Allocates one_camera
one_camera-Allocates w n m e = sym (ap (λ o. length (bytes o)) e) ∙ length-replicate n 0

abbrev small_buffer : Buff
small_buffer = record { buff = some (0 ∷ 0 ∷ 0 ∷ 0 ∷ []); buff_max_size = 4; data_size = 0 }

small_buffer-IsValid : IsValid small_buffer
small_buffer-IsValid = record { shape = refl; fits = omega arith; word = omega arith }

abbrev lower_serial : List ℕ
lower_serial = b'k' ∷ b'1' ∷ b'2' ∷ []

abbrev upper_serial : List ℕ
upper_serial = b'K' ∷ b'1' ∷ b'2' ∷ []

to_upper-upper_serial : to_upper upper_serial ≡ upper_serial
unfolding to_upper toupper
to_upper-upper_serial = refl

to_upper-lower_serial : to_upper lower_serial ≡ upper_serial
unfolding to_upper toupper
to_upper-lower_serial = refl

c_str-lower_serial : c_str lower_serial ≡ lower_serial
unfolding c_str
c_str-lower_serial = refl

to_upper-c_str-lower_serial : to_upper (c_str lower_serial) ≡ upper_serial
to_upper-c_str-lower_serial = ap to_upper c_str-lower_serial ∙ to_upper-lower_serial

abbrev first_byte : List ℕ → ℕ
first_byte [] = 0
first_byte (c ∷ s) = c

serials_differ : upper_serial ≢ lower_serial
serials_differ e = absurd (omega (arith, ap first_byte e))

abbrev closed_device : Device
closed_device = init one_camera

-- Two devices that were found, and a device that was closed under the one's serial number.
abbrev two_found : Provider
two_found = record {
  camera_info_list = some usb_device ∷ none ∷ some gige_device ∷ [];
  cameras_list = (upper_serial, closed_device) ∷ [];
}

two_found-Inv : Inv two_found
two_found-Inv = ((init-IsConsistent one_camera, inr (init-IsClosed one_camera)), tt)

find_camera_info_by_sn-Searched_example :
    Searched one_camera upper_serial two_found.camera_info_list
      (find_camera_info_by_sn one_camera two_found upper_serial)
find_camera_info_by_sn-Searched_example =
    find_camera_info_by_sn-Searched one_camera two_found upper_serial

read_ip-ip_addr_example :
    Dotted 3232235777 (ip_addr 3232235777) × (read_ip 0 0 (ip_addr 3232235777) ≡ 3232235777)
read_ip-ip_addr_example = read_ip-ip_addr 3232235777 (omega arith)

find_or_create-Found_example :
    Returns
      (Found one_camera (to_upper lower_serial) two_found at_start)
      (find_or_create_camera_device one_camera two_found lower_serial at_start)
find_or_create-Found_example =
    find_or_create-Found one_camera one_camera-Laws two_found lower_serial at_start two_found-Inv

take_picture-PictureTaken_example :
    Excused
      (PictureTaken one_camera one_camera-Laws two_found small_buffer at_start)
      (take_picture one_camera two_found lower_serial none small_buffer at_start)
take_picture-PictureTaken_example =
    take_picture-PictureTaken one_camera one_camera-Laws two_found lower_serial none small_buffer
      at_start one_camera-Allocates two_found-Inv small_buffer-IsValid

close_camera_not_upper_example :
    close_camera one_camera two_found lower_serial at_start ≡ ok (two_found, at_start)
close_camera_not_upper_example =
    close_camera_not_upper one_camera two_found lower_serial at_start (to_upper-upper_serial, tt)
      (λ e. serials_differ (sym to_upper-c_str-lower_serial ∙ e ∙ c_str-lower_serial))
