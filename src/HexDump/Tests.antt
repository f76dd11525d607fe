-- ===== src/HexDump/Tests.antt =====
-- A dump of five of six bytes.
use grpc_cplugplug_example.Base.{ℕ, ◌≡◌, List, [], ◌∷◌, take, Returns, arith}
use grpc_cplugplug_example.Base.Int.{pos}
use grpc_cplugplug_example.HexDump.{hex_dump}
use grpc_cplugplug_example.HexDump.Decode.{AreBytes, decode, decode-hex_dump}

abbrev six_bytes : List ℕ
six_bytes = 0 ∷ 255 ∷ 16 ∷ 65 ∷ 127 ∷ 1 ∷ []

six_bytes-AreBytes : AreBytes six_bytes
six_bytes-AreBytes =
    (omega arith, (omega arith, (omega arith, (omega arith, (omega arith, (omega arith, tt))))))

decode-hex_dump_example : Returns (λ ls. decode ls ≡ take 5 six_bytes) (hex_dump six_bytes (pos 5))
decode-hex_dump_example = decode-hex_dump six_bytes 5 (omega arith) six_bytes-AreBytes
