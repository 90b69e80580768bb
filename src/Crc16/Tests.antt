-- ===== src/Crc16/Tests.antt =====
-- The checksums of the frame of `main` in src/crc16.cpp.
use socketlab.Base.{
  ℕ, ◌*◌, ◌^◌, List, [], ◌∷◌, ◌++◌, ◌≡◌, ◌≢◌, ◌↔◌, refl, ap, some, arith, All, IsByte, get_or,
}
use socketlab.Crc16.Detection.{checksum}
use socketlab.Crc16.Reflected.{reflected_byte}
use socketlab.Crc16.Division.{remainder}
use socketlab.Crc16.Modbus.{us_mb_crc16-reflected}
use socketlab.Crc16.Remainder.{iot_calc_crc16-remainder}
use socketlab.Crc16.Guarantees.{us_mb_crc16-appended, us_mb_crc16_detects}
use socketlab.Crc16.{
  us_mb_crc16, combined, modbus_loop, modbus_byte, iot_calc_crc16, ccitt_loop, ccitt_byte,
  ccitt_bits, ccitt_bit,
}

abbrev frame : List ℕ
frame = 0x41 ∷ 0 ∷ 0x42 ∷ 0 ∷ 0x43 ∷ 0 ∷ 0x0a ∷ 0 ∷ []

modbus_frame : us_mb_crc16 frame 8 ≡ some 0xf199
unfolding us_mb_crc16 combined modbus_loop modbus_byte
modbus_frame = refl

ccitt_frame : iot_calc_crc16 frame 8 ≡ some 0x4ad8
unfolding iot_calc_crc16 ccitt_loop ccitt_byte ccitt_bits ccitt_bit
ccitt_frame = refl

abbrev frame_bytes : All IsByte frame
frame_bytes = (
  omega arith,
  (
    omega arith,
    (omega arith, (omega arith, (omega arith, (omega arith, (omega arith, (omega arith, tt)))))),
  ),
)

us_mb_crc16-reflected_example : us_mb_crc16 frame 8 ≡ some (checksum reflected_byte frame 0xffff)
us_mb_crc16-reflected_example = us_mb_crc16-reflected frame (omega arith) frame_bytes

iot_calc_crc16-remainder_example :
    iot_calc_crc16 frame 8 ≡ some (remainder 64 (0x4100420043000a00 * 2 ^ 16))
iot_calc_crc16-remainder_example = iot_calc_crc16-remainder frame (omega arith) frame_bytes

us_mb_crc16-appended_example :
    (us_mb_crc16 (frame ++ (0x99 ∷ 0xf1 ∷ [])) 10 ≡ some 0) ↔ (us_mb_crc16 frame 8 ≡ some 0xf199)
us_mb_crc16-appended_example =
    us_mb_crc16-appended frame 0x99 0xf1 (omega arith) frame_bytes (omega arith) (omega arith)

abbrev sent : List ℕ
sent = 0x41 ∷ 0 ∷ []

abbrev changed : List ℕ
changed = 0x41 ∷ 1 ∷ []

one_off : sent ≢ changed
one_off e = absurd (omega (arith, ap (λ l. get_or l 1 0) e))

us_mb_crc16_detects_example :
    us_mb_crc16 (0x41 ∷ 0 ∷ 0x42 ∷ []) 3 ≢ us_mb_crc16 (0x41 ∷ 1 ∷ 0x42 ∷ []) 3
us_mb_crc16_detects_example =
    us_mb_crc16_detects [] (0x42 ∷ []) 0x41 0 0x41 1 (omega arith) tt (omega arith, tt)
      (omega arith, (omega arith, tt)) (omega arith, (omega arith, tt)) one_off
