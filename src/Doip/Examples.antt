-- ===== src/Doip/Examples.antt =====
-- DoIP packets on concrete bytes.
use virtual_automotive_ota_d.Prelude.{◌≡◌, refl, [], ◌∷◌, ◌++◌, Bytes, ok, ◌>>=◌}
use virtual_automotive_ota_d.Doip.{
  build_packet, build_diagnostic_packet, parse_packet, extract_packets, extract_loop,
  parse_diagnostic_payload,
}
use virtual_automotive_ota_d.Doip.Stream.{
  then_packets, build_stream, extract_packets-append, parse_packet-build_packet,
  extract_packets-build_stream, parse_diagnostic_payload-build_diagnostic_packet,
}

-- A packet of type 0x8001 with two bytes, and the first bytes of the next one.
abbrev packet : Bytes
packet = 0x02 ∷ 0xFD ∷ 0x80 ∷ 0x01 ∷ 0 ∷ 0 ∷ 0 ∷ 2 ∷ 0xAA ∷ 0xBB ∷ []

abbrev started : Bytes
started = 0x02 ∷ 0xFD ∷ 0x80 ∷ []

packet-built : build_packet 0x8001 (0xAA ∷ 0xBB ∷ []) ≡ ok packet
unfolding build_packet
packet-built = refl

packet-extracted :
    extract_packets (packet ++ started) ≡ (ok ((0x8001, 0xAA ∷ 0xBB ∷ []) ∷ []), started)
unfolding extract_packets extract_loop
packet-extracted = refl

stream-built : build_stream ((0x8001, 0xAA ∷ 0xBB ∷ []) ∷ []) ≡ ok packet
unfolding build_packet
stream-built = refl

diagnostic-built :
    build_diagnostic_packet 0x0E80 0x1001 (0x3E ∷ 0 ∷ [])
    ≡ ok (0x02 ∷ 0xFD ∷ 0x80 ∷ 0x01 ∷ 0 ∷ 0 ∷ 0 ∷ 6 ∷ 0x0E ∷ 0x80 ∷ 0x10 ∷ 0x01 ∷ 0x3E ∷ 0 ∷ [])
unfolding build_diagnostic_packet build_packet
diagnostic-built = refl

extract_packets-append_example :
    extract_packets ((packet ++ started) ++ (0x01 ∷ 0 ∷ 0 ∷ 0 ∷ 0 ∷ []))
    ≡ then_packets
        ((0x8001, 0xAA ∷ 0xBB ∷ []) ∷ [])
        (extract_packets (started ++ (0x01 ∷ 0 ∷ 0 ∷ 0 ∷ 0 ∷ [])))
extract_packets-append_example =
    extract_packets-append (packet ++ started) (0x01 ∷ 0 ∷ 0 ∷ 0 ∷ 0 ∷ [])
      ((0x8001, 0xAA ∷ 0xBB ∷ []) ∷ []) started packet-extracted

parse_packet-build_packet_example : parse_packet (packet ++ started) ≡ ok (0x8001, 0xAA ∷ 0xBB ∷ [])
parse_packet-build_packet_example =
    parse_packet-build_packet 0x8001 (0xAA ∷ 0xBB ∷ []) packet started packet-built

extract_packets-build_stream_example :
    extract_packets (packet ++ started)
    ≡ then_packets ((0x8001, 0xAA ∷ 0xBB ∷ []) ∷ []) (extract_packets started)
extract_packets-build_stream_example =
    extract_packets-build_stream ((0x8001, 0xAA ∷ 0xBB ∷ []) ∷ []) packet started stream-built

parse_diagnostic_payload-build_diagnostic_packet_example :
    (parse_packet (
        (0x02 ∷ 0xFD ∷ 0x80 ∷ 0x01 ∷ 0 ∷ 0 ∷ 0 ∷ 6 ∷ 0x0E ∷ 0x80 ∷ 0x10 ∷ 0x01 ∷ 0x3E ∷ 0 ∷ [])
        ++ started)
      >>= λ p. parse_diagnostic_payload p.1)
    ≡ ok (0x0E80, 0x1001, 0x3E ∷ 0 ∷ [])
parse_diagnostic_payload-build_diagnostic_packet_example =
    parse_diagnostic_payload-build_diagnostic_packet 0x0E80 0x1001 (0x3E ∷ 0 ∷ [])
      (0x02 ∷ 0xFD ∷ 0x80 ∷ 0x01 ∷ 0 ∷ 0 ∷ 0 ∷ 6 ∷ 0x0E ∷ 0x80 ∷ 0x10 ∷ 0x01 ∷ 0x3E ∷ 0 ∷ [])
      started diagnostic-built
