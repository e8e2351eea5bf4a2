-- ===== src/Doip/Stream.antt =====
-- What is built is parsed back, and where TCP cuts the stream makes no difference.
use virtual_automotive_ota_d.Prelude.{
  ℕ, zero, suc, ◌+◌, ◌^◌, ◌≤◌, ◌<◌, ◌≡◌, refl, sym, ◌∙◌, false, Bool-cases, inl, inr, List, [], ◌∷◌,
  ◌++◌, length, drop, Bytes, Result, ok, err, arith, append-nil, append_assoc, drop-drop,
  length-append, length-drop, take-append_length, drop-append_length, be16, be32, dec_lt, ◌>>=◌,
  >>=-eq-ok,
}
use virtual_automotive_ota_d.Doip.{
  Packet, build_packet, build_diagnostic_packet, parse_diagnostic_payload, parse_packet,
  header_type, header_length, packet_payload, bad_version, extract_loop, extract_packets,
}
use virtual_automotive_ota_d.Doip.Framing.{
  extract_loop-append, extract_loop-short, extract_loop-whole, extract_loop-bad,
  extract_loop-partial, extract_loop-fuel,
}

-- The packets that one call returned, then those of the next call, or the exception of that.
abbrev pub then_packets : List Packet → Result (List Packet) × Bytes → Result (List Packet) × Bytes
then_packets ps (ok qs, rest) = (ok (ps ++ qs), rest)
then_packets ps (err e, rest) = (err e, rest)

then_packets-append :
    (ps qs : List Packet) (r : Result (List Packet) × Bytes)
    → then_packets (ps ++ qs) r ≡ then_packets ps (then_packets qs r)
then_packets-append ps qs (ok rs, rest) = rw append_assoc
then_packets-append ps qs (err e, rest) = refl

then_packets-nil : (r : Result (List Packet) × Bytes) → r ≡ then_packets [] r
then_packets-nil (ok rs, rest) = refl
then_packets-nil (err e, rest) = refl

extract_loop-accumulator :
    (f : ℕ) (out : List Packet) (b : Bytes)
    → length b ≤ f
    → extract_loop f out b ≡ then_packets out (extract_loop f [] b)
extract_loop-accumulator zero out b h = rw (
  extract_loop-short zero out b (omega arith),
  extract_loop-short zero [] b (omega arith),
  append-nil,
)
extract_loop-accumulator (suc f) out b h = elim (dec_lt (length b) 8) [
  | yes short ↦
      rw (extract_loop-short (suc f) out b short, extract_loop-short (suc f) [] b short, append-nil)
  | no long ↦ elim (Bool-cases (bad_version b)) [
    | inl bad ↦
        rw (extract_loop-bad f out b (omega arith) bad, extract_loop-bad f [] b (omega arith) bad)
    | inr good ↦ elim (dec_lt (length b) (8 + header_length b)) [
      | yes part ↦ rw (
        extract_loop-partial (suc f) out b (omega arith) good part,
        extract_loop-partial (suc f) [] b (omega arith) good part,
        append-nil,
      )
      | no whole ↦
          let x : Packet = (header_type b, packet_payload b) in
          let b' = drop (8 + header_length b) b in
          let shorter : length b' ≤ f = omega (arith, length-drop (8 + header_length b) b) in
          rw
            (
              extract_loop-whole f out b (omega arith) good (omega arith),
              extract_loop-whole f [] b (omega arith) good (omega arith),
              extract_loop-accumulator f (out ++ (x ∷ [])) b' shorter,
              extract_loop-accumulator f (x ∷ []) b' shorter,
            )
            (then_packets-append out (x ∷ []) (extract_loop f [] b'))
    ]
  ]
]

-- A build that succeeds, spelled out.
packet_bytes : ℕ → Bytes → Bytes
packet_bytes t p = (0x02 ∷ 0xFD ∷ be16 t ++ be32 (length p)) ++ p

build_packet-inv :
    (t : ℕ) (p d : Bytes)
    → build_packet t p ≡ ok d
    → (t < 2 ^ 16) × (length p < 2 ^ 32) × (d ≡ packet_bytes t p)
unfolding build_packet packet_bytes
build_packet-inv t p d e = ground arith

-- Reading a stream in two parts, the second with what the first left over, returns the packets and
-- the leftover, or the exception, of reading it at once.
pub extract_packets-append :
    (xs ys : Bytes) (ps : List Packet) (rest : Bytes)
    → extract_packets xs ≡ (ok ps, rest)
    → extract_packets (xs ++ ys) ≡ then_packets ps (extract_packets (rest ++ ys))
unfolding extract_packets
extract_packets-append xs ys ps rest e =
    extract_loop-append (length xs) [] xs ys ps rest (omega arith) e (length (xs ++ ys))
      (omega arith)
    ∙ extract_loop-accumulator (length (rest ++ ys)) ps (rest ++ ys) (omega arith)

-- The header of a packet that was built, whatever follows it.
module _ (t : ℕ) (p rest : Bytes) (ht : t < 2 ^ 16) (hp : length p < 2 ^ 32) where
  header_type-built : header_type (packet_bytes t p ++ rest) ≡ t
  unfolding packet_bytes
  header_type-built = omega arith

  header_length-built : header_length (packet_bytes t p ++ rest) ≡ length p
  unfolding packet_bytes
  header_length-built = omega arith

  packet_payload-built : packet_payload (packet_bytes t p ++ rest) ≡ p
  packet_payload-built = rw header_length-built (unfold packet_bytes in take-append_length p rest)

  length-built : length (packet_bytes t p ++ rest) ≡ 8 + length p + length rest
  unfolding packet_bytes
  length-built = omega (arith, length-append p rest)

  drop-built : drop (8 + length p) (packet_bytes t p ++ rest) ≡ rest
  unfolding packet_bytes
  drop-built = drop-drop 8 (length p) (packet_bytes t p ++ rest) ∙ drop-append_length p rest

  good_version-built : bad_version (packet_bytes t p ++ rest) ≡ false
  unfolding packet_bytes
  good_version-built = refl

-- `parse_packet` reads back what `build_packet` made, and passes over the bytes that follow.
pub parse_packet-build_packet :
    (t : ℕ) (p d rest : Bytes) → build_packet t p ≡ ok d → parse_packet (d ++ rest) ≡ ok (t, p)
unfolding parse_packet
parse_packet-build_packet t p d rest e =
    let (ht, hp, made) = build_packet-inv t p d e in
    rw made (
      ground (
        arith,
        header_type-built t p rest ht hp,
        header_length-built t p rest ht hp,
        packet_payload-built t p rest ht hp,
        length-built t p rest ht hp,
        good_version-built t p rest ht hp,
      ))

extract_packets-build_packet :
    (t : ℕ) (p d rest : Bytes)
    → build_packet t p ≡ ok d
    → extract_packets (d ++ rest) ≡ then_packets ((t, p) ∷ []) (extract_packets rest)
unfolding extract_packets
extract_packets-build_packet t p d rest e =
    let (ht, hp, made) = build_packet-inv t p d e in
    let b = packet_bytes t p ++ rest in
    let size : length b ≡ 8 + length p + length rest = length-built t p rest ht hp in
    let first : extract_loop (suc (length b)) [] b ≡ extract_loop (length b) ((t, p) ∷ []) rest =
      extract_loop-whole (length b) [] b (omega arith) (good_version-built t p rest ht hp)
        (rw (header_length-built t p rest ht hp) (omega arith))
      ∙ rw (
        header_type-built t p rest ht hp,
        packet_payload-built t p rest ht hp,
        header_length-built t p rest ht hp,
        drop-built t p rest ht hp,
      ) in
    rw made (
      extract_loop-fuel (length b) (suc (length b)) [] b (omega arith) (omega arith)
      ∙ first
      ∙ extract_loop-fuel (length b) (length rest) ((t, p) ∷ []) rest (omega arith) (omega arith)
      ∙ extract_loop-accumulator (length rest) ((t, p) ∷ []) rest (omega arith))

-- The byte stream of packets sent one after the other.
abbrev pub build_stream : List Packet → Result Bytes
build_stream [] = ok []
build_stream ((t, p) ∷ ps) = do d ← build_packet t p; s ← build_stream ps; ok (d ++ s)

-- From a stream of packets that were built, followed by any bytes, `extract_packets` returns these
-- packets in order, then what it finds in the bytes that follow.
pub extract_packets-build_stream :
    (ps : List Packet) (s rest : Bytes)
    → build_stream ps ≡ ok s
    → extract_packets (s ++ rest) ≡ then_packets ps (extract_packets rest)
extract_packets-build_stream [] s rest e =
    let empty : [] ≡ s = cc in rw (← empty) (then_packets-nil (extract_packets rest))
extract_packets-build_stream ((t, p) ∷ ps) s rest e =
    let (d, built, e') = >>=-eq-ok (build_packet t p) _ e in
    let (s', later, e'') = >>=-eq-ok (build_stream ps) _ e' in
    let whole : d ++ s' ≡ s = cc in
    rw
      (
        ← whole,
        append_assoc d s' rest,
        extract_packets-build_packet t p d (s' ++ rest) built,
        extract_packets-build_stream ps s' rest later,
      )
      (sym (then_packets-append ((t, p) ∷ []) ps (extract_packets rest)))

build_diagnostic_packet-inv :
    (source target : ℕ) (payload d : Bytes)
    → build_diagnostic_packet source target payload ≡ ok d
    → (source < 2 ^ 16)
      × (target < 2 ^ 16)
      × (build_packet 0x8001 ((be16 source ++ be16 target) ++ payload) ≡ ok d)
unfolding build_diagnostic_packet
build_diagnostic_packet-inv source target payload d e = ground arith

parse_diagnostic_payload-addresses :
    (source target : ℕ) (payload : Bytes)
    → source < 2 ^ 16
    → target < 2 ^ 16
    → parse_diagnostic_payload ((be16 source ++ be16 target) ++ payload)
      ≡ ok (source, target, payload)
unfolding parse_diagnostic_payload
parse_diagnostic_payload-addresses source target payload hs ht = ground arith

-- What `build_diagnostic_packet` made is read back by `parse_packet` and `parse_diagnostic_payload`:
-- both addresses and the payload, whatever bytes follow the packet.
pub parse_diagnostic_payload-build_diagnostic_packet :
    (source target : ℕ) (payload d rest : Bytes)
    → build_diagnostic_packet source target payload ≡ ok d
    → (parse_packet (d ++ rest) >>= λ packet. parse_diagnostic_payload packet.1)
      ≡ ok (source, target, payload)
parse_diagnostic_payload-build_diagnostic_packet source target payload d rest e =
    let (hs, ht, built) = build_diagnostic_packet-inv source target payload d e in
    rw (parse_packet-build_packet 0x8001 ((be16 source ++ be16 target) ++ payload) d rest built)
      (parse_diagnostic_payload-addresses source target payload hs ht)
