-- ===== src/RawUdp.antt =====
-- The UDP client on a raw socket (chapter10/raw-u-client.c): the Internet checksum, the packet that it
-- builds by hand, and the reply packets that it reads. A 16-bit word is read from memory by its low
-- byte first, as on the little-endian hosts that the program runs on.
pub mod Checksum
pub mod Packet
pub mod Session
pub mod Safe
use network_program.Prelude.{
  ℕ, zero, suc, ◌+◌, ◌-◌, ◌*◌, ◌/◌, ◌%◌, ◌^◌, Bool, ◌||◌, Option, none, some, List, [], ◌∷◌, ◌++◌,
  ltb, leb, ◌==◌, if◌then◌else◌, length, get_elem?, take, drop, Run, done, fault, Ret, minus_one,
  count,
}

abbrev pub word : ℕ → ℕ → ℕ
word lo hi = lo + 256 * hi

-- `sum = (sum & 0xFFFF) + (sum >> 16)`
abbrev pub fold_once : ℕ → ℕ
fold_once sum = sum % 2 ^ 16 + sum / 2 ^ 16

-- `sum += *ptr; if (sum & 0x80000000) ...` on a uint32_t.
unfoldable pub add_word : ℕ → ℕ → ℕ
add_word sum w = let s = (sum + w) % 2 ^ 32 in if leb (2 ^ 31) s then fold_once s else s

-- The loop over the words, and the odd byte behind it.
unfoldable pub sum_words : ℕ → List ℕ → ℕ
unfolding add_word
sum_words sum [] = sum
sum_words sum (b ∷ []) = (sum + b) % 2 ^ 32
sum_words sum (b ∷ c ∷ bs) = sum_words (add_word sum (word b c)) bs

-- `while (sum >> 16) ...` on fuel.
unfoldable pub fold_sum : ℕ → ℕ → ℕ
fold_sum zero sum = sum
fold_sum (suc fuel) sum =
    let rest = fold_sum fuel (fold_once sum) in if sum / 2 ^ 16 == 0 then sum else rest

unfoldable pub checksum : List ℕ → ℕ
unfolding sum_words fold_sum
checksum bs = let sum = fold_sum 3 (sum_words 0 bs) in if sum == 0xFFFF then sum else 0xFFFF - sum

-- `htons(n)` in memory.
abbrev pub be16 : ℕ → List ℕ
be16 n = (n / 256 % 256) ∷ (n % 256) ∷ []

-- A uint16_t in memory.
abbrev pub le16 : ℕ → List ℕ
le16 n = (n % 256) ∷ (n / 256 % 256) ∷ []

abbrev pub source_addr : List ℕ
source_addr = 0 ∷ 0 ∷ 0 ∷ 0 ∷ []

abbrev pub dest_addr : List ℕ
dest_addr = 255 ∷ 255 ∷ 255 ∷ 255 ∷ []

abbrev pub source_port : ℕ
source_port = 22223

abbrev pub dest_port : ℕ
dest_port = 22222

-- `uint8_t data[256]` of `struct udp_packet` and `struct pseudo_udp`
abbrev pub data_size : ℕ
data_size = 256

-- `struct pseudo_header`
unfoldable pub pseudo_header : ℕ → List ℕ
pseudo_header size = source_addr ++ (dest_addr ++ 0 ∷ 17 ∷ be16 (8 + size))

-- `struct udphdr` up to its checksum
unfoldable pub udp_front : ℕ → List ℕ
udp_front size = be16 source_port ++ (be16 dest_port ++ be16 (8 + size))

-- `struct ip` up to its checksum, and behind it
unfoldable pub ip_front : ℕ → List ℕ
ip_front size = 0x45 ∷ 0 ∷ (be16 (20 + 8 + size) ++ 0 ∷ 0 ∷ 0 ∷ 0 ∷ 64 ∷ 17 ∷ [])

abbrev pub ip_back : List ℕ
ip_back = source_addr ++ dest_addr

-- `gudp.udp.check`
unfoldable pub udp_check : List ℕ → ℕ
unfolding pseudo_header udp_front
udp_check payload =
    checksum (pseudo_header (length payload) ++ (udp_front (length payload) ++ 0 ∷ 0 ∷ payload))

-- `udp.ip.ip_sum`
unfoldable pub ip_sum : ℕ → ℕ
unfolding ip_front
ip_sum size = checksum (ip_front size ++ 0 ∷ 0 ∷ ip_back)

-- The headers and the payload, as they are copied one behind the other into `buf`.
unfoldable pub build_packet : List ℕ → List ℕ → List ℕ
unfolding udp_check ip_sum
build_packet hwaddr payload =
    (255 ∷ 255 ∷ 255 ∷ 255 ∷ 255 ∷ 255 ∷ (hwaddr ++ 8 ∷ 0 ∷ []))
    ++ ((ip_front (length payload) ++ (le16 (ip_sum (length payload)) ++ ip_back))
        ++ ((udp_front (length payload) ++ le16 (udp_check payload)) ++ payload))

-- The packet that is given to `send`, and the value returned. `hwaddr` is what SIOCGIFHWADDR gives,
-- `none` if it fails.
pub record Sending : Type 0 where
  pub packet : Option (List ℕ)
  pub rv : Ret

-- `memcpy(gudp.data, data, size)` writes outside of the array where `size` is larger than 256.
unfoldable pub send_udp_raw : Option (List ℕ) → Bool → List ℕ → Run Sending
unfolding build_packet
send_udp_raw hwaddr send_ok payload =
    if ltb data_size (length payload) then fault else elim hwaddr [
      | none ↦ done (record { packet = none; rv = minus_one })
      | some hw ↦ done (record {
        packet = some (build_packet hw payload);
        rv = if send_ok then count (length payload) else minus_one;
      })
    ]

-- A byte of a received packet; `check_packet` reads inside of the caller's array of 512 bytes.
abbrev pub byte_at : List ℕ → ℕ → ℕ
byte_at bs i = elim (get_elem? bs i) [ none ↦ 0 | some b ↦ b ]

-- `ntohs` of the two bytes at `i`.
abbrev pub net16 : List ℕ → ℕ → ℕ
net16 bs i = byte_at bs i * 256 + byte_at bs (suc i)

-- The payload that is printed, if the packet is a UDP packet for the client's port. `len` is a
-- `size_t`: for a packet shorter than its headers it wraps, and the `memcpy` runs off the array.
unfoldable pub check_packet : List ℕ → ℕ → Run (Option (List ℕ))
check_packet bs len =
    if net16 bs 12 == 0x0800
    then if byte_at bs 23 == 17
      then if net16 bs 36 == source_port
        then if ltb len 42 || ltb 511 (len - 42)
          then fault
          else done (some (take (len - 42) (drop 42 bs)))
        else done none
      else done none
    else done none
