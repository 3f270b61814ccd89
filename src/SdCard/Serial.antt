-- ===== src/SdCard/Serial.antt =====
-- The checksum of a data block as the card's standard has it: a shift register of 16 bits, with the polynomial
-- x^16 + x^12 + x^5 + 1, that takes the message bit by bit; and the block as it goes over the wire.
use mathlib.Core.Bool.{xor}
use ue2_c64u_emulator.Base.{
  ℕ, zero, suc, ◌*◌, ◌/◌, ◌%◌, ◌<◌, ◌≡◌, refl, sym, ap, ap₂, ◌∙◌, arith, if_elim, Bool, true, false,
  ◌==◌, if◌then◌else◌, has, bit_xor, List, [], ◌∷◌, ◌++◌, All,
}
use ue2_c64u_emulator.Base.Bits.{
  bit_at, bit_at-bit_xor, bit_at-bit_and, bit_at-not, bit_at-zero, bit_xor-lt, eq_of_bits,
}
use ue2_c64u_emulator.Base.Masks.{has_pow, bit_at-div, bit_and_mask}
use ue2_c64u_emulator.SdCard.Crc.{crc16, crc16_from, crc16_byte, crc16_bits, crc16_bit, IsByte}
use ue2_c64u_emulator.SdCard.Card.{data_block}

abbrev pub is_odd : ℕ → Bool
is_odd n = n % 2 == 1

-- One bit into the register: where it differs from the bit that falls out, the polynomial is added.
unfoldable pub shift_in : ℕ → Bool → ℕ
shift_in crc bit =
    let shifted = crc * 2 % 65536 in
    if xor (is_odd (crc / 32768)) bit then bit_xor shifted 0x1021 else shifted

unfoldable pub crc_of_bits : ℕ → List Bool → ℕ
crc_of_bits crc [] = crc
crc_of_bits crc (b ∷ bs) = crc_of_bits (shift_in crc b) bs

-- The bits of a byte, the highest first.
abbrev pub bits_of : ℕ → List Bool
bits_of n =
    is_odd (n / 128)
    ∷ is_odd (n / 64)
    ∷ is_odd (n / 32)
    ∷ is_odd (n / 16)
    ∷ is_odd (n / 8)
    ∷ is_odd (n / 4)
    ∷ is_odd (n / 2)
    ∷ is_odd n
    ∷ []

unfoldable pub serial_from : ℕ → List ℕ → ℕ
serial_from crc [] = crc
serial_from crc (n ∷ ns) = serial_from (crc_of_bits crc (bits_of n)) ns

unfoldable pub serial_crc : List ℕ → ℕ
serial_crc bytes = serial_from 0 bytes

-- A data block on the wire: the start token, the data, and the checksum, its high byte first.
unfoldable pub wire_block : List ℕ → List ℕ
wire_block bytes = 0xfe ∷ (bytes ++ (serial_crc bytes / 256 ∷ serial_crc bytes % 256 ∷ []))

bit_at-mod : (i n : ℕ) → i < 16 → bit_at (n % 65536) i ≡ bit_at n i
bit_at-mod i n h =
    ap (λ (t : ℕ). bit_at t i) (sym (bit_and_mask 16 n))
    ∙ bit_at-bit_and i n 65535
    ∙ ground (arith, bit_at-not 16 i 0 h, bit_at-zero i)

doubled : (i n : ℕ) → suc i < 16 → bit_at (n * 2 % 65536) (suc i) ≡ bit_at n i
doubled i n h = bit_at-mod (suc i) (n * 2) h ∙ halved
  where
    halved : bit_at (n * 2) (suc i) ≡ bit_at n i
    halved = unfold bit_at in ap (λ (t : ℕ). bit_at t i) (omega arith)

even : (n : ℕ) → bit_at (n * 2 % 65536) 0 ≡ false
unfolding bit_at
even n = ground arith

double-xor : (a b : ℕ) → bit_xor a b * 2 % 65536 ≡ bit_xor (a * 2 % 65536) (b * 2 % 65536)
unfolding xor
double-xor a b =
    eq_of_bits 16 _ _ (omega arith)
      (bit_xor-lt 16 (a * 2 % 65536) (b * 2 % 65536) (omega arith) (omega arith)) each
  where
    each :
        (i : ℕ)
        → i < 16
        → bit_at (bit_xor a b * 2 % 65536) i ≡ bit_at (bit_xor (a * 2 % 65536) (b * 2 % 65536)) i
    each zero h = simp (bit_at-bit_xor, even (bit_xor a b), even a, even b)
    each (suc i) h = simp (bit_at-bit_xor, doubled i (bit_xor a b) h, doubled i a h, doubled i b h)

bool_swap : (a b c : Bool) → xor (xor a b) c ≡ xor (xor a c) b
unfolding xor
bool_swap a b c = ground arith

xor_swap :
    (a b c : ℕ)
    → a < 65536
    → b < 65536
    → c < 65536
    → bit_xor (bit_xor a b) c ≡ bit_xor (bit_xor a c) b
xor_swap a b c ha hb hc =
    eq_of_bits 16 _ _ (bit_xor-lt 16 (bit_xor a b) c (bit_xor-lt 16 a b ha hb) hc)
      (bit_xor-lt 16 (bit_xor a c) b (bit_xor-lt 16 a c ha hc) hb)
      (λ i h. simp bit_at-bit_xor (bool_swap (bit_at a i) (bit_at b i) (bit_at c i)))

test_lem : (c r : ℕ) → has (bit_xor c r) 0x8000 ≡ xor (is_odd (c / 32768)) (is_odd (r / 32768))
test_lem c r =
    has_pow 15 (bit_xor c r) ∙ bit_at-bit_xor 15 c r ∙ ap₂ xor (bit_at-div 15 c) (bit_at-div 15 r)

-- The register of the code, which has taken the message's bits `r` at its top already, against the one that takes
-- the highest of them now.
step_lem :
    (c r : ℕ) → crc16_bit (bit_xor c r) ≡ bit_xor (shift_in c (is_odd (r / 32768))) (r * 2 % 65536)
unfolding crc16_bit shift_in
step_lem c r =
    let a = c * 2 % 65536 in
    let b = r * 2 % 65536 in
    let x = bit_xor c r * 2 % 65536 in
    ap (λ (t : Bool). if t then bit_xor x 0x1021 else x) (test_lem c r)
    ∙ ap (λ (t : ℕ). if xor (is_odd (c / 32768)) (is_odd (r / 32768)) then bit_xor t 0x1021 else t)
        (double-xor c r)
    ∙ branches (xor (is_odd (c / 32768)) (is_odd (r / 32768))) a b
        (xor_swap a b 0x1021 (omega arith) (omega arith) (omega arith))
  where
    branches :
        (t : Bool) (a b : ℕ)
        → bit_xor (bit_xor a b) 0x1021 ≡ bit_xor (bit_xor a 0x1021) b
        → (if t then bit_xor (bit_xor a b) 0x1021 else bit_xor a b)
          ≡ bit_xor (if t then bit_xor a 0x1021 else a) b
    branches true a b e = e
    branches false a b e = refl

-- The top bits of a register that is shifted.
abbrev top_bits : ℕ → ℕ → List Bool
top_bits zero r = []
top_bits (suc n) r = is_odd (r / 32768) ∷ top_bits n (r * 2 % 65536)

abbrev shifted : ℕ → ℕ → ℕ
shifted zero r = r
shifted (suc n) r = shifted n (r * 2 % 65536)

steps_lem :
    (n c r : ℕ) → crc16_bits n (bit_xor c r) ≡ bit_xor (crc_of_bits c (top_bits n r)) (shifted n r)
unfolding crc16_bits crc_of_bits
steps_lem zero c r = refl
steps_lem (suc n) c r =
    ap (crc16_bits n) (step_lem c r) ∙ steps_lem n (shift_in c (is_odd (r / 32768))) (r * 2 % 65536)

xor_zero : (n : ℕ) → n < 65536 → bit_xor n 0 ≡ n
unfolding xor
xor_zero n h =
    eq_of_bits 16 _ _ (bit_xor-lt 16 n 0 h (omega arith)) h (λ i lt.
      bit_at-bit_xor i n 0 ∙ ap (xor (bit_at n i)) (bit_at-zero i) ∙ no_change (bit_at n i))
  where
    no_change : (b : Bool) → xor b false ≡ b
    no_change true = refl
    no_change false = refl

shift_in-lt : (c : ℕ) (b : Bool) → shift_in c b < 65536
unfolding shift_in
shift_in-lt c b =
    if_elim (λ (n : ℕ). n < 65536) (xor (is_odd (c / 32768)) b) _ _
      (bit_xor-lt 16 (c * 2 % 65536) 0x1021 (omega arith) (omega arith)) (omega arith)

crc_of_bits-lt : (bs : List Bool) (c : ℕ) → c < 65536 → crc_of_bits c bs < 65536
unfolding crc_of_bits
crc_of_bits-lt [] c h = h
crc_of_bits-lt (b ∷ bs) c h = crc_of_bits-lt bs (shift_in c b) (shift_in-lt c b)

odd_eq : (m n : ℕ) → m % 2 ≡ n % 2 → is_odd m ≡ is_odd n
odd_eq m n e = ap (λ (t : ℕ). t == 1) e

eight :
    {a b c d e f g h a' b' c' d' e' f' g' h' : Bool}
    → a ≡ a'
    → b ≡ b'
    → c ≡ c'
    → d ≡ d'
    → e ≡ e'
    → f ≡ f'
    → g ≡ g'
    → h ≡ h'
    → ◌≡◌ {A = List Bool}
        (a ∷ b ∷ c ∷ d ∷ e ∷ f ∷ g ∷ h ∷ [])
        (a' ∷ b' ∷ c' ∷ d' ∷ e' ∷ f' ∷ g' ∷ h' ∷ [])
eight p q r s t u v w = rw (p, q, r, s, t, u, v, w) refl

byte_bits : (n : ℕ) → n < 256 → top_bits 8 (n * 256) ≡ bits_of n
byte_bits n h =
    eight (odd_eq _ _ (omega arith)) (odd_eq _ _ (omega arith)) (odd_eq _ _ (omega arith))
      (odd_eq _ _ (omega arith)) (odd_eq _ _ (omega arith)) (odd_eq _ _ (omega arith))
      (odd_eq _ _ (omega arith)) (odd_eq _ _ (omega arith))

crc16_byte_lem : (c n : ℕ) → c < 65536 → n < 256 → crc16_byte c n ≡ crc_of_bits c (bits_of n)
unfolding crc16_byte
crc16_byte_lem c n h k =
    let gone : shifted 8 (n * 256) ≡ 0 = omega arith in
    steps_lem 8 c (n * 256)
    ∙ ap (bit_xor (crc_of_bits c (top_bits 8 (n * 256)))) gone
    ∙ xor_zero _ (crc_of_bits-lt (top_bits 8 (n * 256)) c h)
    ∙ ap (crc_of_bits c) (byte_bits n k)

crc16_from_lem :
    (bytes : List ℕ) (c : ℕ)
    → c < 65536
    → All IsByte bytes
    → crc16_from c bytes ≡ serial_from c bytes
unfolding crc16_from serial_from
crc16_from_lem [] c h v = refl
crc16_from_lem (n ∷ ns) c h v =
    ap (λ (t : ℕ). crc16_from t ns) (crc16_byte_lem c n h v.0)
    ∙ crc16_from_lem ns (crc_of_bits c (bits_of n)) (crc_of_bits-lt (bits_of n) c h) v.1

-- The card's blocks are blocks of the wire: the code's checksum, which takes a byte at a time into the top of
-- its register, is the serial one.
pub data_block_lem : (bytes : List ℕ) → All IsByte bytes → data_block bytes ≡ wire_block bytes
unfolding data_block wire_block crc16 serial_crc
data_block_lem bytes v =
    ap (λ (t : ℕ). 0xfe ∷ (bytes ++ (t / 256 ∷ t % 256 ∷ [])))
      (crc16_from_lem bytes 0 (omega arith) v)

-- Several blocks, one after the other.
unfoldable pub wire_blocks : List (List ℕ) → List ℕ
wire_blocks [] = []
wire_blocks (b ∷ bs) = wire_block b ++ wire_blocks bs
