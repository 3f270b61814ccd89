-- ===== src/Flash/Changes.antt =====
-- What a frame may change: nothing without the write enable, and only the range that is returned.
use ue2_c64u_emulator.Base.{
  ℕ, ◌+◌, ◌-◌, ◌*◌, ◌/◌, ◌%◌, ◌≤◌, ◌<◌, ◌≡◌, refl, sym, ap, ◌∙◌, arith, ◌⊎◌, bit_and, Bool, true,
  false, not, ◌&&◌, ◌||◌, ◌==◌, ltb, if_elim, if_cases, Option, none, some, Memory,
}
use ue2_c64u_emulator.Base.Bits.{bit_at, bit_at-bit_and, bit_and-le}
use ue2_c64u_emulator.Base.Masks.{half, bit_and_high, bit_and_mask}
use ue2_c64u_emulator.Flash.Chip.{
  Nor, addr_len, erase_size, program, fill, erase, run_command, end_frame, addr_mask, page_size,
  not64,
}

-- What the end of a frame may do to the chip: nothing to the array, or a change with the write enable
-- set, which it clears.
pub record Changed (n m : Nor) (base top : ℕ) : Type 0 where
  pub enabled : n.wel ≡ true
  pub disabled : m.wel ≡ false
  pub aligned : base % 256 ≡ 0
  pub inside : top ≤ 16777216
  pub outside : (a : ℕ) → ((base ≤ a) × (a < top)) ⊎ (m.mem a ≡ n.mem a)
  pub only_clears :
      (a i : ℕ) → (m.mem a ≡ 0xff) ⊎ ((bit_at (m.mem a) i ≡ false) ⊎ (bit_at (n.mem a) i ≡ true))

unfoldable pub Harmless : Nor → Option (ℕ × ℕ) × Nor → Type 0
Harmless n (none, m) = m.mem ≡ n.mem
Harmless n (some range, m) = Changed n m range.0 range.1

pub align_page : (x : ℕ) → x < 16777216 → bit_and x (not64 (page_size - 1)) ≡ x / 256 * 256
align_page x h = omega (arith, bit_and_high 8 72057594037927935 x, bit_and_mask 56 (half 8 x))

-- The blocks that an erase clears.
align_block :
    (op size x : ℕ)
    → erase_size op ≡ some size
    → x < 16777216
    → let base = bit_and x (not64 (size - 1)) in
      (base % 256 ≡ 0) × (base + size ≤ 16777216) × (base ≤ x) × (x < base + size)
unfolding erase_size
align_block op size x e h = ground (
  arith,
  bit_and_high 12 4503599627370495 x,
  bit_and_mask 52 (half 12 x),
  bit_and_high 15 562949953421311 x,
  bit_and_mask 49 (half 15 x),
  bit_and_high 16 281474976710655 x,
  bit_and_mask 48 (half 16 x),
  bit_and_high 24 1099511627775 x,
  bit_and_mask 40 (half 24 x),
)

program_bit :
    (mem buf : Memory) (page a i : ℕ)
    → (program mem buf page a ≡ 0xff)
      ⊎ ((bit_at (program mem buf page a) i ≡ false) ⊎ (bit_at (mem a) i ≡ true))
unfolding program
program_bit mem buf page a i = ground (arith, bit_at-bit_and i (mem a) (buf (a - page)))

fill_bit :
    (mem : Memory) (base size a i : ℕ)
    → (fill mem base size a ≡ 0xff)
      ⊎ ((bit_at (fill mem base size a) i ≡ false) ⊎ (bit_at (mem a) i ≡ true))
unfolding fill
fill_bit mem base size a i = ground arith

program_outside :
    (mem buf : Memory) (page a : ℕ)
    → ((page ≤ a) × (a < page + 256)) ⊎ (program mem buf page a ≡ mem a)
unfolding program
program_outside mem buf page a = ground arith

fill_outside :
    (mem : Memory) (base size a : ℕ)
    → ((base ≤ a) × (a < base + size)) ⊎ (fill mem base size a ≡ mem a)
unfolding fill
fill_outside mem base size a = ground arith

pub start-lt : (x : ℕ) → bit_and x addr_mask < 16777216
start-lt x = omega (arith, bit_and-le x addr_mask)

program-Changed :
    (n : Nor)
    → n.wel ≡ true
    → let page = bit_and (bit_and n.addr addr_mask) (not64 (page_size - 1)) in
      Changed n
        (record n { mem = program n.mem n.page_buf page; wel = false })
        page
        (page + page_size)
program-Changed n w = record {
  enabled = w;
  disabled = refl;
  aligned = omega (arith, align_page (bit_and n.addr addr_mask) (start-lt n.addr));
  inside = omega (arith, align_page (bit_and n.addr addr_mask) (start-lt n.addr), start-lt n.addr);
  outside = λ a. program_outside n.mem n.page_buf _ a;
  only_clears = λ a i. program_bit n.mem n.page_buf _ a i;
}

erase-Harmless : (n : Nor) (op : ℕ) → n.wel ≡ true → Harmless n (erase n (erase_size op))
unfolding Harmless erase
erase-Harmless n op w = by_size (erase_size op) refl
  where
    by_size : (o : Option ℕ) → erase_size op ≡ o → Harmless n (erase n o)
    by_size none e = refl
    by_size (some size) e =
        let (low, high, _, _) =
          align_block op size (bit_and n.addr addr_mask) e (start-lt n.addr) in
        record {
          enabled = w;
          disabled = refl;
          aligned = low;
          inside = high;
          outside = λ a. fill_outside n.mem _ size a;
          only_clears = λ a i. fill_bit n.mem _ size a i;
        }

run_command-Harmless :
    (n : Nor) (op count : ℕ) (armed : Bool) → Harmless n (run_command n op count armed)
unfolding run_command Harmless
run_command-Harmless n op count armed =
    if_elim (Harmless n)
      ((op == 0x06 || op == 0x04 || op == 0x66 || op == 0x99) && not (count == 0)) _ _ refl
      (if_elim (Harmless n) (op == 0x06) _ _ refl (
        if_elim (Harmless n) (op == 0x04) _ _ refl (
          if_elim (Harmless n) (op == 0x66) _ _ refl (
            if_elim (Harmless n) ((op == 0x99) && armed) _ _ refl (
              if_cases (Harmless n) ((op == 0x02 || op == 0x12) && n.wel && ltb alen count) _ _
                (λ b. program-Changed n (ground arith))
                (λ _.
                  if_cases (Harmless n) (n.wel && (count == alen)) _ _
                    (λ b. unfold Harmless in erase-Harmless n op (ground arith)) (λ _. refl)))))))
  where
    alen : ℕ
    alen = elim (addr_len op) [ none ↦ 0 | some len ↦ len ]

-- What holds of the frame's end holds of the whole chip.
same_chip :
    (n k : Nor) (r : Option (ℕ × ℕ) × Nor)
    → k.mem ≡ n.mem
    → k.wel ≡ n.wel
    → Harmless k r
    → Harmless n r
unfolding Harmless
same_chip n k (none, m) e w h = h ∙ e
same_chip n k (some range, m) e w h = record {
  enabled = sym w ∙ h.enabled;
  disabled = h.disabled;
  aligned = h.aligned;
  inside = h.inside;
  outside = λ a. ground (arith, h.outside a, ap (λ (f : Memory). f a) e);
  only_clears = λ a i. ground (arith, h.only_clears a i, ap (λ (f : Memory). f a) e);
}

-- The end of a frame leaves the array alone, or the write enable was set and is cleared, and every
-- change lies in the range that is returned, which is aligned to the pages and inside the array;
-- there a byte is erased, or no bit of it is set that was clear.
pub end_frame_lem : (n : Nor) → Harmless n (end_frame n)
unfolding end_frame
end_frame_lem n = by_op n.op refl
  where
    by_op : (o : Option ℕ) → n.op ≡ o → Harmless n (end_frame n)
    by_op none e = simp (e, end_frame) (unfold Harmless in refl)
    by_op (some op) e =
        simp (e, end_frame)
          (same_chip n (record n { op = none; count = 0; reset_armed = false }) _ refl refl
            (run_command-Harmless _ op n.count n.reset_armed))
