-- ===== src/AxiMemory/Burst.antt =====
-- The addresses of a burst.
use riscv_v2f_optimized.Prelude.{
  ℕ, zero, suc, ◌+◌, ◌-◌, ◌*◌, ◌%◌, ◌^◌, ◌<◌, length, List, ◌++◌, ◌==◌, true, bit_and, some,
  get_elem?, ◌≡◌, ◌⊎◌, inl, inr, refl, sym, ap, ◌∙◌, arith,
}
use riscv_v2f_optimized.Word.{add32, not32}
use riscv_v2f_optimized.Word.Bits.{bit_and_mask}
use riscv_v2f_optimized.Word.Masks.{merge_lem, bit_and_complement}
use riscv_v2f_optimized.Axi.{Master, Slave}
use riscv_v2f_optimized.AxiMemory.{
  AxiMemory, calc_wrap_mask, calc_next_addr, beat, unroll, burst_incr, burst_wrap, read_command,
}

-- The address after `k` beats.
unfoldable pub address_after : ℕ → ℕ → Master → ℕ
unfolding calc_next_addr
address_after zero addr first = addr
address_after (suc k) addr first =
    address_after k (calc_next_addr addr first.arburst first.arlen) first

unroll-get_elem? :
    (left i addr k : ℕ) (first : Master)
    → k < left
    → get_elem? (unroll left i addr first) k
      ≡ some (beat first (address_after k addr first) (i + k))
unfolding unroll address_after
unroll-get_elem? zero i addr k first h = absurd (omega arith)
unroll-get_elem? (suc left) i addr zero first h = ap (λ j. some (beat first addr j)) (omega arith)
unroll-get_elem? (suc left) i addr (suc k) first h =
    unroll-get_elem? left (i + 1) (calc_next_addr addr first.arburst first.arlen) k first
      (omega arith)
    ∙ ap (λ j. some (beat first (address_after (suc k) addr first) j)) (omega arith)

unroll-beat :
    (left addr k : ℕ) (first : Master)
    → k < left
    → get_elem? (unroll left 0 addr first) k ≡ some (beat first (address_after k addr first) k)
unroll-beat left addr k first h =
    unroll-get_elem? left 0 addr k first h
    ∙ ap (λ j. some (beat first (address_after k addr first) j)) (omega arith)

pub unroll-length : (left i addr : ℕ) (first : Master) → length (unroll left i addr first) ≡ left
unfolding unroll
unroll-length zero i addr first = refl
unroll-length (suc left) i addr first = ap suc (unroll-length left (i + 1) _ first)

-- The address `k` beats on, inside the window of `w` bytes that holds `a`.
abbrev pub in_window : ℕ → ℕ → ℕ → ℕ
in_window w k a = a - a % w + (a % w + 4 * k) % w

-- What makes `w` the window of a burst.
record IsWindow (w len : ℕ) : Type 0 where
  step : (a : ℕ) → a < 2 ^ 32 → calc_next_addr a burst_wrap len ≡ in_window w 1 a
  start : (a : ℕ) → in_window w 0 a ≡ a
  next : (k a : ℕ) → in_window w k (in_window w 1 a) ≡ in_window w (suc k) a
  bound : (a : ℕ) → a < 2 ^ 32 → in_window w 1 a < 2 ^ 32

address_after-wrap :
    (w len k a : ℕ) (first : Master)
    → IsWindow w len
    → first.arburst ≡ burst_wrap
    → first.arlen ≡ len
    → a < 2 ^ 32
    → address_after k a first ≡ in_window w k a
unfolding address_after
address_after-wrap w len zero a first i t l h = sym (i.start a)
address_after-wrap w len (suc k) a first i t l h =
    let one =
      ap (λ y. calc_next_addr a y first.arlen) t
      ∙ ap (calc_next_addr a burst_wrap) l
      ∙ i.step a h in
    ap (λ x. address_after k x first) one
    ∙ address_after-wrap w len k (in_window w 1 a) first i t l (i.bound a h)
    ∙ i.next k a

IsWindow-2 : IsWindow 8 1
unfolding calc_next_addr calc_wrap_mask not32 add32
IsWindow-2 = record {
  step = λ a h. omega (
    arith,
    merge_lem 32 a (add32 a 4) 7 h (omega arith),
    bit_and_mask 3 (add32 a 4),
    bit_and_mask 3 a,
  );
  start = λ a. omega arith;
  next = λ k a. omega arith;
  bound = λ a h. omega arith;
}

IsWindow-4 : IsWindow 16 3
unfolding calc_next_addr calc_wrap_mask not32 add32
IsWindow-4 = record {
  step = λ a h. omega (
    arith,
    merge_lem 32 a (add32 a 4) 15 h (omega arith),
    bit_and_mask 4 (add32 a 4),
    bit_and_mask 4 a,
  );
  start = λ a. omega arith;
  next = λ k a. omega arith;
  bound = λ a h. omega arith;
}

IsWindow-8 : IsWindow 32 7
unfolding calc_next_addr calc_wrap_mask not32 add32
IsWindow-8 = record {
  step = λ a h. omega (
    arith,
    merge_lem 32 a (add32 a 4) 31 h (omega arith),
    bit_and_mask 5 (add32 a 4),
    bit_and_mask 5 a,
  );
  start = λ a. omega arith;
  next = λ k a. omega arith;
  bound = λ a h. omega arith;
}

IsWindow-16 : IsWindow 64 15
unfolding calc_next_addr calc_wrap_mask not32 add32
IsWindow-16 = record {
  step = λ a h. omega (
    arith,
    merge_lem 32 a (add32 a 4) 63 h (omega arith),
    bit_and_mask 6 (add32 a 4),
    bit_and_mask 6 a,
  );
  start = λ a. omega arith;
  next = λ k a. omega arith;
  bound = λ a h. omega arith;
}

-- The lengths that AXI4 allows for a wrapping burst, as ARLEN.
abbrev pub IsWrapLength : ℕ → Type 0
IsWrapLength len = (len ≡ 1) ⊎ (len ≡ 3) ⊎ (len ≡ 7) ⊎ (len ≡ 15)

-- The item of a burst for its k-th beat: the command with the beat's address, marked if it is the last.
abbrev pub item_at : Master → ℕ → ℕ → Master
item_at i addr k = record i { arvalid = true; araddr = addr; wlast = k == i.arlen }

unroll-wrap :
    (first : Master) (addr k : ℕ)
    → first.arburst ≡ burst_wrap
    → IsWrapLength first.arlen
    → addr < 2 ^ 32
    → k < first.arlen + 1
    → get_elem? (unroll (first.arlen + 1) 0 addr first) k
      ≡ some (item_at first (in_window (4 * (first.arlen + 1)) k addr) k)
unroll-wrap first addr k t l h hk =
    unroll-beat (first.arlen + 1) addr k first hk ∙ ap (λ x. some (beat first x k)) (window l)
  where
    window :
        IsWrapLength first.arlen
        → address_after k addr first ≡ in_window (4 * (first.arlen + 1)) k addr
    window (inl e) =
        address_after-wrap 8 1 k addr first IsWindow-2 t e h
        ∙ ap (λ n. in_window (4 * (n + 1)) k addr) (sym e)
    window (inr (inl e)) =
        address_after-wrap 16 3 k addr first IsWindow-4 t e h
        ∙ ap (λ n. in_window (4 * (n + 1)) k addr) (sym e)
    window (inr (inr (inl e))) =
        address_after-wrap 32 7 k addr first IsWindow-8 t e h
        ∙ ap (λ n. in_window (4 * (n + 1)) k addr) (sym e)
    window (inr (inr (inr e))) =
        address_after-wrap 64 15 k addr first IsWindow-16 t e h
        ∙ ap (λ n. in_window (4 * (n + 1)) k addr) (sym e)

address_after-incr :
    (k a : ℕ) (first : Master)
    → first.arburst ≡ burst_incr
    → a < 2 ^ 32
    → address_after k a first ≡ (a + 4 * k) % 2 ^ 32
unfolding address_after calc_next_addr add32
address_after-incr zero a first t h = omega arith
address_after-incr (suc k) a first t h =
    ap (λ x. address_after k x first) (rw t refl)
    ∙ address_after-incr k ((a + 4) % 2 ^ 32) first t (omega arith)
    ∙ omega arith

unroll-incr :
    (first : Master) (addr k : ℕ)
    → first.arburst ≡ burst_incr
    → addr < 2 ^ 32
    → k < first.arlen + 1
    → get_elem? (unroll (first.arlen + 1) 0 addr first) k
      ≡ some (item_at first ((addr + 4 * k) % 2 ^ 32) k)
unroll-incr first addr k t h hk =
    unroll-beat (first.arlen + 1) addr k first hk
    ∙ ap (λ x. some (beat first x k)) (address_after-incr k addr first t h)

-- The address of a word, from one of its bytes.
abbrev pub word_address : ℕ → ℕ
word_address a = a - a % 4

module _ (rand : ℕ → ℕ) where
  -- The items that an accepted read command adds.
  abbrev burst_of : Master → List Master
  burst_of i = unroll (i.arlen + 1) 0 (word_address i.araddr) i

  read_command-burst :
      (i : Master) (o : Slave) (s : AxiMemory)
      → i.arvalid ≡ true
      → o.arready ≡ true
      → i.araddr < 2 ^ 32
      → (read_command rand i o s).rd_q ≡ s.rd_q ++ burst_of i
  unfolding read_command calc_wrap_mask not32
  read_command-burst i o s v r h =
      simp (v, r) (ap (λ a. s.rd_q ++ unroll (i.arlen + 1) 0 a i) first_word)
    where
      first_word : bit_and i.araddr (not32 3) ≡ word_address i.araddr
      first_word =
          unfold not32 in
          omega (arith, bit_and_complement 32 i.araddr 3 h (omega arith), bit_and_mask 2 i.araddr)

  -- An accepted read command of a wrapping burst, of a length that AXI4 allows, adds ARLEN + 1 items
  -- behind those that wait. The k-th is the command with the address of the k-th word from the start
  -- address on, counted round in the window of 4 * (ARLEN + 1) bytes that holds it, and is marked
  -- exactly if it is the last.
  pub read_command-wrap :
      (i : Master) (o : Slave) (s : AxiMemory) (k : ℕ)
      → i.arvalid ≡ true
      → o.arready ≡ true
      → i.araddr < 2 ^ 32
      → i.arburst ≡ burst_wrap
      → IsWrapLength i.arlen
      → k < i.arlen + 1
      → (burst : List Master) × ((read_command rand i o s).rd_q ≡ s.rd_q ++ burst)
        × (length burst ≡ i.arlen + 1)
        × (get_elem? burst k
            ≡ some (item_at i (in_window (4 * (i.arlen + 1)) k (word_address i.araddr)) k))
  read_command-wrap i o s k v r h t l hk = (
    burst_of i,
    read_command-burst i o s v r h,
    unroll-length (i.arlen + 1) 0 _ i,
    unroll-wrap i (word_address i.araddr) k t l (omega arith) hk,
  )

  -- An accepted read command of an incrementing burst adds ARLEN + 1 items behind those that wait. The
  -- k-th is the command with the address of the k-th word from the start address on, modulo 2 ^ 32,
  -- and is marked exactly if it is the last.
  pub read_command-incr :
      (i : Master) (o : Slave) (s : AxiMemory) (k : ℕ)
      → i.arvalid ≡ true
      → o.arready ≡ true
      → i.araddr < 2 ^ 32
      → i.arburst ≡ burst_incr
      → k < i.arlen + 1
      → (burst : List Master) × ((read_command rand i o s).rd_q ≡ s.rd_q ++ burst)
        × (length burst ≡ i.arlen + 1)
        × (get_elem? burst k ≡ some (item_at i ((word_address i.araddr + 4 * k) % 2 ^ 32) k))
  read_command-incr i o s k v r h t hk = (
    burst_of i,
    read_command-burst i o s v r h,
    unroll-length (i.arlen + 1) 0 _ i,
    unroll-incr i (word_address i.araddr) k t (omega arith) hk,
  )
